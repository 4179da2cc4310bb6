-- ===== src/SysMin/Ring.antt =====
-- The ring and the unbounded log that it holds the end of.
use benchmarks_m3_dsp_unopti.Base.{
  ℕ, zero, suc, ◌+◌, ◌-◌, ◌<◌, ◌≡◌, ◌≢◌, refl, sym, ap, ap₂, ◌∙◌, subst, ltb, leb, ◌==◌,
  if◌then◌else◌, some, List, [], ◌∷◌, ◌++◌, Bool, true, false, ◌||◌, set, length, get_elem?, arith,
  Bool-cases, if_false, get_elem?-set_self, get_elem?-set_ne, length-set, inl, inr,
}
use benchmarks_m3_dsp_unopti.SysMin.{
  Trace, newline, limit, output, output_all, stamp, put_time, put_line, putch,
}

-- The index of the character that was written `i` characters ago, in a ring of `n` with the next index `o`.
abbrev pub behind : ℕ → ℕ → ℕ → ℕ
behind n o i = if ltb i o then o - 1 - i else o + n - 1 - i

abbrev pub next_index : ℕ → ℕ → ℕ
next_index n o = if o + 1 == n then 0 else o + 1

behind-newest : (n o : ℕ) → o < n → behind n (next_index n o) 0 ≡ o
behind-newest n o h = ground (arith, h)

behind-older : (n o i : ℕ) → o < n → suc i < n → behind n (next_index n o) (suc i) ≡ behind n o i
behind-older n o i h l = ground (arith, h, l)

behind-ne : (n o i : ℕ) → o < n → suc i < n → o ≢ behind n o i
behind-ne n o i h l = ground (arith, h, l)

next_index-lt : (n o : ℕ) → o < n → next_index n o < n
next_index-lt n o h = ground (arith, h)

-- The ring holds the last characters of what was written, the newest first.
pub record Tracks (buf_size : ℕ) (t : Trace) (written : List ℕ) : Type 0 where
  pub size : length t.outbuf ≡ limit buf_size
  pub inside : t.outidx < limit buf_size
  pub recent :
      (i x : ℕ)
      → i < limit buf_size
      → get_elem? written i ≡ some x
      → get_elem? t.outbuf (behind (limit buf_size) t.outidx i) ≡ some x

output-Tracks :
    (b ch : ℕ) (t : Trace) (w : List ℕ) → Tracks b t w → Tracks b (output b ch t) (ch ∷ w)
unfolding output
output-Tracks b ch t w v = record {
  size = length-set t.outbuf t.outidx ch ∙ v.size;
  inside = next_index-lt (limit b) t.outidx v.inside;
  recent = latest;
}
  where
    latest :
        (i x : ℕ)
        → i < limit b
        → get_elem? (ch ∷ w) i ≡ some x
        → get_elem? (set t.outbuf t.outidx ch) (behind (limit b) (next_index (limit b) t.outidx) i)
          ≡ some x
    latest zero x h e =
        ap (get_elem? (set t.outbuf t.outidx ch)) (behind-newest (limit b) t.outidx v.inside)
        ∙ (get_elem?-set_self t.outbuf t.outidx ch (subst (λ n. t.outidx < n) (sym v.size) v.inside)
            ∙ e)
    latest (suc i) x h e =
        ap (get_elem? (set t.outbuf t.outidx ch)) (behind-older (limit b) t.outidx i v.inside h)
        ∙ (get_elem?-set_ne t.outbuf t.outidx _ ch (behind-ne (limit b) t.outidx i v.inside h)
            ∙ v.recent i x (omega (arith, h)) e)

-- Characters in front of others, the last one first.
unfoldable pub onto : List ℕ → List ℕ → List ℕ
onto [] w = w
onto (c ∷ cs) w = onto cs (c ∷ w)

output_all-Tracks :
    (b : ℕ) (cs : List ℕ) (t : Trace) (w : List ℕ)
    → Tracks b t w
    → Tracks b (output_all b cs t) (onto cs w)
unfolding output_all onto
output_all-Tracks b [] t w v = v
output_all-Tracks b (c ∷ cs) t w v =
    output_all-Tracks b cs (output b c t) (c ∷ w) (output-Tracks b c t w v)

output_all-fields :
    (b : ℕ) (cs : List ℕ) (t : Trace)
    → ((output_all b cs t).line ≡ t.line) × ((output_all b cs t).get_time ≡ t.get_time)
unfolding output_all output
output_all-fields b [] t = (refl, refl)
output_all-fields b (c ∷ cs) t = output_all-fields b cs (output b c t)

-- The log: everything that was written, the line that is not finished, and whether a time comes next.
pub record Log : Type 0 where
  pub written : List ℕ
  pub line : List ℕ
  pub get_time : Bool

module _ (b line_size period : ℕ) (print : ℕ → List ℕ) where
  -- A character is added to the log: the time in front of the first one of a line, the line when it is
  -- full or ends.
  abbrev pub log_line : ℕ → List ℕ → List ℕ → Log
  log_line ch line w =
      if (ch == newline) || leb line_size (length line)
      then record { written = onto line w; line = []; get_time = true }
      else record { written = w; line = line; get_time = false }

  abbrev pub log_putch : ℕ → ℕ → Log → Log
  log_putch usec ch l =
      log_line ch (l.line ++ ch ∷ [])
        (if l.get_time then onto (stamp b line_size period print usec) l.written else l.written)

  unfoldable pub log_all : List (ℕ × ℕ) → Log → Log
  log_all [] l = l
  log_all ((usec, ch) ∷ cs) l = log_all cs (log_putch usec ch l)

  pub record Logs (t : Trace) (l : Log) : Type 0 where
    pub tracks : Tracks b t l.written
    pub same_line : t.line ≡ l.line
    pub same_time : t.get_time ≡ l.get_time
    pub fits : length t.line < line_size

  pub length-append_one : (l : List ℕ) (c : ℕ) → length (l ++ c ∷ []) ≡ suc (length l)
  length-append_one [] c = refl
  length-append_one (x ∷ l) c = ap suc (length-append_one l c)

  put_line-Logs :
      (ch : ℕ) (t : Trace) (w : List ℕ)
      → Tracks b t w
      → t.get_time ≡ false
      → 0 < line_size
      → Logs (put_line b line_size period print ch t) (log_line ch t.line w)
  put_line-Logs ch t w v g pos_size =
      elim (Bool-cases ((ch == newline) || leb line_size (length t.line))) [
        | inl e ↦
            let u = output_all-Tracks b t.line t w v in
            rw (e, put_line)
              (record {
                tracks = record { size = u.size; inside = u.inside; recent = u.recent };
                same_line = refl;
                same_time = refl;
                fits = pos_size;
              })
        | inr e ↦
            rw (e, put_line)
              (record { tracks = v; same_line = refl; same_time = g; fits = ground (arith, e) })
      ]

  -- A trace with the time written, if one was to come.
  record Timed (t : Trace) (line w : List ℕ) : Type 0 where
    tracks : Tracks b t w
    timed : t.get_time ≡ false
    its_line : t.line ≡ line

  put_time-Timed :
      (usec : ℕ) (t : Trace) (w : List ℕ)
      → Tracks b t w
      → Timed
          (put_time b line_size period print usec t)
          t.line
          (if t.get_time then onto (stamp b line_size period print usec) w else w)
  put_time-Timed usec t w v = by_time t.get_time (λ e. e)
    where
      by_time :
          (g : Bool)
          → (g ≡ false → t.get_time ≡ false)
          → Timed
              (if g
                then record (output_all b (stamp b line_size period print usec) t) {
                  get_time = false;
                }
                else t)
              t.line
              (if g then onto (stamp b line_size period print usec) w else w)
      by_time false h = record { tracks = v; timed = h refl; its_line = refl }
      by_time true h =
          let u = output_all-Tracks b (stamp b line_size period print usec) t w v in
          record {
            tracks = record { size = u.size; inside = u.inside; recent = u.recent };
            timed = refl;
            its_line = (output_all-fields b (stamp b line_size period print usec) t).0;
          }

  -- A ring that holds the end of a log holds the end of the log with one more character after
  -- SysMin_putch, and its unfinished line and its mark for the time are those of the log. The line
  -- buffer never overflows. This is for a trace buffer and a line buffer that are not empty.
  pub putch-Logs :
      (usec ch : ℕ) (t : Trace) (l : Log)
      → 0 < b
      → 0 < line_size
      → Logs t l
      → Logs (putch b line_size period print usec ch t) (log_putch usec ch l)
  unfolding putch
  putch-Logs usec ch t l size pos_size v =
      let t₁ : Trace = record t { line = t.line ++ ch ∷ [] } in
      let k = v.tracks in
      let d =
        put_time-Timed usec t₁ l.written
          (record { size = k.size; inside = k.inside; recent = k.recent }) in
      let same : log_line ch (put_time b line_size period print usec t₁).line
            (if t.get_time then onto (stamp b line_size period print usec) l.written else l.written)
          ≡ log_putch usec ch l =
        ap₂
          (λ x (g : Bool).
            log_line ch x
              (if g then onto (stamp b line_size period print usec) l.written else l.written))
          (d.its_line ∙ ap (λ x. x ++ ch ∷ []) v.same_line) v.same_time in
      subst (λ x. Logs x (log_putch usec ch l)) (sym (if_false (b == 0) _ _ (ground (arith, size))))
        (subst
          (Logs (put_line b line_size period print ch (put_time b line_size period print usec t₁)))
          same (put_line-Logs ch _ _ d.tracks d.timed pos_size))

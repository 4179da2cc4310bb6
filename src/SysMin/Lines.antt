-- ===== src/SysMin/Lines.antt =====
-- The trace buffer after many characters, and a whole line of it.
use benchmarks_m3_dsp_unopti.Base.{
  ℕ, suc, ◌+◌, ◌<◌, ◌≡◌, ◌≢◌, refl, sym, ap, ◌∙◌, subst, leb, ◌==◌, List, [], ◌∷◌, ◌++◌, true,
  false, ◌||◌, length, arith, if_false, none-some, length-replicate,
}
use benchmarks_m3_dsp_unopti.SysMin.{Trace, newline, limit, stamp, put_all, startup}
use benchmarks_m3_dsp_unopti.SysMin.Ring.{length-append_one, Log, log_all, Logs, putch-Logs, onto}

module _ (b line_size period : ℕ) (print : ℕ → List ℕ) where
  abbrev pub empty_log : Log
  empty_log = record { written = []; line = []; get_time = true }

  all-Logs :
      (cs : List (ℕ × ℕ)) (t : Trace) (l : Log)
      → 0 < b
      → 0 < line_size
      → Logs b line_size period print t l
      → Logs b line_size period print
          (put_all b line_size period print cs t)
          (log_all b line_size period print cs l)
  unfolding put_all log_all
  all-Logs [] t l p q v = v
  all-Logs ((usec, ch) ∷ cs) t l p q v =
      all-Logs cs _ _ p q (putch-Logs b line_size period print usec ch t l p q v)

  -- Characters of a line, without its end.
  abbrev pub Plain : List (ℕ × ℕ) → Type 0
  Plain [] = Unit
  Plain ((usec, ch) ∷ cs) = (ch ≢ newline) × Plain cs

  abbrev pub chars : List (ℕ × ℕ) → List ℕ
  chars [] = []
  chars ((usec, ch) ∷ cs) = ch ∷ chars cs

  append_one : (l : List ℕ) (c : ℕ) (r : List ℕ) → (l ++ c ∷ []) ++ r ≡ l ++ c ∷ r
  append_one [] c r = refl
  append_one (x ∷ l) c r = ap (λ y. x ∷ y) (append_one l c r)

  rest_of_line :
      (cs : List (ℕ × ℕ)) (usec : ℕ) (line w : List ℕ)
      → Plain cs
      → length line + length cs < line_size
      → log_all b line_size period print
          (cs ++ (usec, newline) ∷ [])
          (record { written = w; line = line; get_time = false })
        ≡ record {
          written = onto (line ++ (chars cs ++ newline ∷ [])) w;
          line = [];
          get_time = true;
        }
  unfolding log_all
  rest_of_line [] usec line w p h = refl
  rest_of_line ((t, c) ∷ cs) usec line w (ne, p) h =
      let longer : length (line ++ c ∷ []) ≡ suc (length line) =
        length-append_one b line_size period print line c in
      ap (log_all b line_size period print (cs ++ (usec, newline) ∷ [])) (
        if_false ((c == newline) || leb line_size (length (line ++ c ∷ []))) _ _
          (ground (arith, ne, longer, h)))
      ∙ (rest_of_line cs usec (line ++ c ∷ []) w p (omega (arith, longer, h))
          ∙ ap (λ x. record { written = onto x w; line = []; get_time = true })
              (append_one line c (chars cs ++ newline ∷ [])))

  -- A line of the log is the time of its first character, then its characters: for a line that fits
  -- the line buffer, after the end of another.
  log_all-line :
      (start c usec : ℕ) (cs : List (ℕ × ℕ)) (w : List ℕ)
      → Plain ((start, c) ∷ cs)
      → suc (length cs) < line_size
      → log_all b line_size period print
          (((start, c) ∷ cs) ++ (usec, newline) ∷ [])
          (record { written = w; line = []; get_time = true })
        ≡ record {
          written =
              onto (c ∷ chars cs ++ newline ∷ []) (onto (stamp b line_size period print start) w);
          line = [];
          get_time = true;
        }
  unfolding log_all
  log_all-line start c usec cs w (ne, p) h =
      ap (log_all b line_size period print (cs ++ (usec, newline) ∷ []))
        (if_false ((c == newline) || leb line_size 1) _ _ (ground (arith, ne, h)))
      ∙ rest_of_line cs usec (c ∷ []) _ p (omega (arith, h))

  -- A line that is written to the trace, after the end of another, ends the ring as the time of its first
  -- character and its characters: what was written before is followed by exactly these. This is for a
  -- line that fits the line buffer and a trace buffer that is not empty.
  pub put_all-line :
      (start c usec : ℕ) (cs : List (ℕ × ℕ)) (t : Trace) (w : List ℕ)
      → 0 < b
      → Plain ((start, c) ∷ cs)
      → suc (length cs) < line_size
      → Logs b line_size period print t (record { written = w; line = []; get_time = true })
      → Logs b line_size period print
          (put_all b line_size period print (((start, c) ∷ cs) ++ (usec, newline) ∷ []) t)
          (record {
            written =
                onto (c ∷ chars cs ++ newline ∷ []) (onto (stamp b line_size period print start) w);
            line = [];
            get_time = true;
          })
  put_all-line start c usec cs t w size p h v =
      subst
        (Logs b line_size period print
          (put_all b line_size period print (((start, c) ∷ cs) ++ (usec, newline) ∷ []) t))
        (log_all-line start c usec cs w p h)
        (all-Logs (((start, c) ∷ cs) ++ (usec, newline) ∷ []) t _ size (omega (arith, h)) v)

  -- After SysMin_Module_startup the ring holds the end of the empty log, if its index lies in it.
  pub startup-Logs :
      (t : Trace)
      → 0 < b
      → 0 < line_size
      → length t.outbuf ≡ limit b
      → t.outidx < limit b
      → t.line ≡ []
      → Logs b line_size period print (startup b t) empty_log
  startup-Logs t size pos_size fits inside fresh =
      subst (λ x. Logs b line_size period print x empty_log)
        (sym (if_false (b == 0) _ _ (ground (arith, size))))
        (record {
          tracks = record {
            size = length-replicate (length t.outbuf) 0 ∙ fits;
            inside = inside;
            recent = λ i x h e. absurd (none-some x e);
          };
          same_line = fresh;
          same_time = refl;
          fits = subst (λ l. length l < line_size) (sym fresh) pos_size;
        })

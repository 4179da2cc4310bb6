-- ===== src/RcmClient/Calls/Names.antt =====
-- The name of a function, from the client of RcmClient.c to the server of RcmServer.c.
use benchmarks_m3_dsp_unopti.Base.{
  ℕ, suc, ◌+◌, ◌-◌, ◌*◌, ◌/◌, ◌%◌, ◌^◌, ◌<◌, ◌≡◌, refl, sym, ap, ◌∙◌, ◌==◌, if◌then◌else◌, Option,
  none, some, List, [], ◌∷◌, Bool, true, inr, ℤ, length, All, arith, if_false,
}
use benchmarks_m3_dsp_unopti.RcmServer.{get_sym_idx}
use benchmarks_m3_dsp_unopti.RcmServer.Jobs.{Packet, sent_back}
use benchmarks_m3_dsp_unopti.RcmServer.Process.{
  Instance, done, sym_reply, sym_idx, type_field, chars, c_string, with_status, process,
}
use benchmarks_m3_dsp_unopti.RcmServer.Process.Replies.{set_status_field}
use benchmarks_m3_dsp_unopti.RcmClient.Calls.{
  Status, success, e_symbol_not_found, Freed, frees, gen_msg_id, classify, packet_header,
  data_size_of, new_packet, copy_name, first_word, other_words, named, with_memory, symbol_status,
  with_own,
}
use benchmarks_m3_dsp_unopti.RcmClient.Calls.Send.{get_symbol_index, ask_index}
use benchmarks_m3_dsp_unopti.RcmClient.Calls.Remote.{type_field-classify, first_sent}

-- A character of a string.
abbrev pub IsChar : ℕ → Type 0
IsChar c = (0 < c) × (c < 2 ^ 8)

nonzero : (a : ℕ) (l : List ℕ) → 0 < a → (if a == 0 then [] else a ∷ l) ≡ a ∷ l
nonzero a l h = if_false (a == 0) _ _ (ground (arith, h))

-- What a word of a string is read as, by its bytes.
module _ (w : ℕ) (rest : List ℕ) where
  chars_none : w % 2 ^ 8 ≡ 0 → chars w rest ≡ []
  chars_none e = rw (e) refl

  chars_one : (a : ℕ) → 0 < a → w % 2 ^ 8 ≡ a → (w / 2 ^ 8) % 2 ^ 8 ≡ 0 → chars w rest ≡ a ∷ []
  chars_one a h e f = rw (e, f) (nonzero a [] h)

  chars_two :
      (a b : ℕ)
      → 0 < a
      → 0 < b
      → w % 2 ^ 8 ≡ a
      → (w / 2 ^ 8) % 2 ^ 8 ≡ b
      → (w / 2 ^ 16) % 2 ^ 8 ≡ 0
      → chars w rest ≡ a ∷ b ∷ []
  chars_two a b h k e f g = rw (e, f, g) (nonzero a _ h ∙ ap (λ l. a ∷ l) (nonzero b [] k))

  chars_more :
      (a b c d : ℕ)
      → 0 < a
      → 0 < b
      → 0 < c
      → w % 2 ^ 8 ≡ a
      → (w / 2 ^ 8) % 2 ^ 8 ≡ b
      → (w / 2 ^ 16) % 2 ^ 8 ≡ c
      → (w / 2 ^ 24) % 2 ^ 8 ≡ d
      → chars w rest ≡ a ∷ b ∷ c ∷ (if d == 0 then [] else d ∷ rest)
  chars_more a b c d h k l e f g m =
      rw (e, f, g, m)
        (nonzero a _ h ∙ ap (λ l. a ∷ l) (nonzero b _ k ∙ ap (λ l. b ∷ l) (nonzero c _ l)))

c_string-copy_name :
    (name ws : List ℕ)
    → All IsChar name
    → length name < 4 * length ws
    → c_string (copy_name name ws) ≡ name
unfolding c_string
c_string-copy_name [] [] h l = absurd (omega (arith, l))
c_string-copy_name [] (w ∷ ws) h l = chars_none (w - w % 2 ^ 8) (c_string ws) (omega arith)
c_string-copy_name (a ∷ []) [] h l = absurd (omega (arith, l))
c_string-copy_name (a ∷ []) (w ∷ ws) h l =
    let k = h.0.0 in
    let b = h.0.1 in
    chars_one (w - w % 2 ^ 16 + a) (c_string ws) a k (omega (arith, b)) (omega (arith, b))
c_string-copy_name (a ∷ b ∷ []) [] h l = absurd (omega (arith, l))
c_string-copy_name (a ∷ b ∷ []) (w ∷ ws) h l =
    let p = h.0.1 in
    let q = h.1.0.1 in
    chars_two (w - w % 2 ^ 24 + (a + b * 2 ^ 8)) (c_string ws) a b h.0.0 h.1.0.0
      (omega (arith, p, q)) (omega (arith, p, q)) (omega (arith, p, q))
c_string-copy_name (a ∷ b ∷ c ∷ []) [] h l = absurd (omega (arith, l))
c_string-copy_name (a ∷ b ∷ c ∷ []) (w ∷ ws) h l =
    let p = h.0.1 in
    let q = h.1.0.1 in
    let r = h.1.1.0.1 in
    chars_more (a + b * 2 ^ 8 + c * 2 ^ 16) (c_string ws) a b c 0 h.0.0 h.1.0.0 h.1.1.0.0
      (omega (arith, p, q, r)) (omega (arith, p, q, r)) (omega (arith, p, q, r))
      (omega (arith, p, q, r))
c_string-copy_name (a ∷ b ∷ c ∷ d ∷ cs) [] h l = absurd (omega (arith, l))
c_string-copy_name (a ∷ b ∷ c ∷ d ∷ cs) (w ∷ ws) h l =
    let p = h.0.1 in
    let q = h.1.0.1 in
    let r = h.1.1.0.1 in
    let s = h.1.1.1.0.1 in
    chars_more (a + b * 2 ^ 8 + c * 2 ^ 16 + d * 2 ^ 24) (c_string (copy_name cs ws)) a b c d h.0.0
      h.1.0.0 h.1.1.0.0 (omega (arith, p, q, r, s)) (omega (arith, p, q, r, s))
      (omega (arith, p, q, r, s)) (omega (arith, p, q, r, s))
    ∙ ap (λ x. a ∷ b ∷ c ∷ x)
        (nonzero d _ h.1.1.1.0.0
          ∙ ap (λ x. d ∷ x) (c_string-copy_name cs ws h.1.1.1.1 (omega (arith, l))))

copy_nonempty : (name : List ℕ) (w : ℕ) (ws : List ℕ) → 0 < length (copy_name name (w ∷ ws))
copy_nonempty [] w ws = omega arith
copy_nonempty (a ∷ []) w ws = omega arith
copy_nonempty (a ∷ b ∷ []) w ws = omega arith
copy_nonempty (a ∷ b ∷ c ∷ []) w ws = omega arith
copy_nonempty (a ∷ b ∷ c ∷ d ∷ cs) w ws = omega arith

-- The words of a message that names a function.
words-named :
    (name : List ℕ) (p : Packet)
    → All IsChar name
    → length name < 4 * length (p.word ∷ p.words)
    → c_string ((named name p).word ∷ (named name p).words) ≡ name
words-named name p h l =
    ap c_string (joined (copy_name name (p.word ∷ p.words)) (copy_nonempty name p.word p.words))
    ∙ c_string-copy_name name (p.word ∷ p.words) h l
  where
    joined : (ws : List ℕ) → 0 < length ws → first_word ws ∷ other_words ws ≡ ws
    joined [] h = absurd (omega (arith, h))
    joined (w ∷ ws) h = refl

-- What the client returns, by what the server finds.
abbrev pub as_found : Option ℕ → Packet → (Status × Option ℕ) × Freed
as_found none q = ((e_symbol_not_found, none), frees q)
as_found (some idx) q = ((success, some idx), frees q)

-- The message that RcmClient_getSymbolIndex sends.
abbrev pub query : ℕ → List ℕ → ℕ → List ℕ → Packet
query k name w ws =
    classify sym_idx (named name (new_packet (gen_msg_id k) (suc (length name)) w ws))

module _ (call : ℕ → ℕ → ℕ × List ℕ → ℤ × (ℕ × List ℕ)) (i : Instance) where
  process-sym_idx :
      (packet_at : ℕ → Packet) (has_memory : Bool) (m : Packet)
      → type_field m ≡ sym_idx
      → process call i packet_at has_memory m
        ≡ sym_reply call i m (get_sym_idx i.syms (c_string (m.word ∷ m.words)))
  unfolding process
  process-sym_idx packet_at has_memory m e = rw (e) refl

  answered :
      (m q : Packet) (j : Instance) (o : Option ℕ)
      → sym_reply call i m o ≡ done j (q ∷ [])
      → with_own symbol_status (λ r. r.word) (inr q) ≡ as_found o q
  answered m q j none e =
      let same : q ≡ sent_back (with_status m 2) = sym (ap (λ r. first_sent r q) e) in
      let t : type_field q ≡ 2 = ap type_field same ∙ set_status_field m.desc 2 (omega arith) in
      rw (t) refl
  answered m q j (some idx) e =
      let t : type_field q ≡ 0 =
        sym (ap (λ r. type_field (first_sent r q)) e) ∙ set_status_field m.desc 0 (omega arith) in
      let word : q.word ≡ idx = sym (ap (λ r. (first_sent r q).word) e) in rw (t, word) refl

  -- RcmClient_getSymbolIndex with the server behind it: for a name of characters from 1 to 255, and memory
  -- that holds it, it returns the index under which the server has the function, or the code for a
  -- symbol that is not found when the server has none with this name; and it frees the server's answer.
  pub get_symbol_index-get_sym_idx :
      (packet_at : ℕ → Packet) (has_memory : Bool) (heap : ℕ → Option (ℕ × List ℕ)) (k : ℕ)
      (name : List ℕ) (w : ℕ) (ws : List ℕ) (q : Packet) (j : Instance)
      → heap ((packet_header + data_size_of (suc (length name))) % 2 ^ 32) ≡ some (w, ws)
      → All IsChar name
      → length name < 4 * suc (length ws)
      → process call i packet_at has_memory (query k name w ws) ≡ done j (q ∷ [])
      → get_symbol_index (λ m. true) (λ id. inr q) heap k name
        ≡ as_found (get_sym_idx i.syms name) q
  unfolding get_symbol_index
  get_symbol_index-get_sym_idx packet_at has_memory heap k name w ws q j has h l e =
      let p = new_packet (gen_msg_id k) (suc (length name)) w ws in
      let m = query k name w ws in
      let reads : c_string (m.word ∷ m.words) ≡ name = words-named name p h l in
      let asked = type_field-classify (named name p) 0 sym_idx sym_idx refl refl (omega arith) in
      ap (λ o. ask_index (λ m. true) (λ id. inr q) name (with_memory k (suc (length name)) o).0) has
      ∙ answered m q j (get_sym_idx i.syms name) (
          ap (λ n. sym_reply call i m (get_sym_idx i.syms n)) (sym reads)
          ∙ sym (process-sym_idx packet_at has_memory m asked)
          ∙ e)

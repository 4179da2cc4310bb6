-- ===== src/RcmClient/Calls/Remote.antt =====
-- The calls of RcmClient.c with the server of RcmServer.c behind them.
use benchmarks_m3_dsp_unopti.Base.{
  ℕ, ◌^◌, ◌<◌, ◌≡◌, refl, sym, ap, ◌∙◌, subst, ◌==◌, if◌then◌else◌, List, [], ◌∷◌, Bool, true,
  false, inr, ℤ, is_neg, arith, ==_iff, if_true, if_false,
}
use Prim.Native.Nat.{bit_or}
use benchmarks_m3_dsp_unopti.RcmServer.Jobs.{Packet, sent_back}
use benchmarks_m3_dsp_unopti.RcmServer.Process.{
  Instance, Executed, executed, refused, wild_call, Processed, done, wild, exec_msg, cmd_reply,
  msg_reply, rcm_msg, cmd, type_field, with_status, process,
}
use benchmarks_m3_dsp_unopti.RcmServer.Process.Replies.{set_status_field}
use benchmarks_m3_dsp_unopti.RcmClient.Calls.{
  Status, success, e_invalid_fxn_idx, e_msg_fxn_error, e_server_error, Returned, message, classify,
  exec_status,
}
use benchmarks_m3_dsp_unopti.RcmClient.Calls.Send.{exec}

-- The type of a message that is classified.
pub type_field-classify :
    (p : Packet) (t kind u : ℕ)
    → type_field p ≡ t
    → bit_or t kind ≡ u
    → u < 2 ^ 4
    → type_field (classify kind p) ≡ u
type_field-classify p t kind u e b h =
    let f : bit_or (type_field p) kind ≡ u = ap (λ x. bit_or x kind) e ∙ b in
    set_status_field p.desc (bit_or (type_field p) kind) (omega (arith, f, h)) ∙ f

-- What the client learns of the execution of its message.
pub data Tells (q : Packet) : Executed → Status × Returned → Type 0 where
  ran_well :
      (x : Packet)
      → is_neg x.result ≡ false
      → q.result ≡ x.result
      → q.word ≡ x.word
      → q.words ≡ x.words
      → Tells q (executed x) (success, message q)
  ran_badly :
      (x : Packet)
      → is_neg x.result ≡ true
      → q.result ≡ x.result
      → q.word ≡ x.word
      → q.words ≡ x.words
      → Tells q (executed x) (e_msg_fxn_error, message q)
  no_function : Tells q refused (e_invalid_fxn_idx, message q)

-- The first packet that is sent.
abbrev pub first_sent : Processed → Packet → Packet
first_sent (done j []) p = p
first_sent (done j (q ∷ qs)) p = q
first_sent (wild qs) p = p

of_fxn_error : (q : Packet) → exec_status q ≡ e_msg_fxn_error → type_field q ≡ 4
of_fxn_error q e =
    by_tests (type_field q == 0) (type_field q == 1) (type_field q == 4) ((==_iff _ _).0) e
  where
    by_tests :
        (a b c : Bool)
        → (c ≡ true → type_field q ≡ 4)
        → (if a
            then success
            else if b
            then e_invalid_fxn_idx
            else if c
            then e_msg_fxn_error
            else e_server_error)
          ≡ e_msg_fxn_error
        → type_field q ≡ 4
    by_tests true b c h k = absurd (ground (arith, k))
    by_tests false true c h k = absurd (ground (arith, k))
    by_tests false false true h k = h refl
    by_tests false false false h k = absurd (ground (arith, k))

module _ (call : ℕ → ℕ → ℕ × List ℕ → ℤ × (ℕ × List ℕ)) (i : Instance) where
  process-exec_msg :
      (packet_at : ℕ → Packet) (has_memory : Bool) (m : Packet)
      → type_field m ≡ rcm_msg
      → process call i packet_at has_memory m ≡ msg_reply call i m (exec_msg call i m)
  unfolding process
  process-exec_msg packet_at has_memory m e = if_true (type_field m == rcm_msg) _ _ (rw (e) refl)

  executed-Tells :
      (x q : Packet) (b : Bool)
      → is_neg x.result ≡ b
      → q ≡ sent_back (with_status x (if b then 4 else 0))
      → Tells q (executed x) (exec_status q, message q)
  executed-Tells x q true n e =
      let t : type_field q ≡ 4 = ap type_field e ∙ set_status_field x.desc 4 (omega arith) in
      subst (λ s. Tells q (executed x) (s, message q)) (sym (rw (t) refl))
        (ran_badly x n (ap (λ r. r.result) e) (ap (λ r. r.word) e) (ap (λ r. r.words) e))
  executed-Tells x q false n e =
      let t : type_field q ≡ 0 = ap type_field e ∙ set_status_field x.desc 0 (omega arith) in
      subst (λ s. Tells q (executed x) (s, message q)) (sym (rw (t) refl))
        (ran_well x n (ap (λ r. r.result) e) (ap (λ r. r.word) e) (ap (λ r. r.words) e))

  reply-Tells :
      (m q : Packet) (j : Instance) (x : Executed)
      → msg_reply call i m x ≡ done j (q ∷ [])
      → Tells q x (exec_status q, message q)
  reply-Tells m q j (executed x) e =
      executed-Tells x q (is_neg x.result) refl (sym (ap (λ r. first_sent r q) e))
  reply-Tells m q j refused e =
      let same : q ≡ sent_back (with_status m 1) = sym (ap (λ r. first_sent r q) e) in
      let t : type_field q ≡ 1 = ap type_field same ∙ set_status_field m.desc 1 (omega arith) in
      subst (λ s. Tells q refused (s, message q)) (sym (rw (t) refl)) no_function
  reply-Tells m q j wild_call e = absurd (ground (arith, e))

  -- RcmClient_exec with the server behind it: when the server answers a message whose type field was
  -- empty, the call returns the answer; it succeeds when the function that the message names returns a
  -- number that is not negative, and fails with the code for the function's error, or for an index that
  -- the server refuses, otherwise. The answer has the result and the data that the function left.
  pub exec-Tells :
      (packet_at : ℕ → Packet) (has_memory : Bool) (p q : Packet) (j : Instance)
      → type_field p ≡ 0
      → process call i packet_at has_memory (classify rcm_msg p) ≡ done j (q ∷ [])
      → Tells q (exec_msg call i (classify rcm_msg p)) (exec (λ m. true) (λ id. inr q) p)
  unfolding exec
  exec-Tells packet_at has_memory p q j t e =
      let m = classify rcm_msg p in
      reply-Tells m q j (exec_msg call i m) (
        sym (
          process-exec_msg packet_at has_memory m
            (type_field-classify p 0 rcm_msg rcm_msg t refl (omega arith)))
        ∙ e)

  process-cmd :
      (packet_at : ℕ → Packet) (has_memory : Bool) (m : Packet)
      → type_field m ≡ cmd
      → process call i packet_at has_memory m ≡ cmd_reply call i m (exec_msg call i m)
  unfolding process
  process-cmd packet_at has_memory m e = rw (e) refl

  -- A message that RcmClient_exec has returned with the error of its function, and that is reused for a
  -- call of RcmClient_exec, reaches the server as a command: when the function then returns a number
  -- that is not negative, the server sends no answer, for which the call waits.
  pub exec-reused :
      (packet_at : ℕ → Packet) (has_memory : Bool) (p q x : Packet)
      → (exec (λ m. true) (λ id. inr q) p).0 ≡ e_msg_fxn_error
      → exec_msg call i (classify rcm_msg q) ≡ executed x
      → is_neg x.result ≡ false
      → process call i packet_at has_memory (classify rcm_msg q) ≡ done i []
  unfolding exec
  exec-reused packet_at has_memory p q x failed again n =
      let m = classify rcm_msg q in
      process-cmd packet_at has_memory m
        (type_field-classify q 4 rcm_msg cmd (of_fxn_error q failed) refl (omega arith))
      ∙ ap (cmd_reply call i m) again
      ∙ if_false (is_neg x.result) _ _ n

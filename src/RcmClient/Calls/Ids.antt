-- ===== src/RcmClient/Calls/Ids.antt =====
-- The message ids of a client of RcmClient.c, and the errors of its commands.
use benchmarks_m3_dsp_unopti.Base.{
  ℕ, zero, suc, ◌+◌, ◌-◌, ◌%◌, ◌^◌, ◌<◌, ◌≡◌, ◌≢◌, refl, sym, ap, ◌∙◌, ◌==◌, if◌then◌else◌, some,
  Bool, ◌||◌, true, false, inl, inr, arith, ==_iff, Bool-cases, if_true, if_false,
}
use benchmarks_m3_dsp_unopti.RcmServer.Jobs.{Packet}
use benchmarks_m3_dsp_unopti.RcmServer.Process.{type_field, status_success, status_job_not_found}
use benchmarks_m3_dsp_unopti.RcmClient.Calls.{
  Status, success, Returned, message, gen_msg_id, check_for_error,
}
use benchmarks_m3_dsp_unopti.RcmClient.Calls.Send.{exec}

-- The id of the message that is allocated `n` messages after the one with the id `k`.
abbrev pub later_id : ℕ → ℕ → ℕ
later_id zero k = k
later_id (suc n) k = gen_msg_id (later_id n k)

gen_msg_id-next : (x : ℕ) → gen_msg_id (x % 65535 + 1) ≡ (x + 1) % 65535 + 1
gen_msg_id-next x = elim (Bool-cases (x % 65535 + 1 == 0xFFFF)) [
  | inl e ↦
      if_true (x % 65535 + 1 == 0xFFFF) _ _ e
      ∙ (let q = (==_iff (x % 65535 + 1) 0xFFFF).0 e in omega (arith, q))
  | inr e ↦
      if_false (x % 65535 + 1 == 0xFFFF) _ _ e
      ∙ (let q : x % 65535 + 1 ≢ 0xFFFF = λ p. ground (arith, e, p) in omega (arith, q))
]

later_id-mod : (n k : ℕ) → 0 < k → k < 2 ^ 16 → later_id n k ≡ (k + n - 1) % 65535 + 1
later_id-mod zero k h l = omega (arith, h, l)
later_id-mod (suc n) k h l =
    ap gen_msg_id (later_id-mod n k h l)
    ∙ gen_msg_id-next (k + n - 1)
    ∙ ap (λ x. x % 65535 + 1) (omega (arith, h))

-- RcmClient_genMsgId_P never gives the id 0, which stands for an invalid one, stays within 16 bits, and
-- gives an id again only after 65535 messages.
pub later_id_distinct :
    (m n k : ℕ)
    → 0 < k
    → k < 2 ^ 16
    → m < n
    → n < m + 0xFFFF
    → (0 < later_id n k) × (later_id n k < 2 ^ 16) × (later_id m k ≢ later_id n k)
later_id_distinct m n k h l lt close =
    let p = later_id-mod m k h l in
    let q = later_id-mod n k h l in
    (omega (arith, q), omega (arith, q), λ e. omega (arith, p, q, e, h, l, lt, close))

-- A reply for a job or a pool that is not found.
abbrev pub is_not_found : Packet → Bool
is_not_found q = (type_field q == status_job_not_found) || (type_field q == 8)

-- RcmClient_checkForError makes of a reply with an error what RcmClient_exec would make of it, but for a
-- job or a pool that is not found: then it returns the message with the code for success.
pub check_for_error-exec :
    (p q : Packet)
    → type_field q ≢ status_success
    → check_for_error (inr (some q))
      ≡ (if is_not_found q then (success, message q) else exec (λ m. true) (λ id. inr q) p)
unfolding exec
check_for_error-exec p q n =
    by_tests (type_field q == status_job_not_found) (type_field q == 8) _ _ (
      if_false (type_field q == status_success) _ _
        (let t : (type_field q == status_success) ≡ false = ground (arith, n) in t))
  where
    returns : Status → Status × Returned
    returns s = (s, message q)

    by_tests :
        (a b : Bool) (s t : Status)
        → t ≡ s
        → returns (if a then success else if b then success else s)
          ≡ (if a || b then returns success else returns t)
    by_tests true b s t e = refl
    by_tests false true s t e = refl
    by_tests false false s t e = ap returns (sym e)

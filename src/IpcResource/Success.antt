-- ===== src/IpcResource/Success.antt =====
-- When the host's answer counts as success.
use benchmarks_m3_dsp_unopti.Base.{
  ℕ, ◌+◌, ◌==◌, if◌then◌else◌, ◌≡◌, refl, ap, ◌↔◌, ltb, Option, none, some, List, Bool, true, false,
  not, ◌&&◌, ℤ, pos, negsuc, int32, arith, ==_iff,
}
use mathlib.Core.Option.{some-injective}
use benchmarks_m3_dsp_unopti.IpcResource.{
  s_success, e_fail, e_timeout, nonzero, translate_error, to_name, Name, res_len, req_data_len,
  Channel, Reply, Ending, returns, asserts,
}
use benchmarks_m3_dsp_unopti.IpcResource.Exchange.{
  answer_status, hand_over, Grant, is_processor, alloc_len, request_for, request, request_data,
  take,
}

nonzero-false : (z : ℤ) → nonzero z ≡ false → z ≡ pos 0
nonzero-false (pos n) h = ap pos (ground arith)
nonzero-false (negsuc n) h = absurd (ground arith)

nonzero-true : (z : ℤ) → z ≡ pos 0 → nonzero z ≡ false
nonzero-true z h = rw (h) refl

int32-zero : (w : ℕ) → int32 w ≡ pos 0 → w ≡ 0
int32-zero w h = ground arith

translate_error-zero : (z : ℤ) → translate_error z ≡ s_success → z ≡ pos 0
unfolding translate_error
translate_error-zero (pos n) h = ground arith
translate_error-zero (negsuc n) h = ground arith

-- The four things that success requires.
pub record Succeeds (c : Channel) (sent : ℤ) (r : Reply) (checks_source : Bool) : Type 0 where
  pub was_sent : sent ≡ pos 0
  pub was_received : r.status ≡ pos 0
  pub from_host : checks_source ≡ true → r.source ≡ c.remote
  pub acknowledged : r.ack_status ≡ 0

-- The tests that precede the host's own status all have to fail.
no_failure :
    (a b d k : Bool) (z : ℤ)
    → (if a
        then e_fail
        else if b
        then (if d then e_timeout else e_fail)
        else if k
        then e_fail
        else z)
      ≡ s_success
    → (a ≡ false) × (b ≡ false) × (k ≡ false) × (z ≡ s_success)
no_failure true b d k z h = absurd (ground arith)
no_failure false true true k z h = absurd (ground arith)
no_failure false true false k z h = absurd (ground arith)
no_failure false false d true z h = absurd (ground arith)
no_failure false false d false z h = (refl, refl, refl, h)

same_source : (k b : Bool) → (k && not b) ≡ false → k ≡ true → b ≡ true
same_source true true h e = refl
same_source true false h e = absurd (ground arith)
same_source false b h e = absurd (ground arith)

answer_status-Succeeds :
    (c : Channel) (sent : ℤ) (r : Reply) (k : Bool)
    → answer_status c sent r k ≡ s_success
    → Succeeds c sent r k
unfolding answer_status
answer_status-Succeeds c sent r k h =
    let (a, b, k', z) = no_failure _ _ _ _ _ h in
    record {
      was_sent = nonzero-false _ a;
      was_received = nonzero-false _ b;
      from_host = λ e. (==_iff _ _).0 (same_source _ _ k' e);
      acknowledged = int32-zero _ (translate_error-zero _ z);
    }

Succeeds-answer_status :
    (c : Channel) (sent : ℤ) (r : Reply) (k : Bool)
    → Succeeds c sent r k
    → answer_status c sent r k ≡ s_success
unfolding answer_status translate_error
Succeeds-answer_status c sent r false s = rw (s.was_sent, s.was_received, s.acknowledged) refl
Succeeds-answer_status c sent r true s =
    rw (s.was_sent, s.was_received, (==_iff _ _).1 (s.from_host refl), s.acknowledged) refl

-- What a call has handed over.
abbrev pub handed {ℓ} : {A : Type ℓ} → Ending (ℤ × Option A) → Option A
handed (returns (s, a)) = a
handed asserts = none

hand_over-inv {ℓ} :
    {A : Type ℓ} (s : ℤ) (fits : Bool) (a g : A)
    → handed (hand_over s fits a) ≡ some g
    → (nonzero s ≡ false) × (fits ≡ true) × (a ≡ g)
hand_over-inv s fits a g = by_tests (nonzero s) fits
  where
    by_tests :
        (n f : Bool)
        → handed
            (if n then returns (s, none) else if f then returns (s_success, some a) else asserts)
          ≡ some g
        → (n ≡ false) × (f ≡ true) × (a ≡ g)
    by_tests true f h = absurd (ground (arith, h))
    by_tests false true h = (refl, refl, some-injective _ _ h)
    by_tests false false h = absurd (ground (arith, h))

hand_over-Succeeds {ℓ} :
    {A : Type ℓ} (c : Channel) (sent : ℤ) (r : Reply) (k : Bool) (n : ℕ) (a g : A)
    → (handed (hand_over (answer_status c sent r k) (r.len == n) a) ≡ some g)
      ↔ (Succeeds c sent r k × (r.len ≡ n) × (a ≡ g))
hand_over-Succeeds c sent r k n a g = (hands, handed_over)
  where
    hands :
        handed (hand_over (answer_status c sent r k) (r.len == n) a) ≡ some g
        → Succeeds c sent r k × (r.len ≡ n) × (a ≡ g)
    hands h =
        let (s, f, q) = hand_over-inv (answer_status c sent r k) (r.len == n) a g h in
        (answer_status-Succeeds c sent r k (nonzero-false _ s), (==_iff _ _).0 f, q)

    handed_over :
        Succeeds c sent r k × (r.len ≡ n) × (a ≡ g)
        → handed (hand_over (answer_status c sent r k) (r.len == n) a) ≡ some g
    handed_over (s, f, q) = rw (Succeeds-answer_status c sent r k s, (==_iff _ _).1 f) (ap some q)

-- IpcResource_request hands a resource over exactly if the request was sent, an answer was received
-- that comes from the channel's remote endpoint, its status is 0, and its length is that of an
-- acknowledgement of this type of resource; what it hands over is the handle and the parameters of
-- that answer. This is for a channel, a known type of resource and parameters that are not NULL.
pub request-Succeeds :
    (c : Channel) (t : ℕ) (n : Name) (ps : List ℕ) (sent : ℤ) (r : Reply) (g : Grant)
    → to_name t ≡ some n
    → (handed (request (some c) true t (some ps) sent r).0 ≡ some g) ↔ (
        Succeeds c sent r true
        × (r.len ≡ alloc_len t + 8 + 8)
        × ((r.res_handle, (if is_processor t then ps else take (res_len t) r.data_bytes)) ≡ g))
unfolding request request_for
request-Succeeds c t n ps sent r g e =
    rw (e) (hand_over-Succeeds c sent r true (alloc_len t + 8 + 8) _ g)

and_false : (b : Bool) → (b && not true) ≡ false
and_false true = refl
and_false false = refl

-- IpcResource_requestData hands data over exactly if the request was sent, an answer was received,
-- from whichever endpoint it comes, its status is 0 and its length is that of an acknowledgement of
-- this type of data; what it hands over are the first bytes of that answer. This is for a channel
-- and a pointer to the data that is not NULL.
pub request_data-Succeeds :
    (c : Channel) (h t : ℕ) (sent : ℤ) (r : Reply) (g : List ℕ)
    → (handed (request_data (some c) h t true sent r).0 ≡ some g) ↔ (
        Succeeds c sent r false
        × (r.len ≡ req_data_len t + 8)
        × (take (req_data_len t) r.data_bytes ≡ g))
unfolding request_data
request_data-Succeeds c h t sent r g =
    rw (and_false (ltb 0 (req_data_len t)))
      (hand_over-Succeeds c sent r false (req_data_len t + 8) _ g)

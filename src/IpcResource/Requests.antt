-- ===== src/IpcResource/Requests.antt =====
-- The semaphore of a channel during its calls, and when the calls succeed.
use benchmarks_m3_dsp_unopti.Base.{
  ℕ, zero, suc, ◌==◌, ==_refl, ◌≡◌, refl, ap, ◌∙◌, inl, inr, ltb, Option, none, some, List, [], ◌∷◌,
  Bool, true, false, not, ◌&&◌, ℤ, Bool-cases,
}
use benchmarks_m3_dsp_unopti.IpcResource.{
  nonzero, to_name, Name, res_len, req_data_len, Channel, Reply, Action, Request, pends, posts,
  sends, receives, constrain,
}
use benchmarks_m3_dsp_unopti.IpcResource.Exchange.{
  exchange, request_for, request, request_named, request_data, set_constraints, rel_constraints,
  take,
}

-- One call on a channel, with its arguments.
pub data Call : Type 0 where
  asks_resource : Bool → ℕ → Option (List ℕ) → Call
  asks_data : ℕ → ℕ → Bool → Call
  constrains : ℕ → ℕ → Option (List ℕ) → Call

abbrev pub actions : Option Channel → Call → ℤ → Reply → List Action
actions c (asks_resource o t ps) sent r = (request c o t ps sent r).1
actions c (asks_data h t d) sent r = (request_data c h t d sent r).1
actions c (constrains h t cs) sent r = (set_constraints c h t cs sent r).1

-- The semaphore of a channel.
abbrev pub sem_of : Option Channel → ℕ
sem_of none = 0
sem_of (some c) = c.sem

-- How often a semaphore is held after an action, when it was held `n` times; none if the action posts it
-- without holding it, or sends or receives without holding it. Another semaphore does not count.
abbrev pub taken : Bool → ℕ → Option ℕ
taken true n = some (suc n)
taken false n = some n

abbrev pub given_back : Bool → ℕ → Option ℕ
given_back true zero = none
given_back true (suc n) = some n
given_back false n = some n

abbrev pub after_action : ℕ → ℕ → Action → Option ℕ
after_action m n (pends s) = taken (s == m) n
after_action m n (posts s) = given_back (s == m) n
after_action m zero (sends d e q k) = none
after_action m (suc n) (sends d e q k) = some (suc n)
after_action m zero (receives q t) = none
after_action m (suc n) (receives q t) = some (suc n)
after_action m n _ = some n

-- How often it is held after some actions, if none of them goes without it.
abbrev pub held : ℕ → ℕ → List Action → Option ℕ
held m n [] = some n
held m n (x ∷ l) = elim (after_action m n x) [ none ↦ none | some k ↦ held m k l ]

held-pends : (m : ℕ) (l : List Action) → held m 0 (pends m ∷ l) ≡ held m 1 l
held-pends m l =
    ap (λ b. elim (taken b 0) as (λ _. Option ℕ) [ none ↦ none | some k ↦ held m k l ]) (==_refl m)

held-posts : (m : ℕ) → held m 1 (posts m ∷ []) ≡ some 0
held-posts m =
    ap (λ b. elim (given_back b 1) as (λ _. Option ℕ) [ none ↦ none | some k ↦ some k ]) (==_refl m)

held-exchange :
    (c : Channel) (sent : ℤ) (q : Request) (n : ℕ) → held c.sem 0 (exchange c sent q n) ≡ some 0
unfolding exchange
held-exchange c sent q n = elim (Bool-cases (nonzero sent)) [
  | inl e ↦
      rw (e)
        (held-pends c.sem (sends c.remote c.endpoint q n ∷ posts c.sem ∷ []) ∙ held-posts c.sem)
  | inr e ↦ rw (e) (
      held-pends c.sem
        (sends c.remote c.endpoint q n ∷ receives c.msgq c.timeout ∷ posts c.sem ∷ [])
      ∙ held-posts c.sem)
]

held-request_named :
    (c : Channel) (t : ℕ) (n : Option Name) (ps : Option (List ℕ)) (sent : ℤ) (r : Reply)
    → held c.sem 0 (request_named c t n ps sent r).1 ≡ some 0
unfolding request_for
held-request_named c t none ps sent r = refl
held-request_named c t (some n) (some xs) sent r = held-exchange c sent _ _
held-request_named c t (some n) none sent r = elim (Bool-cases (ltb 0 (res_len t))) [
  | inl e ↦ rw (e) refl
  | inr e ↦ rw (e) (held-exchange c sent _ _)
]

-- Every call of IpcResource_request, IpcResource_requestData and IpcResource_setConstraints, on
-- every path, sends and receives only while it holds the channel's semaphore, and has given it back
-- when it ends.
pub held-actions :
    (c : Option Channel) (x : Call) (sent : ℤ) (r : Reply)
    → held (sem_of c) 0 (actions c x sent r) ≡ some 0
unfolding request request_data set_constraints
held-actions none (asks_resource o t ps) sent r = refl
held-actions none (asks_data h t d) sent r = refl
held-actions none (constrains h t cs) sent r = refl
held-actions (some c) (asks_resource true t ps) sent r =
    held-request_named c t (to_name t) ps sent r
held-actions (some c) (asks_resource false t ps) sent r = refl
held-actions (some c) (asks_data h t d) sent r =
    elim (Bool-cases (ltb 0 (req_data_len t) && not d)) [
      | inl e ↦ rw (e, actions, request_data) refl
      | inr e ↦ rw (e, actions, request_data) (held-exchange c sent _ _)
    ]
held-actions (some c) (constrains h t none) sent r = refl
held-actions (some c) (constrains h t (some cs)) sent r = elim (Bool-cases (t == rel_constraints)) [
  | inl e ↦
      rw (e, actions, set_constraints)
        (held-pends c.sem
            (sends c.remote c.endpoint (constrain t h (take 20 cs)) 24 ∷ posts c.sem ∷ [])
          ∙ held-posts c.sem)
  | inr e ↦ rw (e, actions, set_constraints) (held-exchange c sent _ _)
]

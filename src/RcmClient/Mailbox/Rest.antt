-- ===== src/RcmClient/Mailbox/Rest.antt =====
-- What the steps of the threads of RcmClient.c lead to without new replies and calls.
use benchmarks_m3_dsp_unopti.Base.{
  ℕ, zero, suc, ◌≤◌, ◌<◌, ◌≡◌, refl, ap, ◌∙◌, ◌⊎◌, inl, inr, Option, none, some, List, [], ◌∷◌, All,
  arith, length, Option-cases, Bool-cases, ◌==◌, ==_iff, ltb, ltb→lt,
}
use benchmarks_m3_dsp_unopti.RcmClient.Mailbox.{
  Moves, by_thread, by_recipient, System, kept, take_at, turn_of, run, wake_of, wake, Reached,
  after, runs, wakes,
}
use benchmarks_m3_dsp_unopti.RcmClient.Mailbox.Energy.{energy, energy-Moves}
use benchmarks_m3_dsp_unopti.RcmClient.Mailbox.Stall.{Stuck, NotHere, Settled, Stuck-Settled}

-- What the threads' own steps lead to.
pub data Leads : System → System → Type 0 where
  stays : (s : System) → Leads s s
  goes : (s t u : System) → Moves s t → Leads t u → Leads s u

take_at-none {ℓ} : {A : Type ℓ} (xs : List A) (i : ℕ) → length xs ≤ i → take_at xs i ≡ none
take_at-none [] i h = refl
take_at-none (x ∷ xs) zero h = absurd (omega (arith, h))
take_at-none (x ∷ xs) (suc i) h = ap (kept x) (take_at-none xs i (omega (arith, h)))

-- Either a place below a bound holds something, or all are empty.
search_below {ℓ} :
    {A : Type ℓ} (f : ℕ → Option A) (n : ℕ)
    → ((i : ℕ) × ((a : A) × (f i ≡ some a))) ⊎ ((i : ℕ) → i < n → f i ≡ none)
search_below {A = A} f zero = inr (λ i h. absurd (omega (arith, h)))
search_below {A = A} f (suc n) = with_last (search_below f n) (Option-cases (f n))
  where
    with_last :
        ((i : ℕ) × ((a : A) × (f i ≡ some a))) ⊎ ((i : ℕ) → i < n → f i ≡ none)
        → (f n ≡ none) ⊎ ((a : A) × (f n ≡ some a))
        → ((i : ℕ) × ((a : A) × (f i ≡ some a))) ⊎ ((i : ℕ) → i < suc n → f i ≡ none)
    with_last (inl x) o = inl x
    with_last (inr h) (inr (a, e)) = inl (n, (a, e))
    with_last (inr h) (inl e) = inr λ i l. elim (Bool-cases (i == n)) [
      | inl q ↦ ap f ((==_iff _ _).0 q) ∙ e
      | inr q ↦ h i (ground (arith, q, l))
    ]

run_beyond : (s : System) (i : ℕ) → length s.threads ≤ i → run s i ≡ none
unfolding run
run_beyond s i h = ap (turn_of s.box) (take_at-none s.threads i h)

wake_beyond : (s : System) (j : ℕ) → length s.box.recipients ≤ j → wake s j ≡ none
unfolding wake
wake_beyond s j h = ap (wake_of s) (take_at-none s.box.recipients j h)

beyond {ℓ} :
    {A : Type ℓ} (f : ℕ → Option A) (n : ℕ)
    → ((i : ℕ) → i < n → f i ≡ none)
    → ((i : ℕ) → n ≤ i → f i ≡ none)
    → (i : ℕ) → f i ≡ none
beyond f n h k i = elim (Bool-cases (ltb i n)) [
  | inl q ↦ h i (ltb→lt i n q)
  | inr q ↦ k i (ground (arith, q))
]

-- A thread can make a step, or all are stuck.
decide : (s : System) → ((t : System) × Moves s t) ⊎ Stuck s
decide s =
    by_searches (search_below (run s) (length s.threads))
      (search_below (wake s) (length s.box.recipients))
  where
    by_searches :
        ((i : ℕ) × ((t : System) × (run s i ≡ some t)))
          ⊎ ((i : ℕ) → i < length s.threads → run s i ≡ none)
        → ((j : ℕ) × ((t : System) × (wake s j ≡ some t)))
          ⊎ ((j : ℕ) → j < length s.box.recipients → wake s j ≡ none)
        → ((t : System) × Moves s t) ⊎ Stuck s
    by_searches (inl (i, (t, e))) o = inl (t, by_thread i t e)
    by_searches (inr h) (inl (j, (t, e))) = inl (t, by_recipient j t e)
    by_searches (inr h) (inr k) = inr (record {
      no_run = beyond (run s) (length s.threads) h (run_beyond s);
      no_wake = beyond (wake s) (length s.box.recipients) k (wake_beyond s);
    })

-- A state in which the threads have come to rest.
pub record Rests (s t : System) : Type 0 where
  pub leads : Leads s t
  pub threads_settled : All (Settled t.box) t.threads
  pub recipients_settled : All (λ r. NotHere t.box r.msg_id) t.box.recipients

Reached-Moves : (s t : System) → Reached s → Moves s t → Reached t
Reached-Moves s t r (by_thread i _ e) = after s t r (runs i t e)
Reached-Moves s t r (by_recipient j _ e) = after s t r (wakes j t e)

with_energy : (n : ℕ) (s : System) → Reached s → energy s < n → (t : System) × Rests s t
with_energy zero s r h = absurd (omega (arith, h))
with_energy (suc n) s r h = elim (decide s) [
  | inr k ↦
      let all = Stuck-Settled s r k in
      (s, record { leads = stays s; threads_settled = all.0; recipients_settled = all.1 })
  | inl (t, m) ↦
      let rest = with_energy n t (Reached-Moves s t r m) (omega (arith, h, energy-Moves s t m)) in
      (
        rest.0,
        record {
          leads = goes s t rest.0 m rest.1.leads;
          threads_settled = rest.1.threads_settled;
          recipients_settled = rest.1.recipients_settled;
        },
      )
]

-- From every state that is reached, steps of the threads alone lead to a state in which each thread has
-- returned, with its own message or an error, or its message is neither in the queue nor among the
-- new mail.
pub rest-Rests : (s : System) → Reached s → (t : System) × Rests s t
rest-Rests s r = with_energy (suc (energy s)) s r (omega arith)

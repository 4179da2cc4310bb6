-- ===== src/Barrier/Safety.antt =====
-- Every step keeps the invariant, so no thread leaves a round before all have entered it, and a
-- completed round lets every thread go.
use benchmarks_m3_dsp_unopti.Base.{
  ℕ, zero, suc, ◌≤◌, ◌<◌, ◌≡◌, refl, ap, sym, ◌∙◌, inl, inr, ◌≢◌, none, some, List, [], ◌∷◌, length,
  get_elem?, set, replicate, All, arith, length-set, All-set, All-get_elem?, All-mono,
  All-replicate, length-replicate,
}
use native.Mathlib.Decide.{dec_lt, ℕ_discrete}
use benchmarks_m3_dsp_unopti.Barrier.{
  Thread, System, Step, enters, leaves, Reach, here, next, enter, leave, start,
}
use benchmarks_m3_dsp_unopti.Barrier.Invariant.{
  Inv, IsPlaced, IsReady, IsIn, IsLate, goal, count_entered, arrive-cell_at, arrive_last,
  count_entered-set, All-in-IsLate, none_ahead,
}

-- Some number of rounds is over, at least `r`, and the next is open.
abbrev pub Valid : ℕ → ℕ → System → Type 0
Valid n r s = (r' : ℕ) × (k : ℕ) × (r ≤ r') × Inv n r' k s

-- The thread that enters.
abbrev entered : ℕ → ℕ → Thread → Thread
entered n r t = record t { entered = suc t.entered; spins = some (goal n r) }

entered-IsIn : (n r : ℕ) (t : Thread) → IsPlaced n r t → t.spins ≡ none → IsIn n r (entered n r t)
entered-IsIn n r t p e = ground arith

module _ {n r k : ℕ} {s : System} (v : Inv n r k s) (i : ℕ) (t : Thread)
    (e : get_elem? s.threads i ≡ some t) where
  pub at_i : IsPlaced n r t
  at_i = All-get_elem? (IsPlaced n r) s.threads i t v.placed e

  module _ (q : t.spins ≡ none) where
    entered-IsPlaced : All (IsPlaced n r) (set s.threads i (entered n r t))
    entered-IsPlaced =
        All-set (IsPlaced n r) s.threads i _ v.placed (inr (inl (entered-IsIn n r t at_i q)))

    entered-counted : count_entered (suc r) (set s.threads i (entered n r t)) ≡ suc k
    entered-counted = ground (
      arith,
      count_entered-set (suc r) s.threads i t (entered n r t) e,
      v.counted,
      entered-IsIn n r t at_i q,
      at_i,
    )

    entered-size : length (set s.threads i (entered n r t)) ≡ n
    entered-size = length-set s.threads i _ ∙ v.size

    -- A thread enters, and others are still to come.
    pub enter_amid : suc k < n → Inv n r (suc k) (enter s i t)
    unfolding enter
    enter_amid h =
        rw (v.shared, arrive-cell_at n r k h)
          (record {
            size = entered-size;
            open_round = h;
            shared = refl;
            placed = entered-IsPlaced;
            counted = entered-counted;
          })

    -- The last thread enters: all are in the round, which is now over.
    pub enter_last : suc k ≡ n → Inv n (suc r) 0 (enter s i t)
    unfolding enter
    enter_last h =
        rw (v.shared, arrive_last n r k h)
          (record {
            size = entered-size;
            open_round = omega arith;
            shared = refl;
            placed =
                All-mono (IsLate n (suc r)) (IsPlaced n (suc r)) (λ u l. inr (inr l)) _
                  (All-in-IsLate n r _ entered-IsPlaced
                    (omega (arith, entered-size, entered-counted)));
            counted = none_ahead n r _ entered-IsPlaced;
          })

  -- The counter never has the value that the threads of the open round wait for.
  pub leaves-IsLate : t.spins ≡ some s.shared.counter → IsLate n r t
  leaves-IsLate q = ground (arith, at_i, v.shared, v.open_round)

  module _ (q : t.spins ≡ some s.shared.counter) where
    gone : Thread
    gone = record t { left = suc t.left; spins = none }

    gone-IsReady : IsReady r gone
    unfolding gone
    gone-IsReady = ground (arith, leaves-IsLate q)

    gone-counted : count_entered (suc r) (set s.threads i gone) ≡ k
    unfolding gone
    gone-counted = ground (arith, count_entered-set (suc r) s.threads i t gone e, v.counted)

    -- A thread returns from the round before.
    pub leave_late : Inv n r k (leave s i t)
    unfolding leave gone
    leave_late = record {
      size = length-set s.threads i _ ∙ v.size;
      open_round = v.open_round;
      shared = v.shared;
      placed = All-set (IsPlaced n r) s.threads i _ v.placed (inl gone-IsReady);
      counted = gone-counted;
    }

pub Step-Valid : {n r : ℕ} {s u : System} → Valid n r s → Step s u → Valid n r u
Step-Valid {n} (r', k, h, v) (enters i t e q) = elim (dec_lt (suc k) n) [
  | yes p ↦ (r', suc k, h, enter_amid v i t e q p)
  | no p ↦ (suc r', 0, omega arith, enter_last v i t e q (omega (arith, v.open_round)))
]
Step-Valid (r', k, h, v) (leaves i t e q) = (r', k, h, leave_late v i t e q)

count_entered-replicate :
    (n m : ℕ) (t : Thread) → t.entered < m → count_entered m (replicate n t) ≡ 0
count_entered-replicate zero m t h = refl
count_entered-replicate (suc n) m t h = ground (arith, count_entered-replicate n m t h)

pub start-Inv : (n r : ℕ) → 0 < n → Inv n r 0 (start n r)
start-Inv n r h = record {
  size = length-replicate n _;
  open_round = h;
  shared = ground arith;
  placed = All-replicate (IsPlaced n r) n _ (inl (refl, refl, refl));
  counted = count_entered-replicate n (suc r) _ (omega arith);
}

pub Reach-Valid : {n r : ℕ} {s u : System} → Valid n r s → Reach s u → Valid n r u
Reach-Valid v here = v
Reach-Valid v (next p st) = Step-Valid (Reach-Valid v p) st

-- Whatever the scheduler does, no thread has left the barrier more often than any other has entered
-- it: nobody gets through a round before all `n` threads have entered that round.
pub left-le-entered :
    (n r : ℕ) {u : System} (i j : ℕ) (a b : Thread)
    → 0 < n
    → Reach (start n r) u
    → get_elem? u.threads i ≡ some a
    → get_elem? u.threads j ≡ some b
    → a.left ≤ b.entered
left-le-entered n r {u} i j a b h p ea eb =
    let (r', k, le, v) = Reach-Valid {n = n} {r = r} (r, 0, omega arith, start-Inv n r h) p in
    ground (arith, at_i v i a ea, at_i v j b eb)

count_entered-All :
    (m : ℕ) (ts : List Thread) → All (λ t. t.entered ≡ m) ts → count_entered m ts ≡ length ts
count_entered-All m [] a = refl
count_entered-All m (t ∷ ts) a = ground (arith, count_entered-All m ts a.1)

count_entered_none :
    (m o : ℕ) (ts : List Thread) → o ≢ m → All (λ t. t.entered ≡ m) ts → count_entered o ts ≡ 0
count_entered_none m o [] h a = refl
count_entered_none m o (t ∷ ts) h a = ground (arith, count_entered_none m o ts h a.1)

released :
    {n r k : ℕ} {s : System} (m i : ℕ) (t : Thread)
    → Inv n r k s
    → All (λ u. u.entered ≡ m) s.threads
    → get_elem? s.threads i ≡ some t
    → t.spins ≢ none
    → t.spins ≡ some s.shared.counter
released {r = r} {s = s} m i t v same e q = elim (ℕ_discrete m (suc r)) [
  | yes p ↦
      absurd (
        omega (arith, count_entered-All m s.threads same, ap (λ o. count_entered o s.threads) p, v))
  | no p ↦ ground (
    arith,
    at_i v i t e,
    All-get_elem? (λ u. u.entered ≡ m) s.threads i t same e,
    count_entered_none m (suc r) s.threads (λ o. p (sym o)) same,
    v.shared,
    v.counted,
  )
]

-- In every reachable state in which all threads have entered the barrier equally often, every thread
-- that still spins reads the value that it spins for, and the step by which it returns is enabled.
pub even_round_releases :
    (n r m : ℕ) {s : System} (i : ℕ) (t : Thread)
    → 0 < n
    → Reach (start n r) s
    → All (λ u. u.entered ≡ m) s.threads
    → get_elem? s.threads i ≡ some t
    → t.spins ≢ none
    → (t.spins ≡ some s.shared.counter) × Step s (leave s i t)
even_round_releases n r m {s} i t h p same e q =
    let (r', k, le, v) = Reach-Valid {n = n} {r = r} (r, 0, omega arith, start-Inv n r h) p in
    let w = released m i t v same e q in (w, leaves i t e w)

-- ===== src/Barrier/Invariant.antt =====
-- What holds of a barrier and its threads in every reachable state.
use benchmarks_m3_dsp_unopti.Base.{
  ℕ, zero, suc, ◌+◌, ◌-◌, ◌%◌, ◌<◌, ◌≤◌, ◌≡◌, refl, ◌⊎◌, ℤ, neg, pos, ◌==◌, if◌then◌else◌, none,
  some, List, [], ◌∷◌, length, get_elem?, set, All, arith,
}
use benchmarks_m3_dsp_unopti.Barrier.{Cell, Thread, System, arrive}

-- The counter when `k` threads have entered round `r`.
abbrev pub counter_at : ℕ → ℕ → ℕ → ℤ
counter_at n r k = if r % 2 == 0 then pos k else pos (n - k)

-- The value that a thread of round `r` spins for.
abbrev pub goal : ℕ → ℕ → ℤ
goal n r = if r % 2 == 0 then pos n else pos 0

abbrev pub cell_at : ℕ → ℕ → ℕ → Cell
cell_at n r k = record {
  counter = counter_at n r k;
  sense = if r % 2 == 0 then neg (pos n) else pos n;
}

-- While `r` rounds are over a thread is outside the barrier, or it is in round `r`, or it has not
-- yet noticed that the round before is over.
abbrev pub IsReady : ℕ → Thread → Type 0
IsReady r t = (t.entered ≡ r) × (t.left ≡ r) × (t.spins ≡ none)

abbrev pub IsIn : ℕ → ℕ → Thread → Type 0
IsIn n r t = (t.entered ≡ suc r) × (t.left ≡ r) × (t.spins ≡ some (goal n r))

abbrev pub IsLate : ℕ → ℕ → Thread → Type 0
IsLate n r t = (t.entered ≡ r) × (suc t.left ≡ r) × (t.spins ≡ some (goal n t.left))

abbrev pub IsPlaced : ℕ → ℕ → Thread → Type 0
IsPlaced n r t = IsReady r t ⊎ (IsIn n r t ⊎ IsLate n r t)

-- How many threads have entered `m` times.
abbrev pub count_entered : ℕ → List Thread → ℕ
count_entered m [] = 0
count_entered m (t ∷ ts) = (if t.entered == m then 1 else 0) + count_entered m ts

-- `r` rounds are over and `k` of the `n` threads are in the next.
pub record Inv (n r k : ℕ) (s : System) : Type 0 where
  pub size : length s.threads ≡ n
  pub open_round : k < n
  pub shared : s.shared ≡ cell_at n r k
  pub placed : All (IsPlaced n r) s.threads
  pub counted : count_entered (suc r) s.threads ≡ k

-- One arrival that does not complete the round, and one that does.
pub arrive-cell_at :
    (n r k : ℕ) → suc k < n → arrive (cell_at n r k) ≡ (cell_at n r (suc k), goal n r)
unfolding arrive
arrive-cell_at n r k h = ground arith

pub arrive_last : (n r k : ℕ) → suc k ≡ n → arrive (cell_at n r k) ≡ (cell_at n (suc r) 0, goal n r)
unfolding arrive
arrive_last n r k h = ground arith

pub count_entered-set :
    (m : ℕ) (ts : List Thread) (i : ℕ) (t u : Thread)
    → get_elem? ts i ≡ some t
    → (if t.entered == m then 1 else 0) + count_entered m (set ts i u)
      ≡ (if u.entered == m then 1 else 0) + count_entered m ts
count_entered-set m [] i t u e = absurd (ground arith)
count_entered-set m (x ∷ ts) zero t u e = ground arith
count_entered-set m (x ∷ ts) (suc i) t u e = omega (arith, count_entered-set m ts i t u e)

-- With every thread in the round none is elsewhere.
pub All-in :
    (n r : ℕ) (ts : List Thread) → All (IsPlaced n r) ts → count_entered (suc r) ts ≤ length ts
All-in n r [] a = omega arith
All-in n r (t ∷ ts) a = ground (arith, All-in n r ts a.1)

pub All-in-IsLate :
    (n r : ℕ) (ts : List Thread)
    → All (IsPlaced n r) ts
    → length ts ≤ count_entered (suc r) ts
    → All (IsLate n (suc r)) ts
All-in-IsLate n r [] a h = tt
All-in-IsLate n r (t ∷ ts) a h = (
  ground (arith, All-in n r ts a.1),
  All-in-IsLate n r ts a.1 (ground (arith, All-in n r ts a.1)),
)

-- No thread has entered a round that is not open.
pub none_ahead :
    (n r : ℕ) (ts : List Thread) → All (IsPlaced n r) ts → count_entered (suc (suc r)) ts ≡ 0
none_ahead n r [] a = refl
none_ahead n r (t ∷ ts) a = ground (arith, none_ahead n r ts a.1)

-- ===== src/RcmServer/Jobs/Ids.antt =====
-- The ids of job streams: which one `RcmServer_acqJobId_P` finds, and that no two streams share one.
use benchmarks_m3_dsp_unopti.Base.{
  ℕ, zero, suc, ◌+◌, ◌-◌, ◌≤◌, ◌≡◌, refl, subst, ◌⊎◌, inl, inr, ◌==◌, if◌then◌else◌, Option, none,
  some, List, [], ◌∷◌, ◌++◌, Bool, true, false, ltb, leb, arith, Bool-cases,
}
use benchmarks_m3_dsp_unopti.RcmServer.Jobs.{
  Job, Streams, Error, e_fail, e_no_memory, is_used, next_id, search_id, new_job, admit, acq_job_id,
}

-- The id after `m` steps of the tracker.
abbrev after : ℕ → ℕ → ℕ
after zero k = k
after (suc m) k = after m (next_id k)

after-eq :
    (m k : ℕ)
    → 1 ≤ k
    → k ≤ 0xFFFF
    → m ≤ 0xFFFF
    → after m k ≡ (if leb (k + m) 0xFFFF then k + m else k + m - 0xFFFF)
after-eq zero k lo hi h = ground arith
after-eq (suc m) k lo hi h =
    ground (arith, after-eq m (next_id k) (ground arith) (ground arith) (omega arith))

-- Every id from 1 to 0xFFFF is met within 0xFFFF steps.
meets :
    (k i : ℕ)
    → 1 ≤ k
    → k ≤ 0xFFFF
    → 1 ≤ i
    → i ≤ 0xFFFF
    → (m : ℕ) × (1 ≤ m) × (m ≤ 0xFFFF) × (after m k ≡ i)
meets k i lo hi l h = elim (Bool-cases (ltb k i)) [
  | inl e ↦ (i - k, ground arith, ground arith, ground (arith, after-eq (i - k) k))
  | inr e ↦
      (i + 0xFFFF - k, ground arith, ground arith, ground (arith, after-eq (i + 0xFFFF - k) k))
]

-- What the search returns.
pub data Searches (n last : ℕ) (js : List Job) : Option ℕ × ℕ → Type 0 where
  finds : (k : ℕ) → 1 ≤ k → k ≤ 0xFFFF → is_used js k ≡ false → Searches n last js (some k, k)
  all_used :
      (l : ℕ)
      → 1 ≤ l
      → l ≤ 0xFFFF
      → ((m : ℕ) → 1 ≤ m → m ≤ n → is_used js (after m last) ≡ true)
      → Searches n last js (none, l)

all_met :
    (n last : ℕ) (js : List Job)
    → is_used js (next_id last) ≡ true
    → ((m : ℕ) → 1 ≤ m → m ≤ n → is_used js (after m (next_id last)) ≡ true)
    → (m : ℕ) → 1 ≤ m
    → m ≤ suc n
    → is_used js (after m last) ≡ true
all_met n last js u f zero p q = absurd (omega arith)
all_met n last js u f (suc zero) p q = u
all_met n last js u f (suc (suc m)) p q = f (suc m) (omega arith) (omega arith)

search_id-Searches :
    (n last : ℕ) (js : List Job)
    → 1 ≤ last
    → last ≤ 0xFFFF
    → Searches n last js (search_id n last js)
unfolding search_id
search_id-Searches zero last js lo hi = all_used last lo hi (λ m l h. absurd (omega arith))
search_id-Searches (suc n) last js lo hi = elim (Bool-cases (is_used js (next_id last))) [
  | inr f ↦ rw (f) (finds (next_id last) (ground arith) (ground arith) f)
  | inl u ↦ rw (u) (
      more u (search_id n (next_id last) js)
        (search_id-Searches n (next_id last) js (ground arith) (ground arith)))
]
  where
    more :
        is_used js (next_id last) ≡ true
        → (r : Option ℕ × ℕ) → Searches n (next_id last) js r
        → Searches (suc n) last js r
    more u _ (finds k a b f) = finds k a b f
    more u _ (all_used l a b f) = all_used l a b (all_met n last js u f)

-- No two streams have the same id, and none that of discrete messages.
abbrev pub Distinct : List Job → Type 0
Distinct [] = Unit
Distinct (j ∷ js) = (is_used js j.job_id ≡ false) × (1 ≤ j.job_id) × Distinct js

pub record Sound (s : Streams) : Type 0 where
  pub tracker : (1 ≤ s.last_id) × (s.last_id ≤ 0xFFFF)
  pub distinct : Distinct s.jobs

is_used-append :
    (js : List Job) (k i : ℕ)
    → is_used (js ++ new_job k ∷ []) i ≡ (if is_used js i then true else (k == i))
is_used-append [] k i = ground arith
is_used-append (j ∷ js) k i = ground (arith, is_used-append js k i)

Distinct-append :
    (js : List Job) (k : ℕ)
    → Distinct js
    → is_used js k ≡ false
    → 1 ≤ k
    → Distinct (js ++ new_job k ∷ [])
Distinct-append [] k d u l = (refl, l, tt)
Distinct-append (j ∷ js) k (f, p, d) u l =
    (ground (arith, is_used-append js k j.job_id), p, Distinct-append js k d (ground arith) l)

-- What `RcmServer_acqJobId_P` returns.
pub data Acquires (s : Streams) (has_memory : Bool) : (Error ⊎ ℕ) × Streams → Type 0 where
  acquires :
      (k : ℕ)
      → is_used s.jobs k ≡ false
      → 1 ≤ k
      → k ≤ 0xFFFF
      → has_memory ≡ true
      → Acquires s has_memory (inr k, record s { last_id = k; jobs = s.jobs ++ new_job k ∷ [] })
  no_id :
      (l : ℕ)
      → ((i : ℕ) → 1 ≤ i → i ≤ 0xFFFF → is_used s.jobs i ≡ true)
      → Acquires s has_memory (inl e_fail, record s { last_id = l })
  no_memory :
      (k : ℕ)
      → is_used s.jobs k ≡ false
      → has_memory ≡ false
      → Acquires s has_memory (inl e_no_memory, record s { last_id = k })

-- RcmServer_acqJobId_P ends after at most 0xFFFF rounds. It returns an id from 1 to 0xFFFF that no stream
-- has and adds an empty stream with it behind the others, when there is memory for one; it returns
-- RcmServer_E_FAIL only if each of these ids is in use, and RcmServer_E_NOMEMORY only when there is no
-- memory, and then it adds none. The ids stay distinct.
pub acq_job_id-Acquires :
    (s : Streams) (has_memory : Bool)
    → Sound s
    → Acquires s has_memory (acq_job_id s has_memory) × Sound (acq_job_id s has_memory).1
unfolding acq_job_id
acq_job_id-Acquires s has_memory v =
    by_search (search_id 0xFFFF s.last_id s.jobs) has_memory
      (search_id-Searches 0xFFFF s.last_id s.jobs v.tracker.0 v.tracker.1)
  where
    by_search :
        (r : Option ℕ × ℕ) (m : Bool)
        → Searches 0xFFFF s.last_id s.jobs r
        → Acquires s m (admit s r m) × Sound (admit s r m).1
    by_search _ true (finds k a b u) = (
      acquires k u a b refl,
      record { tracker = (a, b); distinct = Distinct-append s.jobs k v.distinct u a },
    )
    by_search _ false (finds k a b u) =
        (no_memory k u refl, record { tracker = (a, b); distinct = v.distinct })
    by_search _ m (all_used l a b f) =
        (no_id l every, record { tracker = (a, b); distinct = v.distinct })
      where
        every : (i : ℕ) → 1 ≤ i → i ≤ 0xFFFF → is_used s.jobs i ≡ true
        every i lo hi =
            let (m, p, q, e) = meets s.last_id i v.tracker.0 v.tracker.1 lo hi in
            subst (λ x. is_used s.jobs x ≡ true) e (f m p q)

-- ===== src/Bios/Tests.antt =====
-- The laws can be met: semaphores and heaps as numbers, lists as lists.
use benchmarks_m3_dsp_unopti.Base.{
  ℕ, zero, suc, ◌≡◌, refl, ◌⊎◌, inl, inr, Option, none, some, List, [], ◌∷◌, ◌++◌, ltb,
  if◌then◌else◌, arith,
}
use benchmarks_m3_dsp_unopti.Bios.{Bios}

abbrev pub pend : ℕ → Option ℕ
pend zero = none
pend (suc n) = some n

pub pend-cases : (s : ℕ) → ((s ≡ 0) × (pend s ≡ none)) ⊎ ((t : ℕ) × (pend s ≡ some t) × (s ≡ suc t))
pend-cases zero = inl (refl, refl)
pend-cases (suc n) = inr (n, refl, refl)

-- Blocks of 512 bytes.
abbrev pub alloc : ℕ → ℕ → Option ℕ
alloc zero size = none
alloc (suc n) size = if ltb 512 size then none else some n

pub alloc_takes : (h g size : ℕ) → alloc h size ≡ some g → h ≡ suc g
alloc_takes zero g size e = absurd (ground arith)
alloc_takes (suc n) g size e = ground arith

module _ {E : Type 0} where
  abbrev pub get : List E → Option (E × List E)
  get [] = none
  get (e ∷ q) = some (e, q)

  pub get-cases :
      (q : List E)
      → ((q ≡ []) × (get q ≡ none)) ⊎ ((e : E) × (r : List E) × (get q ≡ some (e, r)) × (q ≡ e ∷ r))
  get-cases [] = inl (refl, refl)
  get-cases (e ∷ q) = inr (e, q, refl, refl)

abbrev pub plain : (E : Type 0) → Bios E
plain E = record {
  Sem = ℕ;
  count = λ n. n;
  sem_create = λ n. n;
  sem_post = λ n. suc n;
  sem_pend = pend;
  count-create = λ n. refl;
  count-post = λ n. refl;
  pend_cases = pend-cases;
  Heap = ℕ;
  blocks = λ n. n;
  heap_alloc = alloc;
  heap_free = λ n. suc n;
  alloc_takes = alloc_takes;
  free_gives = λ n. refl;
  Fifo = List E;
  entries = λ q. q;
  fifo_create = [];
  fifo_put = λ q e. q ++ e ∷ [];
  fifo_get = get;
  entries-create = refl;
  entries-put = λ q e. refl;
  get_cases = get-cases;
}

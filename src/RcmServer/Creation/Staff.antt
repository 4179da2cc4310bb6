-- ===== src/RcmServer/Creation/Staff.antt =====
-- How the pools of a server of RcmServer.c come to have their semaphores and workers.
use benchmarks_m3_dsp_unopti.Base.{
  ℕ, zero, suc, ◌+◌, ◌≡◌, refl, sym, subst, inl, inr, if◌then◌else◌, Option, none, some, List, [],
  ◌∷◌, Bool, true, false, not, ◌&&◌, length, replicate, Bool-cases, if_true, if_false,
}
use benchmarks_m3_dsp_unopti.RcmServer.Jobs.{Error, e_fail, e_no_memory}
use benchmarks_m3_dsp_unopti.RcmServer.Creation.{
  Params, Outcomes, Pool, whole, open_pools, staff, next_pool, staff_pools, all_threads,
  can_close_all,
}
use benchmarks_m3_dsp_unopti.RcmServer.Creation.Needs.{
  Unready, no_semaphore, no_thread, HasSems, Staffed, AllStaffed, Lack, no_worker,
}

-- What the semaphores of the pools end with.
abbrev pub Opened : Outcomes → ℕ → ℕ → Bool × List Pool → Type 0
Opened x n i (true, l) = HasSems x n i
Opened x n i (false, l) = Unready x × (can_close_all l ≡ false)

pub open_pools-Opened : (x : Outcomes) (n i : ℕ) → Opened x n i (open_pools x.makes_semaphore n i)
open_pools-Opened x zero i = tt
open_pools-Opened x (suc n) i = elim (Bool-cases (x.makes_semaphore i)) [
  | inl e ↦
      subst (Opened x (suc n) i) (sym (if_true (x.makes_semaphore i) _ _ e))
        (behind e (open_pools x.makes_semaphore n (i + 1)) (open_pools-Opened x n (i + 1)))
  | inr e ↦
      subst (Opened x (suc n) i) (sym (if_false (x.makes_semaphore i) _ _ e))
        (no_semaphore i e, refl)
]
  where
    behind :
        x.makes_semaphore i ≡ true
        → (r : Bool × List Pool) → Opened x n (i + 1) r
        → Opened x (suc n) i (r.0, whole [] ∷ r.1)
    behind e (true, l) h = (e, h)
    behind e (false, l) h = h

can_close_all-replicate : (n : ℕ) → can_close_all (replicate n (whole [])) ≡ true
can_close_all-replicate zero = refl
can_close_all-replicate (suc n) = can_close_all-replicate n

module _ (ps : Params) (x : Outcomes) where
  -- An error, by whether the object can be finalized.
  abbrev pub Fails : Error → Bool → Type 0
  Fails e true = Lack ps x e
  Fails e false = Unready x

  abbrev StaffEnds : ℕ → ℕ → ℕ → Option Error × List Bool → Type 0
  StaffEnds i n j (none, ts) = Staffed x i n j × (all_threads ts ≡ true)
  StaffEnds i n j (some e, ts) = Fails e (all_threads ts)

  staff-StaffEnds : (i n j : ℕ) → StaffEnds i n j (staff (x.has_worker i) (x.makes_thread i) n j)
  staff-StaffEnds i zero j = (tt, refl)
  staff-StaffEnds i (suc n) j =
      by_tests (x.has_worker i j) (x.makes_thread i j) refl refl
        (staff (x.has_worker i) (x.makes_thread i) n (j + 1)) (staff-StaffEnds i n (j + 1))
    where
      by_tests :
          (b c : Bool)
          → x.has_worker i j ≡ b
          → x.makes_thread i j ≡ c
          → (r : Option Error × List Bool) → StaffEnds i n (j + 1) r
          → StaffEnds i (suc n) j (
              if not b
              then (some e_no_memory, [])
              else if c
              then (r.0, true ∷ r.1)
              else (some e_fail, false ∷ []))
      by_tests false c p q r h = no_worker i j p
      by_tests true false p q r h = no_thread i j q
      by_tests true true p q (none, ts) (h, k) = ((p, q, h), k)
      by_tests true true p q (some e, ts) h = h

  abbrev pub PoolsEnd : List ℕ → ℕ → Option Error × List Pool → Type 0
  PoolsEnd ns i (none, l) = AllStaffed x ns i × (can_close_all l ≡ true)
  PoolsEnd ns i (some e, l) = Fails e (can_close_all l)

  pub staff_pools-PoolsEnd :
      (ns : List ℕ) (i : ℕ) → PoolsEnd ns i (staff_pools x.has_worker x.makes_thread ns i)
  staff_pools-PoolsEnd [] i = (tt, refl)
  staff_pools-PoolsEnd (n ∷ ns) i =
      behind (staff (x.has_worker i) (x.makes_thread i) n 0)
        (staff_pools x.has_worker x.makes_thread ns (i + 1)) (staff-StaffEnds i n 0)
        (staff_pools-PoolsEnd ns (i + 1))
    where
      behind :
          (r : Option Error × List Bool) (s : Option Error × List Pool)
          → StaffEnds i n 0 r
          → PoolsEnd ns (i + 1) s
          → PoolsEnd (n ∷ ns) i (next_pool (length ns) r s)
      behind (none, ts) (none, l) (p, q) (h, k) = ((p, h), rw (q) k)
      behind (none, ts) (some e, l) (p, q) h = subst (λ b. Fails e (b && can_close_all l)) (sym q) h
      behind (some e, ts) s p h =
          subst (λ b. Fails e (all_threads ts && b)) (sym (can_close_all-replicate (length ns)))
            (and_true (all_threads ts) p)
        where
          and_true : (b : Bool) → Fails e b → Fails e (b && true)
          and_true true k = k
          and_true false k = k

-- ===== src/RcmServer/Creation/Needs.antt =====
-- What a creation by RcmServer.c needs, and what its finalization leaves.
use benchmarks_m3_dsp_unopti.Base.{
  ℕ, zero, suc, ◌+◌, ◌<◌, ◌≤◌, ◌≡◌, refl, sym, Option, none, some, List, [], ◌∷◌, Bool, true, false,
  ◌&&◌, length,
}
use mathlib.Core.Bool.{true≢false}
use benchmarks_m3_dsp_unopti.RcmServer.Jobs.{Error, e_fail, e_no_memory}
use benchmarks_m3_dsp_unopti.RcmServer.Creation.{
  Params, Outcomes, no_table, Parts, counts, no_parts, Pools, no_pools, table, deleted,
  without_table, without_pools, finalize_parts, can_close_pools, can_finalize,
}

-- A failure after which the finalization uses a part that is not there: without the list of the jobs,
-- the table of the pools or its names, the semaphore of a pool, or the thread of a worker.
pub data Unready (x : Outcomes) : Type 0 where
  no_gate : x.makes_gate ≡ false → Unready x
  no_job_list : x.makes_job_list ≡ false → Unready x
  no_pool_memory : x.has_pools ≡ false → Unready x
  no_pool_names : x.has_pool_names ≡ false → Unready x
  no_semaphore : (i : ℕ) → x.makes_semaphore i ≡ false → Unready x
  no_thread : (i j : ℕ) → x.makes_thread i j ≡ false → Unready x

-- The semaphores of `n` pools from `i` on are made.
abbrev pub HasSems : Outcomes → ℕ → ℕ → Type 0
HasSems x zero i = Unit
HasSems x (suc n) i = (x.makes_semaphore i ≡ true) × HasSems x n (i + 1)

-- The `n` workers of pool `i` from `j` on are made, with their threads.
abbrev pub Staffed : Outcomes → ℕ → ℕ → ℕ → Type 0
Staffed x i zero j = Unit
Staffed x i (suc n) j =
    (x.has_worker i j ≡ true) × (x.makes_thread i j ≡ true) × Staffed x i n (j + 1)

abbrev pub AllStaffed : Outcomes → List ℕ → ℕ → Type 0
AllStaffed x [] i = Unit
AllStaffed x (n ∷ ns) i = Staffed x i n 0 × AllStaffed x ns (i + 1)

-- The memory for static functions, if there are any.
abbrev pub HasFunctions : Outcomes → List (List ℕ × ℕ) → Type 0
HasFunctions x [] = Unit
HasFunctions x (f ∷ fs) = (x.has_table ≡ true) × (x.has_names ≡ true)

-- Every call that a creation makes succeeds, and there are not too many pools.
pub record Ready (ps : Params) (x : Outcomes) : Type 0 where
  pub gate : x.makes_gate ≡ true
  pub job_list : x.makes_job_list ≡ true
  pub functions : HasFunctions x ps.fxns
  pub few_pools : length (counts ps) ≤ 4
  pub pools : x.has_pools ≡ true
  pub pool_names : x.has_pool_names ≡ true
  pub sems : HasSems x (length (counts ps)) 0
  pub staffed : AllStaffed x (counts ps) 0
  pub run : x.makes_run ≡ true
  pub queue : x.makes_queue ≡ true
  pub server_thread : x.makes_server_thread ≡ true

-- What the code of an error that is returned says.
pub data Lack (ps : Params) (x : Outcomes) : Error → Type 0 where
  no_fxn_table : x.has_table ≡ false → Lack ps x e_no_memory
  no_fxn_names : x.has_names ≡ false → Lack ps x e_no_memory
  too_many_pools : 4 < length (counts ps) → Lack ps x e_no_memory
  no_worker : (i j : ℕ) → x.has_worker i j ≡ false → Lack ps x e_no_memory
  no_run : x.makes_run ≡ false → Lack ps x e_fail
  no_queue : x.makes_queue ≡ false → Lack ps x e_fail
  no_server_thread : x.makes_server_thread ≡ false → Lack ps x e_fail

-- The static table of functions with its names, if there are any functions.
abbrev pub fxn_parts : List (List ℕ × ℕ) → Option Bool
fxn_parts [] = none
fxn_parts (f ∷ fs) = some true

-- An object with all its parts.
pub record IsWhole (ps : Params) (o : Parts) : Type 0 where
  pub gate : o.gate ≡ true
  pub job_list : o.job_list ≡ true
  pub fxns : o.fxns ≡ fxn_parts ps.fxns
  pub pools : can_close_pools o.pools ≡ true
  pub run : o.run ≡ true
  pub queue : o.queue ≡ true
  pub server_thread : o.server_thread ≡ true

-- Nothing is left by a finalization that comes to its end.
pub finalize_parts-no_parts : (o : Parts) → can_finalize o ≡ true → finalize_parts o ≡ no_parts
unfolding finalize_parts
finalize_parts-no_parts o h = by_parts o.job_list o.fxns o.pools o.run o.queue o.server_thread h
  where
    deleted-false : (b : Bool) → deleted b ≡ false
    deleted-false true = refl
    deleted-false false = refl

    without_table-none : (f : Option Bool) → without_table f ≡ none
    without_table-none none = refl
    without_table-none (some names) = refl

    without_pools-no_pools :
        (b : Bool) (p : Pools) → (b && can_close_pools p) ≡ true → without_pools p ≡ no_pools
    without_pools-no_pools b no_pools q = refl
    without_pools-no_pools true no_table q = absurd (true≢false (sym q))
    without_pools-no_pools false no_table q = absurd (true≢false (sym q))
    without_pools-no_pools b (table names l) q = refl

    by_parts :
        (j : Bool) (f : Option Bool) (p : Pools) (r q t : Bool)
        → (j && can_close_pools p) ≡ true
        → record {
          gate = false;
          job_list = deleted j;
          fxns = without_table f;
          pools = without_pools p;
          run = deleted r;
          queue = deleted q;
          server_thread = deleted t;
        }
          ≡ no_parts
    by_parts j f p r q t h =
        rw
          (
            deleted-false j,
            without_table-none f,
            without_pools-no_pools j p h,
            deleted-false r,
            deleted-false q,
            deleted-false t,
          )
          refl

-- ===== src/ServiceMgr/Lifecycle.antt =====
-- The life of a service's server, from `ServiceMgr_createService` to `ServiceMgr_deleteService`.
use benchmarks_m3_dsp_unopti.Base.{
  zero, suc, [], ◌∷◌, ◌++◌, ℕ, ◌≡◌, refl, sym, ap, subst, inl, inr, Option, none, some, List, Bool,
  true, false, ◌==◌, ==_refl, ==_iff, Bool-cases, if◌then◌else◌, get_elem?, set, arith,
}
use mathlib.Core.Bool.{true≢false}
use benchmarks_m3_dsp_unopti.RcmServer.Jobs.{Error}
use benchmarks_m3_dsp_unopti.RcmServer.Process.{Instance}
use benchmarks_m3_dsp_unopti.RcmServer.Creation.{
  Params, Outcomes, Created, Parts, created, failed, breaks, create,
}
use benchmarks_m3_dsp_unopti.ServiceMgr.{
  Status, success, notsupp, fail, free_tuple_key, Tuple, Def, remove_tuple, find_def,
}
use benchmarks_m3_dsp_unopti.ServiceMgr.Tables.{
  freed, Lacks, Stores, is_reserved, is_full, stores, store_tuple-Stores,
}
use benchmarks_m3_dsp_unopti.ServiceMgr.Services.{
  Manager, Action, starts, deletes, Served, returns, crashes, keep, launch, launch_def,
  create_service, notify, dismiss, delete_service,
}

remove_tuple-set :
    (ts : List Tuple) (i k v : ℕ) (t : Tuple)
    → get_elem? ts i ≡ some t
    → Lacks k ts
    → remove_tuple (set ts i (record { key = k; value = v })) k ≡ some (v, set ts i freed)
unfolding remove_tuple
remove_tuple-set [] i k v t e g = absurd (ground arith)
remove_tuple-set (x ∷ ts) zero k v t e g = rw (==_refl k, remove_tuple) refl
remove_tuple-set (x ∷ ts) (suc i) k v t e g = elim (Bool-cases (x.key == k)) [
  | inl q ↦ absurd (g 0 x refl ((==_iff _ _).0 q))
  | inr q ↦ rw (q, remove_tuple, remove_tuple-set ts i k v t e (λ j u w. g (suc j) u w)) refl
]

module _ (F : Type 0) where
  -- How `ServiceMgr_createService` may end.
  pub data Serves (m : Manager F) (n : List ℕ) (x : Outcomes) (has_memory : Bool) (h a : ℕ)
      : Served F → Type 0 where
    is_unknown :
        find_def Params F m.defs n ≡ none → Serves m n x has_memory h a (returns notsupp none [] m)
    is_not_created :
        (d : Def Params F) (e : Error) (r : Parts)
        → find_def Params F m.defs n ≡ some d
        → create d.params x has_memory ≡ failed e r
        → Serves m n x has_memory h a (returns fail none [] m)
    breaks_off :
        (d : Def Params F)
        → find_def Params F m.defs n ≡ some d
        → create d.params x has_memory ≡ breaks
        → Serves m n x has_memory h a crashes
    has_no_key :
        (d : Def Params F) (i : Instance) (r : Parts)
        → find_def Params F m.defs n ≡ some d
        → create d.params x has_memory ≡ created i r
        → a ≡ free_tuple_key
        → Serves m n x has_memory h a (returns fail (some a) (deletes h ∷ []) m)
    has_no_room :
        (d : Def Params F) (i : Instance) (r : Parts)
        → find_def Params F m.defs n ≡ some d
        → create d.params x has_memory ≡ created i r
        → Lacks free_tuple_key m.tuples
        → Serves m n x has_memory h a (returns fail (some a) (deletes h ∷ []) m)
    serves :
        (d : Def Params F) (i : Instance) (r : Parts) (j : ℕ) (t : Tuple)
        → find_def Params F m.defs n ≡ some d
        → create d.params x has_memory ≡ created i r
        → get_elem? m.tuples j ≡ some t
        → t.key ≡ free_tuple_key
        → Serves m n x has_memory h a (
            returns success
              (some a)
              (starts h ∷ [])
              (record m { tuples = set m.tuples j (record { key = a; value = h }) }))

  module _ (m : Manager F) (n : List ℕ) (x : Outcomes) (has_memory : Bool) (h a : ℕ) where
    keep-Serves :
        (d : Def Params F) (i : Instance) (r : Parts) (o : Option (List Tuple))
        → find_def Params F m.defs n ≡ some d
        → create d.params x has_memory ≡ created i r
        → Stores a h m.tuples o
        → Serves m n x has_memory h a (keep F m h a o)
    keep-Serves d i r none p q (is_reserved k) = has_no_key d i r p q k
    keep-Serves d i r none p q (is_full l) = has_no_room d i r p q l
    keep-Serves d i r (some us) p q (stores j t e f _) = serves d i r j t p q e f

    launch-Serves :
        (d : Def Params F) (o : Created)
        → find_def Params F m.defs n ≡ some d
        → create d.params x has_memory ≡ o
        → Serves m n x has_memory h a (launch F m h a o)
    launch-Serves d (created i r) p q = keep-Serves d i r _ p q (store_tuple-Stores m.tuples a h)
    launch-Serves d (failed e r) p q = is_not_created d e r p q
    launch-Serves d breaks p q = breaks_off d p q

    launch_def-Serves :
        (o : Option (Def Params F))
        → find_def Params F m.defs n ≡ o
        → Serves m n x has_memory h a (launch_def F m x has_memory h a o)
    launch_def-Serves none p = is_unknown p
    launch_def-Serves (some d) p = launch-Serves d _ p refl

    pub create_service-Serves : Serves m n x has_memory h a (create_service F m n x has_memory h a)
    unfolding create_service
    create_service-Serves = launch_def-Serves _ refl

  abbrev is_served : Served F → Bool
  is_served (returns success o l m) = true
  is_served _ = false

  abbrev left_by : Manager F → Served F → Manager F
  left_by m (returns s o l k) = k
  left_by m crashes = m

  -- A deletion that gives the new server's handle to the hook and to RcmServer_delete, and frees a slot
  -- that was free before the creation.
  pub record Undoes (m : Manager F) (h : ℕ) (is_deleted : Bool)
      (r : (Status × List (Action F)) × Manager F) : Type 0 where
    pub slot : ℕ
    pub tuple : Tuple
    pub was_there : get_elem? m.tuples slot ≡ some tuple
    pub was_free : tuple.key ≡ free_tuple_key
    pub does : r ≡ (
      ((if is_deleted then success else fail), notify F m.hook h ++ deletes h ∷ []),
      record m { tuples = set m.tuples slot freed },
    )

  -- ServiceMgr_deleteService undoes a ServiceMgr_createService that has succeeded, for an endpoint that
  -- no slot had before: it calls the hook with the server's handle if there is a hook, then deletes the
  -- server, and the table is as it was but for the slot, which is free again. It returns success just
  -- if RcmServer_delete does.
  pub delete_service-create_service :
      (m k : Manager F) (n : List ℕ) (x : Outcomes) (has_memory : Bool) (h a : ℕ) (o : Option ℕ)
      (l : List (Action F)) (is_deleted : Bool)
      → Lacks a m.tuples
      → create_service F m n x has_memory h a ≡ returns success o l k
      → Undoes m h is_deleted (delete_service F k a is_deleted)
  unfolding delete_service
  delete_service-create_service m k n x has_memory h a o l is_deleted g e =
      by_end _ (create_service-Serves m n x has_memory h a) e
    where
      by_end :
          (r : Served F)
          → Serves m n x has_memory h a r
          → r ≡ returns success o l k
          → Undoes m h is_deleted (dismiss F k is_deleted (remove_tuple k.tuples a))
      by_end _ (is_unknown p) q = absurd (true≢false (sym (ap is_served q)))
      by_end _ (is_not_created d f w p c) q = absurd (true≢false (sym (ap is_served q)))
      by_end _ (breaks_off d p c) q = absurd (true≢false (sym (ap is_served q)))
      by_end _ (has_no_key d i w p c z) q = absurd (true≢false (sym (ap is_served q)))
      by_end _ (has_no_room d i w p c z) q = absurd (true≢false (sym (ap is_served q)))
      by_end _ (serves d i w j t p c u f) q =
          subst (λ y. Undoes m h is_deleted (dismiss F y is_deleted (remove_tuple y.tuples a)))
            (ap (left_by m) q)
            (record {
              slot = j;
              tuple = t;
              was_there = u;
              was_free = f;
              does = rw (remove_tuple-set m.tuples j a h t u g) refl;
            })

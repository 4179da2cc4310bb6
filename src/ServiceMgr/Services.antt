-- ===== src/ServiceMgr/Services.antt =====
-- `ServiceMgr_createService` and `ServiceMgr_deleteService`. A server is created as RcmServer does it; its
-- handle and its endpoint are arguments, as they come from the memory and from MessageQCopy.
use benchmarks_m3_dsp_unopti.Base.{
  suc, ◌==◌, ℕ, Option, none, some, List, [], ◌∷◌, ◌++◌, Bool, if◌then◌else◌,
}
use benchmarks_m3_dsp_unopti.RcmServer.Creation.{
  Params, Outcomes, Created, created, failed, breaks, create,
}
use benchmarks_m3_dsp_unopti.ServiceMgr.{
  Status, success, notsupp, fail, Tuple, Def, Task, init_defs, init_tasks, init_tuples, store_tuple,
  remove_tuple, find_def,
}

module _ (F : Type 0) where
  -- The tables, and the function that is told of a disconnection.
  pub record Manager : Type 0 where
    pub defs : List (Def Params F)
    pub tuples : List Tuple
    pub hook : Option F

  -- What is done with a server, by its handle, and the call of the hook.
  pub data Action : Type 0 where
    starts deletes : ℕ → Action
    calls : F → ℕ → Action

  -- How `ServiceMgr_createService` ends: it returns its status, with what is stored at `endpt`, what it has
  -- done with the new server and the tables; or the creation of the server breaks.
  pub data Served : Type 0 where
    returns : Status → Option ℕ → List Action → Manager → Served
    crashes : Served

  -- `ServiceMgr_init`, with `curInit`: the new `curInit`, the tables and the tasks. RcmServer_init does
  -- not concern this state.
  unfoldable pub init : ℕ → Manager → List (Task Params F) → ℕ × Manager × List (Task Params F)
  init n m ts =
      if n == 0
      then (
        1,
        record m { defs = init_defs Params F m.defs; tuples = init_tuples m.tuples },
        init_tasks Params F ts,
      )
      else (suc n, m, ts)

  -- The end of `ServiceMgr_createService`, on the table with the new tuple, none if there is no room.
  abbrev pub keep : Manager → ℕ → ℕ → Option (List Tuple) → Served
  keep m h a none = returns fail (some a) (deletes h ∷ []) m
  keep m h a (some ts) = returns success (some a) (starts h ∷ []) (record m { tuples = ts })

  abbrev pub launch : Manager → ℕ → ℕ → Created → Served
  launch m h a (created i p) = keep m h a (store_tuple m.tuples a h)
  launch m h a (failed e p) = returns fail none [] m
  launch m h a breaks = crashes

  abbrev pub launch_def : Manager → Outcomes → Bool → ℕ → ℕ → Option (Def Params F) → Served
  launch_def m x has_memory h a none = returns notsupp none [] m
  launch_def m x has_memory h a (some d) = launch m h a (create d.params x has_memory)

  -- `ServiceMgr_createService`, with the handle and the endpoint that a new server gets.
  unfoldable pub create_service : Manager → List ℕ → Outcomes → Bool → ℕ → ℕ → Served
  create_service m n x has_memory h a = launch_def m x has_memory h a (find_def Params F m.defs n)

  abbrev pub notify : Option F → ℕ → List Action
  notify none h = []
  notify (some f) h = calls f h ∷ []

  -- What `ServiceMgr_deleteService` does with a handle that it has found: the hook's call, if there is a
  -- hook, then the deletion, which may fail.
  abbrev pub dismiss : Manager → Bool → Option (ℕ × List Tuple) → (Status × List Action) × Manager
  dismiss m is_deleted none = ((fail, []), m)
  dismiss m is_deleted (some (h, ts)) = (
    ((if is_deleted then success else fail), notify m.hook h ++ deletes h ∷ []),
    record m { tuples = ts },
  )

  -- `ServiceMgr_deleteService`; `is_deleted` says whether RcmServer_delete returns no error.
  unfoldable pub delete_service : Manager → ℕ → Bool → (Status × List Action) × Manager
  delete_service m addr is_deleted = dismiss m is_deleted (remove_tuple m.tuples addr)

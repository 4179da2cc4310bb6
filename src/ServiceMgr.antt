-- ===== src/ServiceMgr.antt =====
-- common/src/ti/srvmgr/ServiceMgr.c: the services that a host can connect to, the servers that run for
-- its connections, and the tasks that are started with the core. A handle of a server is the value
-- that the tuples hold.
pub mod Tables
pub mod Services
pub mod Registry
pub mod Lifecycle
mod Tests
use benchmarks_m3_dsp_unopti.Base.{
  same_name, ℕ, leb, ◌==◌, if◌then◌else◌, Option, none, some, map, List, [], ◌∷◌, Bool, true, false,
  ◌&&◌, replicate, length,
}

abbrev pub max_namelen : ℕ
max_namelen = 64

abbrev pub max_tuples : ℕ
max_tuples = 256

abbrev pub free_tuple_key : ℕ
free_tuple_key = 0xffffffff

-- OMX_SUCCESS, OMX_NOTSUPP and OMX_FAIL
pub data Status : Type 0 where
  success notsupp fail : Status

-- `struct Tuple`
pub record Tuple : Type 0 where
  pub key : ℕ
  pub value : ℕ

unfoldable pub init_tuples : List Tuple → List Tuple
init_tuples [] = []
init_tuples (t ∷ ts) = record t { key = free_tuple_key } ∷ init_tuples ts

-- How a registration ends: it returns, none for FALSE, or its name runs over the array for it.
pub data Registered {ℓ} (A : Type ℓ) : Type ℓ where
  returns : Option A → Registered A
  overruns : Registered A

abbrev pub fits {ℓ} : {A : Type ℓ} → Bool → Option A → Registered A
fits is_long none = returns none
fits true (some a) = overruns
fits false (some a) = returns (some a)

-- `storeTuple`: the table with the tuple in its first free slot; none for FALSE.
unfoldable pub store_tuple : List Tuple → ℕ → ℕ → Option (List Tuple)
store_tuple [] k v = none
store_tuple (t ∷ ts) k v =
    let rest = store_tuple ts k v in
    if k == free_tuple_key
    then none
    else if t.key == free_tuple_key
    then some (record { key = k; value = v } ∷ ts)
    else elim rest [ none ↦ none | some us ↦ some (t ∷ us) ]

-- `removeTuple`: the value and the table without the first tuple of this key; none for FALSE.
unfoldable pub remove_tuple : List Tuple → ℕ → Option (ℕ × List Tuple)
remove_tuple [] k = none
remove_tuple (t ∷ ts) k =
    let rest = remove_tuple ts k in
    if t.key == k
    then some (t.value, record { key = free_tuple_key; value = 0 } ∷ ts)
    else elim rest [ none ↦ none | some (v, us) ↦ some (v, t ∷ us) ]

module _ (P F : Type 0) where
  -- `struct ServiceDef`
  pub record Def : Type 0 where
    pub name : List ℕ
    pub params : P
    pub taken : Bool

  -- `ServiceMgr_ServiceTask`: a function with the parameters of its task.
  pub record Task : Type 0 where
    pub fxn : Option F
    pub task_name : List ℕ
    pub reserved : ℕ
    pub taken : Bool

  -- What `ServiceMgr_init` does to the tables: nothing is taken, no key is in use, and a task has no
  -- function.
  unfoldable pub init_defs : List Def → List Def
  init_defs [] = []
  init_defs (d ∷ ds) = record d { taken = false } ∷ init_defs ds

  unfoldable pub init_tasks : List Task → List Task
  init_tasks [] = []
  init_tasks (t ∷ ts) = record t { taken = false; fxn = none; reserved = 0xffff } ∷ init_tasks ts

  -- The search of `ServiceMgr_register` and the entry that it makes; none for FALSE.
  unfoldable pub add_def : List Def → List ℕ → P → Option (List Def)
  add_def [] n p = none
  add_def (d ∷ ds) n p =
      let rest = add_def ds n p in
      if d.taken
      then elim rest [ none ↦ none | some es ↦ some (d ∷ es) ]
      else some (record { name = n; params = p; taken = true } ∷ ds)

  -- `ServiceMgr_register`
  unfoldable pub register : List Def → List ℕ → P → Option (List Def)
  register ds n p = if leb max_namelen (length n) then none else add_def ds n p

  -- The search of `ServiceMgr_createService`, which does not look at `taken`.
  unfoldable pub find_def : List Def → List ℕ → Option Def
  find_def [] n = none
  find_def (d ∷ ds) n = let rest = find_def ds n in if same_name n d.name then some d else rest

  -- The search of `ServiceMgr_registerSrvTask` and the entry that it makes; none for FALSE.
  unfoldable pub add_task : List Task → ℕ → F → List ℕ → Option (List Task)
  add_task [] r f n = none
  add_task (t ∷ ts) r f n =
      let rest = add_task ts r f n in
      if t.taken
      then elim rest [ none ↦ none | some us ↦ some (t ∷ us) ]
      else some (record { fxn = some f; task_name = n; reserved = r; taken = true } ∷ ts)

  -- `ServiceMgr_registerSrvTask`, which copies the name without a check into the 64 bytes of the slot
  -- that it finds.
  unfoldable pub register_srv_task : List Task → ℕ → F → List ℕ → Registered (List Task)
  register_srv_task ts r f n = fits (leb max_namelen (length n)) (add_task ts r f n)

  -- The tasks that the loop of `ServiceMgr_start` creates.
  unfoldable pub start_tasks : List Task → List Task
  start_tasks [] = []
  start_tasks (t ∷ ts) = let rest = start_tasks ts in if t.taken then t ∷ rest else []

  -- `ServiceMgr_start`, with the flag `started`: the tasks that it creates, whose number it returns,
  -- and the flag, which it never sets.
  unfoldable pub start : Bool → List Task → List Task × Bool
  start true ts = ([], true)
  start false ts = (start_tasks ts, false)

  -- `ServiceMgr_registerDisconnectFxn`: the result and the hook, none for NULL.
  unfoldable pub register_disconnect_fxn : Option F → Option F → Bool × Option F
  register_disconnect_fxn hook none = (false, hook)
  register_disconnect_fxn none (some f) = (true, some f)
  register_disconnect_fxn (some g) (some f) = (true, some g)

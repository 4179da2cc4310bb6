-- ===== src/RcmServer/Creation.antt =====
-- `RcmServer_Instance_init_P` and `RcmServer_Instance_finalize_P`, with MessageQCopy and IPC's lists.
pub mod Needs
pub mod Fresh
pub mod Staff
pub mod Ends
mod Tests
use benchmarks_m3_dsp_unopti.Base.{
  ℤ, incr, decr, ℕ, zero, suc, ◌+◌, ltb, if◌then◌else◌, Option, none, some, List, [], ◌∷◌, ◌++◌,
  Bool, true, false, not, ◌&&◌, length, map, replicate,
}
use benchmarks_m3_dsp_unopti.RcmServer.{Slot, Server, Tables}
use benchmarks_m3_dsp_unopti.RcmServer.Jobs.{
  Packet, Job, Streams, Error, e_fail, e_no_memory, unprocessed,
}
use benchmarks_m3_dsp_unopti.RcmServer.Process.{Instance}

-- `RcmServer_Params`: the static functions, and the numbers of workers of the default pool and of the
-- other pools.
pub record Params : Type 0 where
  pub fxns : List (List ℕ × ℕ)
  pub default_count : ℕ
  pub worker_counts : List ℕ

-- `RcmServer_Params_init`
abbrev pub params_init : Params
params_init = record { fxns = []; default_count = 0; worker_counts = [] }

-- Which of the calls that `RcmServer_Instance_init_P` makes succeed; `makes_semaphore` for each pool,
-- `has_worker` and `makes_thread` for each pool and each of its workers.
pub record Outcomes : Type 0 where
  pub makes_gate : Bool
  pub makes_job_list : Bool
  pub has_table : Bool
  pub has_names : Bool
  pub has_pools : Bool
  pub has_pool_names : Bool
  pub makes_semaphore : ℕ → Bool
  pub has_worker : ℕ → ℕ → Bool
  pub makes_thread : ℕ → ℕ → Bool
  pub makes_run : Bool
  pub makes_queue : Bool
  pub makes_server_thread : Bool

-- An entry of the table of pools: as the memory was allocated, without a semaphore, or whole, with its
-- workers and whether each has a thread.
pub data Pool : Type 0 where
  raw lists_only : Pool
  whole : List Bool → Pool

-- `poolMap0Len` and `poolMap[0]`: no pools, pools but no table, or the table, and whether the block of
-- the names is there.
pub data Pools : Type 0 where
  no_pools no_table : Pools
  table : Bool → List Pool → Pools

-- The parts of an object that are there; for the static table of functions, none without the table, else
-- whether the block of the names is there.
pub record Parts : Type 0 where
  pub gate : Bool
  pub job_list : Bool
  pub fxns : Option Bool
  pub pools : Pools
  pub run : Bool
  pub queue : Bool
  pub server_thread : Bool

abbrev pub no_parts : Parts
no_parts = record {
  gate = false;
  job_list = false;
  fxns = none;
  pools = no_pools;
  run = false;
  queue = false;
  server_thread = false;
}

-- `RcmServer_POOL_MAP_LEN`
abbrev pub pool_map_len : ℕ
pool_map_len = 4

abbrev pub slot_of : List ℕ × ℕ → Slot
slot_of (n, a) = record { name = some n; addr = a; key = 0 }

abbrev pub static_table : List (List ℕ × ℕ) → Option (List Slot)
static_table [] = none
static_table (f ∷ fs) = some (map slot_of (f ∷ fs))

-- The pools of an instance: the default pool and the others.
abbrev pub counts : Params → List ℕ
counts ps = ps.default_count ∷ ps.worker_counts

-- The instance that a successful initialization leaves.
abbrev pub initial : Params → Instance
initial ps = record {
  syms = record { fxn_tab = static_table ps.fxns ∷ replicate 8 none; key = 0 };
  streams = record {
    last_id = 0xFFFF;
    jobs = [];
    ready = replicate (length (counts ps)) [];
    sems = replicate (length (counts ps)) 0;
  };
}

-- The semaphores of the pools from `i` on, and whether all could be made.
abbrev pub open_pools : (ℕ → Bool) → ℕ → ℕ → Bool × List Pool
open_pools f zero i = (true, [])
open_pools f (suc n) i =
    let rest = open_pools f n (i + 1) in
    if f i then (rest.0, whole [] ∷ rest.1) else (false, lists_only ∷ replicate n raw)

-- The workers of a pool from `j` on, and an error.
abbrev pub staff : (ℕ → Bool) → (ℕ → Bool) → ℕ → ℕ → Option Error × List Bool
staff has makes zero j = (none, [])
staff has makes (suc n) j =
    let rest = staff has makes n (j + 1) in
    if not (has j)
    then (some e_no_memory, [])
    else if makes j
    then (rest.0, true ∷ rest.1)
    else (some e_fail, false ∷ [])

abbrev pub next_pool :
    ℕ → Option Error × List Bool → Option Error × List Pool → Option Error × List Pool
next_pool n (none, ts) (e, rest) = (e, whole ts ∷ rest)
next_pool n (some e, ts) rest = (some e, whole ts ∷ replicate n (whole []))

-- The workers of the pools from `i` on.
abbrev pub staff_pools : (ℕ → ℕ → Bool) → (ℕ → ℕ → Bool) → List ℕ → ℕ → Option Error × List Pool
staff_pools has makes [] i = (none, [])
staff_pools has makes (n ∷ ns) i =
    next_pool (length ns) (staff (has i) (makes i) n 0) (staff_pools has makes ns (i + 1))

-- A call that makes a part, or fails: what follows, or the code for its failure, with what there is.
abbrev pub made : Bool → Error → Parts → Option Error × Parts → Option Error × Parts
made true e o next = next
made false e o next = (some e, o)

abbrev pub init_server : Outcomes → Bool → Parts → Option Error × List Pool → Option Error × Parts
init_server x names o (some e, l) = (some e, record o { pools = table names l })
init_server x names o (none, l) =
    let with_run = record o { pools = table names l; run = x.makes_run } in
    let with_queue = record with_run { queue = x.makes_queue } in
    let with_thread = record with_queue { server_thread = x.makes_server_thread } in
    made x.makes_run e_fail with_run (
      made x.makes_queue e_fail with_queue
        (made x.makes_server_thread e_fail with_thread (none, with_thread)))

abbrev pub init_workers : Params → Outcomes → Bool → Parts → Bool × List Pool → Option Error × Parts
init_workers ps x names o (false, l) = (some e_fail, record o { pools = table names l })
init_workers ps x names o (true, l) =
    init_server x names o (staff_pools x.has_worker x.makes_thread (counts ps) 0)

abbrev pub init_pools : Params → Outcomes → Parts → Option Error × Parts
init_pools ps x o =
    let n = length (counts ps) in
    if ltb pool_map_len n
    then (some e_no_memory, o)
    else made x.has_pools e_no_memory (record o { pools = no_table })
        (made x.has_pool_names e_no_memory
          (record o { pools = table x.has_pool_names (replicate n raw) })
          (init_workers ps x x.has_pool_names o (open_pools x.makes_semaphore n 0)))

-- The static table, by whether there is memory for it and for the names.
abbrev pub fxn_table : Bool → Bool → Option Bool
fxn_table true names = some names
fxn_table false names = none

abbrev pub tabled : List (List ℕ × ℕ) → Outcomes → Parts → Parts
tabled [] x o = o
tabled (f ∷ fs) x o = record o { fxns = fxn_table x.has_table x.has_names }

abbrev pub init_table :
    List (List ℕ × ℕ) → Outcomes → Parts → Option Error × Parts → Option Error × Parts
init_table [] x o next = next
init_table (f ∷ fs) x o next =
    made x.has_table e_no_memory (record o { fxns = fxn_table x.has_table false })
      (made x.has_names e_no_memory (record o { fxns = fxn_table x.has_table x.has_names }) next)

abbrev pub listed : Outcomes → Parts
listed x = record no_parts { gate = x.makes_gate; job_list = x.makes_job_list }

-- `RcmServer_Instance_init_P`: an error, and what is there.
unfoldable pub instance_init : Params → Outcomes → Option Error × Parts
instance_init ps x =
    made x.makes_gate e_fail (record no_parts { gate = x.makes_gate })
      (made x.makes_job_list e_fail (listed x)
        (init_table ps.fxns x (listed x) (init_pools ps x (tabled ps.fxns x (listed x)))))

abbrev pub all_threads : List Bool → Bool
all_threads [] = true
all_threads (t ∷ ts) = t && all_threads ts

-- Whether a pool can be finalized: its lists and its semaphore are there, and its workers' threads.
-- SemThread_delete is taken not to accept a handle that is not a semaphore's, and Thread_join none that
-- is not a thread's.
abbrev pub can_close : Pool → Bool
can_close raw = false
can_close lists_only = false
can_close (whole ts) = all_threads ts

abbrev pub can_close_all : List Pool → Bool
can_close_all [] = true
can_close_all (p ∷ ps) = can_close p && can_close_all ps

abbrev pub can_close_pools : Pools → Bool
can_close_pools no_pools = true
can_close_pools no_table = false
can_close_pools (table names l) = can_close_all l

-- Whether `RcmServer_Instance_finalize_P` comes to its end: it does not test jobList, poolMap[0] and the
-- threads of the workers for NULL, nor can it tell a pool that is not initialized yet.
abbrev pub can_finalize : Parts → Bool
can_finalize o = o.job_list && can_close_pools o.pools

abbrev pub deleted : Bool → Bool
deleted true = false
deleted false = false

abbrev pub without_table : Option Bool → Option Bool
without_table none = none
without_table (some names) = none

abbrev pub without_pools : Pools → Pools
without_pools no_pools = no_pools
without_pools no_table = no_table
without_pools (table names l) = no_pools

-- What `RcmServer_Instance_finalize_P` leaves of the parts when it comes to its end. The gate is destructed
-- in any case. Posting a semaphore and joining a thread are taken not to fail.
unfoldable pub finalize_parts : Parts → Parts
finalize_parts o = record {
  gate = false;
  job_list = deleted o.job_list;
  fxns = without_table o.fxns;
  pools = without_pools o.pools;
  run = deleted o.run;
  queue = deleted o.queue;
  server_thread = deleted o.server_thread;
}

abbrev pub all_queued : List Job → List ℕ
all_queued [] = []
all_queued (j ∷ js) = j.msg_que ++ all_queued js

abbrev pub all_ready : List (List ℕ) → List ℕ
all_ready [] = []
all_ready (q ∷ qs) = q ++ all_ready qs

-- The packets that `RcmServer_Instance_finalize_P` of a running instance sends back: those of the job
-- streams, then those of the pools.
unfoldable pub finalize : Instance → (ℕ → Packet) → List Packet
finalize i packet_at =
    map (λ a. unprocessed (packet_at a)) (all_queued i.streams.jobs ++ all_ready i.streams.ready)

-- How a creation ends: with an instance and its parts, with an error and the parts that are left, or in
-- the finalization.
pub data Created : Type 0 where
  created : Instance → Parts → Created
  failed : Error → Parts → Created
  breaks : Created

abbrev pub by_init : Params → Option Error × Parts → Created
by_init ps (none, o) = created (initial ps) o
by_init ps (some e, o) = if can_finalize o then failed e (finalize_parts o) else breaks

-- `RcmServer_create` with a name, parameters and a place for the handle; `has_memory` says whether there
-- is memory for the object.
unfoldable pub create : Params → Outcomes → Bool → Created
create ps x has_memory =
    if has_memory then by_init ps (instance_init ps x) else failed e_no_memory no_parts

-- `RcmServer_construct`, in memory of the caller.
unfoldable pub construct : Params → Outcomes → Created
construct ps x = by_init ps (instance_init ps x)

-- `RcmServer_start`: the post that lets the server's thread go on.
abbrev pub start : ℕ → ℕ
start run = run + 1

-- `RcmServer_init` and `RcmServer_exit`: the count of the module's users.
abbrev pub init : ℤ → ℤ
init users = incr users

abbrev pub exit : ℤ → ℤ
exit users = decr users

-- `RcmServer_delete` and `RcmServer_destruct`: the packets that they send back.
unfoldable pub delete : Instance → (ℕ → Packet) → List Packet
delete i packet_at = finalize i packet_at

unfoldable pub destruct : Instance → (ℕ → Packet) → List Packet
destruct i packet_at = finalize i packet_at

-- ===== src/ServiceMgr/Tests.antt =====
-- Services on concrete inputs.
use benchmarks_m3_dsp_unopti.Base.{
  ℕ, ◌≡◌, refl, ap, inl, inr, none, some, List, [], ◌∷◌, ◌++◌, true, false, replicate, arith,
  eq_of_get_elem?-replicate,
}
use benchmarks_m3_dsp_unopti.ServiceMgr.{
  Registered, add_task, success, Def, Task, register, find_def, register_srv_task, start, add_def,
  store_tuple,
}
use benchmarks_m3_dsp_unopti.ServiceMgr.Tables.{freed, Lacks, Stores, store_tuple-Stores}
use benchmarks_m3_dsp_unopti.RcmServer.Creation.{Outcomes, params_init, create, instance_init}
use benchmarks_m3_dsp_unopti.ServiceMgr.Services.{
  Manager, starts, returns, create_service, delete_service,
}
use benchmarks_m3_dsp_unopti.ServiceMgr.Lifecycle.{Undoes, delete_service-create_service}
use benchmarks_m3_dsp_unopti.ServiceMgr.Registry.{
  Packed, new_def, new_task, find_def-register, start-register_srv_task,
}

-- One service, `cam`, and no connection.
abbrev cam : List ℕ
cam = 99 ∷ 97 ∷ 109 ∷ []

abbrev no_def : Def ℕ ℕ
no_def = record { name = []; params = 0; taken = false }

abbrev idle : Manager ℕ
idle = record {
  defs = record { name = cam; params = params_init; taken = true } ∷ [];
  tuples = replicate 3 freed;
  hook = some 8;
}

abbrev works : Outcomes
works = record {
  makes_gate = true;
  makes_job_list = true;
  has_table = true;
  has_names = true;
  has_pools = true;
  has_pool_names = true;
  makes_semaphore = λ i. true;
  has_worker = λ i j. true;
  makes_thread = λ i j. true;
  makes_run = true;
  makes_queue = true;
  makes_server_thread = true;
}

-- A connection to `cam` has the endpoint 100 and a server with the handle 7.
abbrev busy : Manager ℕ
busy = record idle { tuples = record { key = 100; value = 7 } ∷ replicate 2 freed }

create_service-cam :
    create_service ℕ idle cam works true 7 100 ≡ returns success (some 100) (starts 7 ∷ []) busy
unfolding create_service find_def store_tuple create instance_init
create_service-cam = refl

idle-Lacks : Lacks 100 idle.tuples
idle-Lacks i t e q = omega (arith, q, ap (λ x. x.key) (eq_of_get_elem?-replicate 3 i freed t e))

delete_service-create_service_example : Undoes ℕ idle 7 true (delete_service ℕ busy 100 true)
delete_service-create_service_example =
    delete_service-create_service ℕ idle busy cam works true 7 100 (some 100) (starts 7 ∷ []) true
      idle-Lacks create_service-cam

store_tuple-Stores_example :
    Stores 100 7 (replicate 3 freed) (store_tuple (replicate 3 freed) 100 7)
store_tuple-Stores_example = store_tuple-Stores (replicate 3 freed) 100 7

find_def-register_example :
    find_def ℕ ℕ (new_def ℕ ℕ cam 5 ∷ replicate 15 no_def) cam ≡ some (new_def ℕ ℕ cam 5)
unfolding find_def register add_def
find_def-register_example = find_def-register ℕ ℕ (replicate 16 no_def) _ cam 5 not_yet accepted
  where
    not_yet : find_def ℕ ℕ (replicate 16 no_def) cam ≡ none
    not_yet = refl

    accepted :
        register ℕ ℕ (replicate 16 no_def) cam 5 ≡ some (new_def ℕ ℕ cam 5 ∷ replicate 15 no_def)
    accepted = refl

abbrev no_task : Task ℕ ℕ
no_task = record { fxn = none; task_name = []; reserved = 65535; taken = false }

abbrev one_task : List (Task ℕ ℕ)
one_task = new_task ℕ ℕ 1 30 cam ∷ replicate 3 no_task

abbrev two_tasks : List (Task ℕ ℕ)
two_tasks = new_task ℕ ℕ 1 30 cam ∷ new_task ℕ ℕ 2 31 cam ∷ replicate 2 no_task

start-register_srv_task_example :
    Packed ℕ ℕ two_tasks
    × ((start ℕ ℕ false two_tasks).0 ≡ (start ℕ ℕ false one_task).0 ++ new_task ℕ ℕ 2 31 cam ∷ [])
    × (start ℕ ℕ (start ℕ ℕ false two_tasks).1 two_tasks ≡ start ℕ ℕ false two_tasks)
unfolding register_srv_task add_task
start-register_srv_task_example =
    start-register_srv_task ℕ ℕ one_task two_tasks 2 31 cam
      (inl (refl, inr (refl, (refl, (refl, tt))))) registered
  where
    registered : register_srv_task ℕ ℕ one_task 2 31 cam ≡ Registered.returns (some two_tasks)
    registered = refl

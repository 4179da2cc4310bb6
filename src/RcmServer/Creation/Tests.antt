-- ===== src/RcmServer/Creation/Tests.antt =====
-- The creation of a server with two pools, whose second worker gets no thread.
use benchmarks_m3_dsp_unopti.Base.{◌≡◌, refl, [], ◌∷◌, Bool, true, ℕ, ◌==◌, arith}
use benchmarks_m3_dsp_unopti.RcmServer.Creation.{Params, Outcomes, breaks, instance_init, create}
use benchmarks_m3_dsp_unopti.RcmServer.Creation.Ends.{Ends, create-Ends}

abbrev params : Params
params = record { fxns = (102 ∷ [], 0x100) ∷ []; default_count = 1; worker_counts = 1 ∷ [] }

abbrev only_first : ℕ → ℕ → Bool
only_first i j = i == 0

abbrev outcomes : Outcomes
outcomes = record {
  makes_gate = true;
  makes_job_list = true;
  has_table = true;
  has_names = true;
  has_pools = true;
  has_pool_names = true;
  makes_semaphore = λ i. true;
  has_worker = λ i j. true;
  makes_thread = only_first;
  makes_run = true;
  makes_queue = true;
  makes_server_thread = true;
}

crashed : create params outcomes true ≡ breaks
unfolding create instance_init
crashed = refl

create-Ends_example : Ends params outcomes true (create params outcomes true)
create-Ends_example = create-Ends params outcomes (omega arith) true

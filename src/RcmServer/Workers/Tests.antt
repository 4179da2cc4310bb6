-- ===== src/RcmServer/Workers/Tests.antt =====
-- A worker on concrete inputs: one pool, one job stream.
use benchmarks_m3_dsp_unopti.Base.{
  ℕ, ◌≡◌, refl, none, List, [], ◌∷◌, Bool, true, false, ℤ, pos, replicate,
}
use benchmarks_m3_dsp_unopti.RcmServer.Jobs.{Packet, Job, dispatch, get_pool, take_job, put_job}
use benchmarks_m3_dsp_unopti.RcmServer.Process.{Instance, Thread, goes_on, round, process}
use benchmarks_m3_dsp_unopti.RcmServer.Workers.{Worker, works, work, next_job}
use benchmarks_m3_dsp_unopti.RcmServer.Workers.Idle.{Idle}
use benchmarks_m3_dsp_unopti.RcmServer.Workers.Runs.{starts, by_server, by_worker, Runs-Idle}

-- A packet of stream 2 for the first pool, of a type that is ignored.
abbrev packets : ℕ → Packet
packets a = record {
  hdr_type = 5;
  hdr_len = 24;
  desc = 0;
  msg_id = 7;
  pool_id = 0x8000;
  job_id = 2;
  fxn_idx = 0;
  result = pos 0;
  data_size = 4;
  word = 9;
  words = [];
}

abbrev stream : Bool → List ℕ → Job
stream empty l = record { job_id = 2; is_empty = empty; msg_que = l }

abbrev instance_with : Job → List ℕ → ℕ → Instance
instance_with j queue count = record {
  syms = record { fxn_tab = replicate 9 none; key = 0 };
  streams = record { last_id = 2; jobs = j ∷ []; ready = queue ∷ []; sems = count ∷ [] };
}

abbrev returns_zero : ℕ → ℕ → ℕ × List ℕ → ℤ × (ℕ × List ℕ)
returns_zero a size d = (pos 0, d)

abbrev never : Packet → Bool
never p = false

abbrev thread : Thread
thread = record { buffer = 3; shutdown = false; in_band = false }

abbrev worker : Worker
worker = record { pool = 0; terminate = false; packet = none }

dispatched_round :
    round returns_zero thread (instance_with (stream true []) [] 0) packets true 40
    ≡ goes_on (instance_with (stream false []) (3 ∷ []) 1) []
unfolding round dispatch get_pool take_job put_job
dispatched_round = refl

worked_round :
    work returns_zero never worker (instance_with (stream false []) (3 ∷ []) 1) packets true
    ≡ works (instance_with (stream true []) [] 0) [] none packets
unfolding work process next_job take_job put_job
worked_round = refl

Runs-Idle_example : Idle (stream true [] ∷ [])
Runs-Idle_example =
    Runs-Idle returns_zero never (instance_with (stream true []) [] 0)
      (instance_with (stream true []) [] 0) (λ e. refl, tt)
      (by_worker (instance_with (stream false []) (3 ∷ []) 1) _ worker packets packets true [] none
        (by_server (instance_with (stream true []) [] 0) _ thread packets true 40 [] starts
          dispatched_round)
        worked_round)

-- ===== src/RcmClient/Calls/Tests.antt =====
-- The calls of a client, with a server that has the function "f" at the index 1 of the static table.
use benchmarks_m3_dsp_unopti.Base.{
  ℕ, ◌+◌, ◌^◌, ◌<◌, ◌≡◌, ◌≢◌, refl, Option, none, some, List, [], ◌∷◌, true, inr, ℤ, pos, negsuc,
  replicate, if◌then◌else◌, ◌==◌, arith,
}
use benchmarks_m3_dsp_unopti.RcmServer.{Slot, get_fxn_addr, get_sym_idx, sym_from, find_name}
use benchmarks_m3_dsp_unopti.RcmServer.Jobs.{
  Packet, acq_job_id, search_id, rel_job_id, take_job, sent_back,
}
use benchmarks_m3_dsp_unopti.RcmServer.Process.{
  Instance, executed, done, exec_msg, process, rcm_msg, with_status, c_string,
}
use benchmarks_m3_dsp_unopti.RcmClient.Calls.{
  success, e_msg_fxn_error, message, classify, check_for_error,
}
use benchmarks_m3_dsp_unopti.RcmClient.Calls.Send.{
  exec, get_symbol_index, acquire_job_id, release_job_id,
}
use benchmarks_m3_dsp_unopti.RcmClient.Calls.Remote.{Tells, exec-Tells, exec-reused}
use benchmarks_m3_dsp_unopti.RcmClient.Calls.Names.{query, as_found, get_symbol_index-get_sym_idx}
use benchmarks_m3_dsp_unopti.RcmClient.Calls.Jobs.{
  acquisition, release, as_acquired, as_released, acquire_job_id-acq_job_id,
  release_job_id-rel_job_id,
}
use benchmarks_m3_dsp_unopti.RcmClient.Calls.Ids.{
  later_id, later_id_distinct, is_not_found, check_for_error-exec,
}

abbrev slot : List ℕ → ℕ → Slot
slot n a = record { name = some n; addr = a; key = 0 }

abbrev server : Instance
server = record {
  syms = record {
    fxn_tab = some (slot (99 ∷ []) 0 ∷ slot (102 ∷ []) 0x100 ∷ []) ∷ replicate 8 none;
    key = 0;
  };
  streams = record { last_id = 0xFFFF; jobs = []; ready = [] ∷ []; sems = 0 ∷ [] };
}

-- The function fails on the word 9, and leaves 8.
abbrev function : ℕ → ℕ → ℕ × List ℕ → ℤ × (ℕ × List ℕ)
function a size d = if d.0 == 9 then (negsuc 0, (8, d.1)) else (pos 0, d)

abbrev packets : ℕ → Packet
packets a = record {
  hdr_type = 0;
  hdr_len = 0;
  desc = 0;
  msg_id = 7;
  pool_id = 0x8000;
  job_id = 0;
  fxn_idx = 2 ^ 31 + 1;
  result = pos 0;
  data_size = 4;
  word = 9;
  words = [];
}

-- The answer to it, and what the function leaves of a reused answer.
abbrev answer : Packet
answer =
    sent_back (with_status (record (packets 0) { desc = 0x100; result = negsuc 0; word = 8 }) 4)

abbrev run_again : Packet
run_again = record (classify rcm_msg answer) { result = pos 0 }

answered :
    process function server packets true (classify rcm_msg (packets 0)) ≡ done server (answer ∷ [])
unfolding process exec_msg get_fxn_addr
answered = refl

exec-Tells_example :
    Tells answer
      (exec_msg function server (classify rcm_msg (packets 0)))
      (exec (λ m. true) (λ id. inr answer) (packets 0))
exec-Tells_example = exec-Tells function server packets true (packets 0) answer server refl answered

has_failed : (exec (λ m. true) (λ id. inr answer) (packets 0)).0 ≡ e_msg_fxn_error
unfolding exec
has_failed = refl

runs_again : exec_msg function server (classify rcm_msg answer) ≡ executed run_again
unfolding exec_msg get_fxn_addr
runs_again = refl

exec-reused_example :
    process function server packets true (classify rcm_msg answer) ≡ done server []
exec-reused_example =
    exec-reused function server packets true (packets 0) answer run_again has_failed runs_again refl

abbrev heap : ℕ → Option (ℕ × List ℕ)
heap n = some (0xFFFFFFFF, [])

abbrev f_query : Packet
f_query = query 6 (102 ∷ []) 0xFFFFFFFF []

abbrev f_index : Packet
f_index = sent_back (record (with_status f_query 0) { word = 2 ^ 31 + 1; result = pos 0 })

f_found : process function server packets true f_query ≡ done server (f_index ∷ [])
unfolding process c_string get_sym_idx sym_from find_name
f_found = refl

get_symbol_index-get_sym_idx_example :
    get_symbol_index (λ m. true) (λ id. inr f_index) heap 6 (102 ∷ [])
    ≡ as_found (get_sym_idx server.syms (102 ∷ [])) f_index
get_symbol_index-get_sym_idx_example =
    get_symbol_index-get_sym_idx function server packets true heap 6 (102 ∷ []) 0xFFFFFFFF []
      f_index server refl ((omega arith, omega arith), tt) (omega arith) f_found

abbrev with_job : Instance
with_job = record server {
  streams = record {
    last_id = 1;
    jobs = record { job_id = 1; is_empty = true; msg_que = [] } ∷ [];
    ready = [] ∷ [];
    sems = 0 ∷ [];
  };
}

abbrev id_given : Packet
id_given =
    sent_back
      (record (with_status (acquisition 6 0xFFFFFFFF []) 0) { word = 0xFFFF0001; result = pos 0 })

id_found :
    process function server packets true (acquisition 6 0xFFFFFFFF [])
    ≡ done with_job (id_given ∷ [])
unfolding process acq_job_id search_id
id_found = refl

acquire_job_id-acq_job_id_example :
    (acquire_job_id (λ m. true) (λ id. inr id_given) heap 6
      ≡ as_acquired (acq_job_id server.streams true).0 id_given)
    × (with_job.streams ≡ (acq_job_id server.streams true).1)
acquire_job_id-acq_job_id_example =
    acquire_job_id-acq_job_id function server packets true heap 6 0xFFFFFFFF [] id_given with_job
      refl (record { tracker = (omega arith, omega arith); distinct = tt }) id_found

abbrev job_released : Packet
job_released = sent_back (record (with_status (release 1 7 0xFFFFFFFF []) 0) { result = pos 0 })

abbrev without_job : Instance
without_job = record with_job { streams = record with_job.streams { jobs = [] } }

id_released :
    process function with_job packets true (release 1 7 0xFFFFFFFF [])
    ≡ done without_job (job_released ∷ [])
unfolding process rel_job_id take_job
id_released = refl

release_job_id-rel_job_id_example :
    ((release_job_id (λ m. true) (λ n. inr job_released) heap 7 1).0.0
      ≡ as_released (rel_job_id with_job.streams packets 1).0.0)
    × (without_job.streams ≡ (rel_job_id with_job.streams packets 1).1)
release_job_id-rel_job_id_example =
    release_job_id-rel_job_id function with_job packets true heap 1 7 0xFFFFFFFF [] job_released []
      without_job refl (omega arith) id_released

later_id_distinct_example :
    (0 < later_id 2 0xFFFF) × (later_id 2 0xFFFF < 2 ^ 16) × (later_id 0 0xFFFF ≢ later_id 2 0xFFFF)
later_id_distinct_example =
    later_id_distinct 0 2 0xFFFF (omega arith) (omega arith) (omega arith) (omega arith)

check_for_error-exec_example : check_for_error (inr (some answer)) ≡ (
    if is_not_found answer
    then (success, message answer)
    else exec (λ m. true) (λ id. inr answer) (packets 0))
check_for_error-exec_example = check_for_error-exec (packets 0) answer (λ e. ground (arith, e))

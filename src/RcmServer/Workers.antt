-- ===== src/RcmServer/Workers.antt =====
-- `RcmServer_workerThrFxn_P`: a round of a worker thread.
pub mod Idle
pub mod Runs
mod Tests
use benchmarks_m3_dsp_unopti.Base.{
  ℕ, zero, suc, ◌-◌, ◌==◌, if◌then◌else◌, Option, none, some, List, [], ◌∷◌, ◌++◌, Bool, true,
  false, ℤ, update, get_or,
}
use benchmarks_m3_dsp_unopti.RcmServer.Jobs.{
  Packet, Job, Streams, Pool, found, not_found, unset, code_of, pool_id_not_found, discrete_job_id,
  take_job, put_job, get_pool, make_ready, sent_back,
}
use benchmarks_m3_dsp_unopti.RcmServer.Process.{
  Instance, Processed, done, wild, process, with_status,
}

-- A worker: its pool, and the packet that it has in hand.
pub record Worker : Type 0 where
  pub pool : ℕ
  pub terminate : Bool
  pub packet : Option ℕ

-- How a round ends: with the packets that were sent, the packet in hand and the memory of the packets;
-- with the thread waiting for the semaphore; with its end; or with a pointer that was not set.
pub data Worked : Type 0 where
  works : Instance → List Packet → Option ℕ → (ℕ → Packet) → Worked
  blocks stops breaks : Worked

abbrev pub status_pool_not_found : ℕ
status_pool_not_found = 8

-- A packet whose pool is not found, as it is returned.
abbrev pub returned : Packet → Packet
returned p =
    sent_back (record (with_status p status_pool_not_found) { result = code_of pool_id_not_found })

abbrev pub with_jobs : Instance → List Job → Instance
with_jobs i js = record i { streams = record i.streams { jobs = js } }

-- What becomes of the next packet of stream `k`: `left` is the rest of its queue.
abbrev pub to_next :
    Instance → ℕ → Job → (ℕ → Packet) → ℕ → List ℕ → List Packet → Bool → Worked → Pool → Worked
to_next i k j packet_at a left ps fails again (found q) =
    works
      (record i {
        streams =
            make_ready
              (record i.streams { jobs = put_job i.streams.jobs k (record j { msg_que = left }) }) q
              a;
      })
      ps none packet_at
to_next i k j packet_at a left ps fails again not_found =
    if fails
    then again
    else works (with_jobs i (put_job i.streams.jobs k (record j { msg_que = left })))
        (ps ++ returned (packet_at a) ∷ []) (some a) (update packet_at a (returned (packet_at a)))
to_next i k j packet_at a left ps fails again unset = breaks

-- `call` is what a function does, `fails` whether MessageQCopy_send fails on a packet.
module _ (call : ℕ → ℕ → ℕ × List ℕ → ℤ × (ℕ × List ℕ)) (fails : Packet → Bool) where
  -- The loop over the packets of stream `k`, with the packet in hand. It goes on while a packet could
  -- not even be returned.
  unfoldable pub next_job :
      Instance → ℕ → Job → (ℕ → Packet) → List ℕ → Option ℕ → List Packet → Worked
  next_job i k j packet_at [] hand ps =
      works (with_jobs i (put_job i.streams.jobs k (record j { is_empty = true; msg_que = [] }))) ps
        hand packet_at
  next_job i k j packet_at (a ∷ left) hand ps =
      let again =
        next_job i k j (update packet_at a (returned (packet_at a))) left (some a)
          (ps ++ returned (packet_at a) ∷ []) in
      to_next i k j packet_at a left ps (fails (returned (packet_at a))) again
        (get_pool i.streams (packet_at a).pool_id)

  abbrev pub of_stream :
      Instance → ℕ → (ℕ → Packet) → List Packet → Option (Job × List Job) → Worked
  of_stream i k packet_at ps none = works i ps none packet_at
  of_stream i k packet_at ps (some (j, js)) = next_job i k j packet_at j.msg_que none ps

  -- What follows the processing of a packet of stream `k`.
  abbrev pub finish : ℕ → (ℕ → Packet) → Processed → Worked
  finish k packet_at (wild ps) = breaks
  finish k packet_at (done i ps) =
      if k == discrete_job_id
      then works i ps none packet_at
      else of_stream i k packet_at ps (take_job i.streams.jobs k)

  abbrev pub serve : Instance → (ℕ → Packet) → Bool → Option ℕ → Worked
  serve i packet_at has_memory none = works i [] none packet_at
  serve i packet_at has_memory (some a) =
      finish (packet_at a).job_id packet_at (process call i packet_at has_memory (packet_at a))

  -- `Semaphore_pend` of a pool, and the first packet of its ready queue.
  abbrev pub pend_at : List ℕ → ℕ → List ℕ
  pend_at [] q = []
  pend_at (n ∷ ns) zero = (n - 1) ∷ ns
  pend_at (n ∷ ns) (suc q) = n ∷ pend_at ns q

  abbrev pub rest_of : List ℕ → List ℕ
  rest_of [] = []
  rest_of (a ∷ l) = l

  abbrev pub first_of : List ℕ → Option ℕ
  first_of [] = none
  first_of (a ∷ l) = some a

  abbrev pub drop_first : List (List ℕ) → ℕ → List (List ℕ)
  drop_first [] q = []
  drop_first (l ∷ ls) zero = rest_of l ∷ ls
  drop_first (l ∷ ls) (suc q) = l ∷ drop_first ls q

  abbrev pub woken : Instance → ℕ → Instance
  woken i q = record i {
    streams = record i.streams {
      sems = pend_at i.streams.sems q;
      ready = drop_first i.streams.ready q;
    };
  }

  abbrev pub wait : Worker → Instance → (ℕ → Packet) → Bool → Option ℕ → Worked
  wait w i packet_at has_memory (some a) =
      if w.terminate then stops else serve i packet_at has_memory (some a)
  wait w i packet_at has_memory none =
      if get_or i.streams.sems w.pool 0 == 0
      then blocks
      else if w.terminate
      then stops
      else serve (woken i w.pool) packet_at has_memory (first_of (get_or i.streams.ready w.pool []))

  -- One round of the loop.
  unfoldable pub work : Worker → Instance → (ℕ → Packet) → Bool → Worked
  work w i packet_at has_memory = wait w i packet_at has_memory w.packet

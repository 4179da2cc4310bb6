-- ===== src/RcmServer/Jobs.antt =====
-- Job streams, worker pools and the dispatch of messages of RcmServer.c. A packet is known by its
-- address; what it holds is read from the memory.
pub mod Ids
pub mod Release
use benchmarks_m3_dsp_unopti.Base.{
  ℕ, zero, suc, ◌+◌, ◌-◌, ◌/◌, ◌%◌, ◌^◌, ltb, ◌==◌, if◌then◌else◌, Option, none, some, List, [],
  ◌∷◌, ◌++◌, Bool, true, false, ◌⊎◌, inl, inr, length, map, ℤ, negsuc, ◌*◌,
}

-- `RcmClient_Packet` with its `RcmClient_Message`: `word` is `data[0]`, `words` what follows it.
pub record Packet : Type 0 where
  pub hdr_type : ℕ
  pub hdr_len : ℕ
  pub desc : ℕ
  pub msg_id : ℕ
  pub pool_id : ℕ
  pub job_id : ℕ
  pub fxn_idx : ℕ
  pub result : ℤ
  pub data_size : ℕ
  pub word : ℕ
  pub words : List ℕ

-- `RcmServer_JobStream`, with the addresses of the packets in its queue.
pub record Job : Type 0 where
  pub job_id : ℕ
  pub is_empty : Bool
  pub msg_que : List ℕ

-- The part of `RcmServer_Object` that holds the streams, and the static pools: their ready queues and the
-- counts of their semaphores.
pub record Streams : Type 0 where
  pub last_id : ℕ
  pub jobs : List Job
  pub ready : List (List ℕ)
  pub sems : List ℕ

abbrev pub discrete_job_id : ℕ
discrete_job_id = 0

-- RcmServer_E_FAIL, RcmServer_E_NOMEMORY, RcmServer_E_JobIdNotFound and RcmServer_E_PoolIdNotFound
pub data Error : Type 0 where
  e_fail e_no_memory job_id_not_found pool_id_not_found : Error

abbrev pub code_of : Error → ℤ
code_of e_fail = negsuc 0
code_of e_no_memory = negsuc 1
code_of job_id_not_found = negsuc 101
code_of pool_id_not_found = negsuc 102

-- Whether a stream has this id.
abbrev pub is_used : List Job → ℕ → Bool
is_used [] k = false
is_used (j ∷ js) k = if j.job_id == k then true else is_used js k

abbrev pub next_id : ℕ → ℕ
next_id k = if k == 0xFFFF then 1 else k + 1

-- The loop of `RcmServer_acqJobId_P`, with `n` rounds left: the id, none if all were used, and the
-- tracker.
unfoldable pub search_id : ℕ → ℕ → List Job → Option ℕ × ℕ
search_id zero last js = (none, last)
search_id (suc n) last js =
    let rest = search_id n (next_id last) js in
    if is_used js (next_id last) then rest else (some (next_id last), next_id last)

abbrev pub new_job : ℕ → Job
new_job k = record { job_id = k; is_empty = true; msg_que = [] }

abbrev pub admit : Streams → Option ℕ × ℕ → Bool → (Error ⊎ ℕ) × Streams
admit s (none, last) has_memory = (inl e_fail, record s { last_id = last })
admit s (some k, last) false = (inl e_no_memory, record s { last_id = last })
admit s (some k, last) true = (inr k, record s { last_id = last; jobs = s.jobs ++ new_job k ∷ [] })

-- `RcmServer_acqJobId_P`: an error or the id, and the new state.
unfoldable pub acq_job_id : Streams → Bool → (Error ⊎ ℕ) × Streams
acq_job_id s has_memory = admit s (search_id 0xFFFF s.last_id s.jobs) has_memory

abbrev pub passed : Job → Option (Job × List Job) → Option (Job × List Job)
passed j none = none
passed j (some (i, is)) = some (i, j ∷ is)

-- The first stream with an id, and the others.
unfoldable pub take_job : List Job → ℕ → Option (Job × List Job)
take_job [] k = none
take_job (j ∷ js) k =
    let rest = take_job js k in if j.job_id == k then some (j, js) else passed j rest

-- `RcmServer_setStatusCode_I` on a descriptor.
abbrev pub set_status : ℕ → ℕ → ℕ
set_status desc code = desc - (desc / 2 ^ 8) % 2 ^ 4 * 2 ^ 8 + code * 2 ^ 8

abbrev pub status_unprocessed : ℕ
status_unprocessed = 6

-- The header of a packet that is sent back: OMX_RAW_MSG and the length behind the header.
abbrev pub raw_msg : ℕ
raw_msg = 5

abbrev pub sent_back : Packet → Packet
sent_back p = record p { hdr_type = raw_msg; hdr_len = 20 + p.data_size }

abbrev pub unprocessed : Packet → Packet
unprocessed p = sent_back (record p { desc = set_status p.desc status_unprocessed })

-- The rest of `RcmServer_relJobId_P`: what is in the queue goes back to the client.
abbrev pub drop_job :
    Streams → (ℕ → Packet) → Option (Job × List Job) → (Option Error × List Packet) × Streams
drop_job s packet_at none = ((some job_id_not_found, []), s)
drop_job s packet_at (some (j, js)) =
    ((none, map (λ a. unprocessed (packet_at a)) j.msg_que), record s { jobs = js })

-- `RcmServer_relJobId_P`: the error, the packets that are sent, and the new state.
unfoldable pub rel_job_id : Streams → (ℕ → Packet) → ℕ → (Option Error × List Packet) × Streams
rel_job_id s packet_at k = drop_job s packet_at (take_job s.jobs k)

-- What `RcmServer_getPool_P` leaves its caller with. It sets no pool for a dynamic id.
pub data Pool : Type 0 where
  found : ℕ → Pool
  not_found unset : Pool

unfoldable pub get_pool : Streams → ℕ → Pool
get_pool s id =
    if (id / 2 ^ 15) % 2 == 1
    then (if ltb (id % 2 ^ 8) (length s.ready) then found (id % 2 ^ 8) else not_found)
    else unset

-- A packet at the end of a pool's ready queue, and the semaphore's post.
abbrev pub push_at : List (List ℕ) → ℕ → ℕ → List (List ℕ)
push_at [] q a = []
push_at (l ∷ ls) zero a = (l ++ a ∷ []) ∷ ls
push_at (l ∷ ls) (suc q) a = l ∷ push_at ls q a

abbrev pub post_at : List ℕ → ℕ → List ℕ
post_at [] q = []
post_at (n ∷ ns) zero = suc n ∷ ns
post_at (n ∷ ns) (suc q) = n ∷ post_at ns q

abbrev pub make_ready : Streams → ℕ → ℕ → Streams
make_ready s q a = record s { ready = push_at s.ready q a; sems = post_at s.sems q }

-- The job list with a packet for a stream that waits for one that is under way, or with the stream
-- marked as busy.
unfoldable pub put_job : List Job → ℕ → Job → List Job
put_job [] k i = []
put_job (j ∷ js) k i = let rest = put_job js k i in if j.job_id == k then i ∷ js else j ∷ rest

-- How a dispatch ends: the new state, an error, or the use of a pool that was not set.
pub data Dispatched : Type 0 where
  dispatched : Streams → Dispatched
  failed : Error → Dispatched
  wild_pool : Dispatched

abbrev pub to_stream : Streams → ℕ → ℕ → ℕ → Option (Job × List Job) → Dispatched
to_stream s q a k none = failed job_id_not_found
to_stream s q a k (some (j, js)) =
    if j.is_empty
    then dispatched
        (make_ready (record s { jobs = put_job s.jobs k (record j { is_empty = false }) }) q a)
    else dispatched
        (record s { jobs = put_job s.jobs k (record j { msg_que = j.msg_que ++ a ∷ [] }) })

abbrev pub to_pool : Streams → ℕ → ℕ → Pool → Dispatched
to_pool s a k not_found = failed pool_id_not_found
to_pool s a k unset = wild_pool
to_pool s a k (found q) =
    if k == discrete_job_id
    then dispatched (make_ready s q a)
    else to_stream s q a k (take_job s.jobs k)

-- `RcmServer_dispatch_P` of the packet at `a`.
unfoldable pub dispatch : Streams → (ℕ → Packet) → ℕ → Dispatched
dispatch s packet_at a = to_pool s a (packet_at a).job_id (get_pool s (packet_at a).pool_id)

-- ===== src/RcmClient/Calls.antt =====
-- The messages of a client of RcmClient.c, and what its calls make of the replies.
pub mod Send
pub mod Remote
pub mod Names
pub mod Jobs
pub mod Ids
mod Tests
use benchmarks_m3_dsp_unopti.Base.{
  ℕ, zero, suc, ◌+◌, ◌-◌, ◌*◌, ◌/◌, ◌%◌, ◌^◌, ltb, ◌==◌, if◌then◌else◌, Option, none, some, List,
  [], ◌∷◌, Bool, true, false, ◌⊎◌, inl, inr, ℤ, pos, length,
}
use Prim.Native.Nat.{bit_or}
use benchmarks_m3_dsp_unopti.RcmServer.Jobs.{Packet, set_status, discrete_job_id}
use benchmarks_m3_dsp_unopti.RcmServer.Process.{
  rcm_msg, dpc, sym_idx, cmd, job_acq, job_rel, type_field, status_success, status_invalid_fxn,
  status_symbol_not_found, status_msg_fxn_err, status_job_not_found, default_pool_id,
}

-- RcmClient_S_SUCCESS and the RcmClient_E_ codes.
pub data Status : Type 0 where
  success e_fail e_exec_async_not_enabled e_exec_failed e_invalid_heap_id e_invalid_fxn_idx : Status
  e_msg_fxn_error e_ipc_error e_list_create_failed e_lost_msg e_msg_alloc_failed : Status
  e_msgq_create_failed e_msgq_open_failed e_server_error e_server_not_found : Status
  e_symbol_not_found e_no_memory e_job_id_not_found : Status

-- What a call leaves in its `returnMsg` argument: what was there, NULL, or a message.
pub data Returned : Type 0 where
  untouched null : Returned
  message : Packet → Returned

-- What a call that has allocated its message frees: nothing, the message that it then has, or a pointer
-- that was never set.
pub data Freed : Type 0 where
  nothing garbage : Freed
  frees : Packet → Freed

-- `RcmClient_genMsgId_P`: the id, which is also the new `msgId`.
abbrev pub gen_msg_id : ℕ → ℕ
gen_msg_id k = if k == 0xFFFF then 1 else (k + 1) % 2 ^ 16

-- `desc |= type << 8`, for a type of four bits.
abbrev pub classify : ℕ → Packet → Packet
classify kind p = record p { desc = set_status p.desc (bit_or (type_field p) kind) }

-- The size of the headers of a packet of MessageQ: eight words, `desc` and `msgId`, and four words.
abbrev pub packet_header : ℕ
packet_header = 52

abbrev pub data_size_of : ℕ → ℕ
data_size_of n = if ltb n 4 then 4 else n

abbrev pub new_packet : ℕ → ℕ → ℕ → List ℕ → Packet
new_packet id n w ws = record {
  hdr_type = 0;
  hdr_len = 0;
  desc = 0;
  msg_id = id;
  pool_id = default_pool_id;
  job_id = discrete_job_id;
  fxn_idx = 0xFFFFFFFF;
  result = pos 0;
  data_size = data_size_of n;
  word = w;
  words = ws;
}

abbrev pub with_memory : ℕ → ℕ → Option (ℕ × List ℕ) → Option Packet × ℕ
with_memory k n none = (none, k)
with_memory k n (some (w, ws)) = (some (new_packet (gen_msg_id k) n w ws), gen_msg_id k)

-- `RcmClient_alloc` with the last id `k`: the message or none, and the last id then. `heap` gives, for
-- a size, the words that the memory holds, or none.
abbrev pub alloc : (ℕ → Option (ℕ × List ℕ)) → ℕ → ℕ → Option Packet × ℕ
alloc heap k n = with_memory k n (heap ((packet_header + data_size_of n) % 2 ^ 32))

-- The status of the reply to a message, a command, a query, an acquisition and a release.
abbrev pub exec_status : Packet → Status
exec_status q =
    if type_field q == status_success
    then success
    else if type_field q == status_invalid_fxn
    then e_invalid_fxn_idx
    else if type_field q == status_msg_fxn_err
    then e_msg_fxn_error
    else e_server_error

abbrev pub error_status : Packet → Status
error_status q =
    if type_field q == status_job_not_found
    then success
    else if type_field q == 8
    then success
    else if type_field q == status_invalid_fxn
    then e_invalid_fxn_idx
    else if type_field q == status_msg_fxn_err
    then e_msg_fxn_error
    else e_server_error

abbrev pub symbol_status : Packet → Status
symbol_status q =
    if type_field q == status_success
    then success
    else if type_field q == status_symbol_not_found
    then e_symbol_not_found
    else e_server_error

abbrev pub acquire_status : Packet → Status
acquire_status q = if type_field q == status_success then success else e_server_error

abbrev pub release_status : Packet → Status
release_status q =
    if type_field q == status_success
    then success
    else if type_field q == status_job_not_found
    then e_job_id_not_found
    else e_server_error

abbrev pub with_reply : (Packet → Status) → Status ⊎ Packet → Status × Returned
with_reply check (inl e) = (e, null)
with_reply check (inr q) = (check q, message q)

abbrev pub always_success : Packet → Status
always_success q = success

-- A reply in the error queue.
abbrev pub with_error : Status ⊎ Option Packet → Status × Returned
with_error (inl e) = (e, null)
with_error (inr none) = (success, null)
with_error (inr (some q)) = (error_status q, message q)

-- `RcmClient_checkForError`; `queue` is what the non-blocking `MessageQ_get` of the error queue yields,
-- with RcmClient_E_IPCERROR for a failure of it.
abbrev pub check_for_error : Status ⊎ Option Packet → Status × Returned
check_for_error queue = with_error queue

-- The end of a call that frees the message that it has, and takes a value from a reply.
abbrev pub with_own :
    (Packet → Status) → (Packet → ℕ) → Status ⊎ Packet → (Status × Option ℕ) × Freed
with_own check value (inl e) = ((e, none), nothing)
with_own check value (inr q) =
    ((check q, if type_field q == status_success then some (value q) else none), frees q)

-- `_strcpy` into memory that holds words: a word of it keeps what is behind the zero byte.
abbrev pub fill_word : List ℕ → ℕ → ℕ
fill_word [] w = w - w % 2 ^ 8
fill_word (a ∷ []) w = w - w % 2 ^ 16 + a
fill_word (a ∷ b ∷ []) w = w - w % 2 ^ 24 + (a + b * 2 ^ 8)
fill_word (a ∷ b ∷ c ∷ []) w = a + b * 2 ^ 8 + c * 2 ^ 16
fill_word (a ∷ b ∷ c ∷ d ∷ cs) w = a + b * 2 ^ 8 + c * 2 ^ 16 + d * 2 ^ 24

abbrev pub copy_name : List ℕ → List ℕ → List ℕ
copy_name cs [] = []
copy_name (a ∷ b ∷ c ∷ d ∷ cs) (w ∷ ws) = fill_word (a ∷ b ∷ c ∷ d ∷ cs) w ∷ copy_name cs ws
copy_name cs (w ∷ ws) = fill_word cs w ∷ ws

abbrev pub first_word : List ℕ → ℕ
first_word [] = 0
first_word (w ∷ ws) = w

abbrev pub other_words : List ℕ → List ℕ
other_words [] = []
other_words (w ∷ ws) = ws

abbrev pub named : List ℕ → Packet → Packet
named name p =
    let ws = copy_name name (p.word ∷ p.words) in
    record p { data_size = suc (length name); word = first_word ws; words = other_words ws }

-- The job id goes into the lower half of the first word.
abbrev pub for_job : ℕ → Packet → Packet
for_job job p = record p { word = p.word - p.word % 2 ^ 16 + job }

-- ===== src/RcmServer/Process.antt =====
-- `RcmServer_process_P` and the loop of the server's thread: what a server does with a message.
pub mod Replies
pub mod Rounds
use benchmarks_m3_dsp_unopti.Base.{
  ℕ, suc, ◌+◌, ◌-◌, ◌*◌, ◌/◌, ◌%◌, ◌^◌, ltb, leb, ◌==◌, if◌then◌else◌, Option, none, some, List, [],
  ◌∷◌, ◌++◌, Bool, true, false, not, ◌&&◌, ◌||◌, ◌⊎◌, inl, inr, ℤ, pos, negsuc, is_neg, update,
  get_or,
}
use benchmarks_m3_dsp_unopti.RcmServer.{
  Server, Target, calls, creates, unset, invalid, reads_outside, get_fxn_addr, get_sym_idx,
}
use benchmarks_m3_dsp_unopti.RcmServer.Jobs.{
  Packet, Streams, Error, code_of, e_fail, e_no_memory, job_id_not_found, pool_id_not_found,
  acq_job_id, rel_job_id, set_status, sent_back, raw_msg, Dispatched, dispatched, failed, wild_pool,
  dispatch,
}

-- The message types and the status codes.
abbrev pub rcm_msg : ℕ
rcm_msg = 1

abbrev pub dpc : ℕ
dpc = 2

abbrev pub sym_idx : ℕ
sym_idx = 4

abbrev pub cmd : ℕ
cmd = 5

abbrev pub job_acq : ℕ
job_acq = 6

abbrev pub job_rel : ℕ
job_rel = 7

abbrev pub status_success : ℕ
status_success = 0

abbrev pub status_invalid_fxn : ℕ
status_invalid_fxn = 1

abbrev pub status_symbol_not_found : ℕ
status_symbol_not_found = 2

abbrev pub status_msg_fxn_err : ℕ
status_msg_fxn_err = 4

abbrev pub status_error : ℕ
status_error = 5

abbrev pub status_job_not_found : ℕ
status_job_not_found = 7

-- The type field of a packet, in which the status is returned.
abbrev pub type_field : Packet → ℕ
type_field p = (p.desc / 2 ^ 8) % 2 ^ 4

abbrev pub with_status : Packet → ℕ → Packet
with_status p code = record p { desc = set_status p.desc code }

-- The string that words hold, up to the first zero byte, lowest byte first.
abbrev pub chars : ℕ → List ℕ → List ℕ
chars w rest =
    if w % 2 ^ 8 == 0
    then []
    else (w % 2 ^ 8)
      ∷ (if (w / 2 ^ 8) % 2 ^ 8 == 0
          then []
          else ((w / 2 ^ 8) % 2 ^ 8)
            ∷ (if (w / 2 ^ 16) % 2 ^ 8 == 0
                then []
                else ((w / 2 ^ 16) % 2 ^ 8)
                  ∷ (if (w / 2 ^ 24) % 2 ^ 8 == 0 then [] else ((w / 2 ^ 24) % 2 ^ 8) ∷ rest)))

unfoldable pub c_string : List ℕ → List ℕ
c_string [] = []
c_string (w ∷ ws) = chars w (c_string ws)

-- An instance of a server.
pub record Instance : Type 0 where
  pub syms : Server
  pub streams : Streams

-- How the execution of a message ends: with its result and data, refused, or by a call of a pointer
-- that was not set, or is NULL.
pub data Executed : Type 0 where
  executed : Packet → Executed
  refused wild_call : Executed

-- How the processing of a message ends, with the packets that are sent to the client.
pub data Processed : Type 0 where
  done : Instance → List Packet → Processed
  wild : List Packet → Processed

-- `call` is what a function does with the size and the words of the data: its result and the words that
-- it leaves.
module _ (call : ℕ → ℕ → ℕ × List ℕ → ℤ × (ℕ × List ℕ)) where
  abbrev pub run_at : Packet → ℕ → Executed
  run_at p a =
      let r = call a p.data_size (p.word, p.words) in
      if a == 0
      then wild_call
      else executed (record p { result = r.0; word = r.1.0; words = r.1.1 })

  abbrev pub run_target : Packet → Target → Executed
  run_target p (calls a) = run_at p a
  run_target p (creates a) = run_at p a
  run_target p unset = wild_call
  run_target p invalid = refused
  run_target p reads_outside = wild_call

  -- `RcmServer_execMsg_I`
  unfoldable pub exec_msg : Instance → Packet → Executed
  exec_msg i p = run_target p (get_fxn_addr i.syms p.fxn_idx)

  -- The reply to a message and to a command.
  abbrev pub msg_reply : Instance → Packet → Executed → Processed
  msg_reply i p (executed q) = done i (
      sent_back (with_status q (if is_neg q.result then status_msg_fxn_err else status_success))
      ∷ [])
  msg_reply i p refused = done i (sent_back (with_status p status_invalid_fxn) ∷ [])
  msg_reply i p wild_call = wild []

  abbrev pub cmd_reply : Instance → Packet → Executed → Processed
  cmd_reply i p (executed q) =
      if is_neg q.result
      then done i (sent_back (with_status q status_msg_fxn_err) ∷ [])
      else done i []
  cmd_reply i p refused = done i (sent_back (with_status p status_invalid_fxn) ∷ [])
  cmd_reply i p wild_call = wild []

  -- A deferred call is made after the reply, also for an index that is refused.
  abbrev pub dpc_reply : Instance → Packet → Target → Processed
  dpc_reply i p (calls a) = if a == 0 then wild (sent_back p ∷ []) else done i (sent_back p ∷ [])
  dpc_reply i p (creates a) = if a == 0 then wild (sent_back p ∷ []) else done i (sent_back p ∷ [])
  dpc_reply i p unset = wild (sent_back p ∷ [])
  dpc_reply i p invalid = wild (sent_back (with_status p status_symbol_not_found) ∷ [])
  dpc_reply i p reads_outside = wild (sent_back p ∷ [])

  abbrev pub sym_reply : Instance → Packet → Option ℕ → Processed
  sym_reply i p none = done i (sent_back (with_status p status_symbol_not_found) ∷ [])
  sym_reply i p (some idx) =
      done i (sent_back (record (with_status p status_success) { word = idx; result = pos 0 }) ∷ [])

  -- The id goes into the lower half of the first word.
  abbrev pub acq_reply : Instance → Packet → (Error ⊎ ℕ) × Streams → Processed
  acq_reply i p (inl e, s) =
      done (record i { streams = s }) (sent_back (with_status p status_error) ∷ [])
  acq_reply i p (inr k, s) =
      done (record i { streams = s })
        (sent_back (record (with_status p status_success) {
          word = p.word - p.word % 2 ^ 16 + k;
          result = pos 0;
        })
          ∷ [])

  abbrev pub rel_status : Error → ℕ
  rel_status e_fail = status_error
  rel_status e_no_memory = status_error
  rel_status job_id_not_found = status_job_not_found
  rel_status pool_id_not_found = status_error

  abbrev pub rel_reply : Instance → Packet → (Option Error × List Packet) × Streams → Processed
  rel_reply i p ((some e, ps), s) =
      done (record i { streams = s })
        (ps ++ sent_back (record (with_status p (rel_status e)) { result = code_of e }) ∷ [])
  rel_reply i p ((none, ps), s) =
      done (record i { streams = s })
        (ps ++ sent_back (record (with_status p status_success) { result = pos 0 }) ∷ [])

  -- `RcmServer_process_P` of a packet; `packet_at` is the memory with the queued packets, `has_memory`
  -- says whether there is memory for a stream. The other message types are ignored.
  unfoldable pub process : Instance → (ℕ → Packet) → Bool → Packet → Processed
  process i packet_at has_memory p =
      if type_field p == rcm_msg
      then msg_reply i p (exec_msg i p)
      else if type_field p == cmd
      then cmd_reply i p (exec_msg i p)
      else if type_field p == dpc
      then dpc_reply i p (get_fxn_addr i.syms p.fxn_idx)
      else if type_field p == sym_idx
      then sym_reply i p (get_sym_idx i.syms (c_string (p.word ∷ p.words)))
      else if type_field p == job_acq
      then acq_reply i p (acq_job_id i.streams has_memory)
      else if type_field p == job_rel
      then rel_reply i p (rel_job_id i.streams packet_at (p.word % 2 ^ 16))
      else done i []

-- How a round of the server's thread ends: it goes on, with the packets that it has sent; it leaves the
-- loop; an assertion fails; or a pointer that was not set is used.
pub data Round : Type 0 where
  goes_on : Instance → List Packet → Round
  leaves asserts breaks : Round

-- The thread itself: its buffer, `shutdown`, and whether the default pool has no worker.
pub record Thread : Type 0 where
  pub buffer : ℕ
  pub shutdown : Bool
  pub in_band : Bool

abbrev pub disc_req : ℕ
disc_req = 4

abbrev pub default_pool_id : ℕ
default_pool_id = 0x8000

-- The reply to a message that is not dispatched: 4 bytes behind the header, of a fixed content.
abbrev pub error_reply : Packet → Error → Packet
error_reply p e = record p {
  result = code_of e;
  hdr_type = raw_msg;
  hdr_len = 4;
  desc = 0x4142;
  msg_id = 0x0044;
}

abbrev pub after_process : Processed → Round
after_process (done i ps) = goes_on i ps
after_process (wild ps) = breaks

abbrev pub after_dispatch : Instance → Packet → Dispatched → Round
after_dispatch i p (dispatched s) = goes_on (record i { streams = s }) []
after_dispatch i p (failed e) = goes_on i (error_reply p e ∷ [])
after_dispatch i p wild_pool = breaks

-- The tests on a packet of `len` bytes that was received.
abbrev pub accept : Thread → ℕ → Packet → Round → Round
accept t len p r =
    if ltb 512 len
    then asserts
    else if not ((p.hdr_type == raw_msg) || (p.hdr_type == disc_req))
    then asserts
    else if t.shutdown || (p.hdr_type == disc_req)
    then leaves
    else r

module _ (call : ℕ → ℕ → ℕ × List ℕ → ℤ × (ℕ × List ℕ)) where
  -- What the thread does with the packet in its buffer.
  abbrev pub handle : Thread → Instance → (ℕ → Packet) → Bool → Packet → Round
  handle t i packet_at has_memory p =
      if (p.pool_id == default_pool_id) && t.in_band
      then after_process (process call i packet_at has_memory p)
      else after_dispatch i p (dispatch i.streams packet_at t.buffer)

  -- One round of `RcmServer_serverThrFxn_P`, from the receipt of `len` bytes in the thread's buffer.
  unfoldable pub round : Thread → Instance → (ℕ → Packet) → Bool → ℕ → Round
  round t i packet_at has_memory len =
      accept t len (packet_at t.buffer) (handle t i packet_at has_memory (packet_at t.buffer))

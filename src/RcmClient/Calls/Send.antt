-- ===== src/RcmClient/Calls/Send.antt =====
-- The calls of RcmClient.c: what each sends, and what it returns. `put` is MessageQ_put, and whether it
-- succeeds; `get` is what `RcmClient_getReturnMsg_P` yields for a message id.
use benchmarks_m3_dsp_unopti.Base.{
  ℕ, suc, ◌%◌, ◌^◌, if◌then◌else◌, Option, none, some, List, Bool, not, ◌⊎◌, length,
}
use benchmarks_m3_dsp_unopti.RcmServer.Jobs.{Packet}
use benchmarks_m3_dsp_unopti.RcmServer.Process.{rcm_msg, dpc, sym_idx, cmd, job_acq, job_rel}
use benchmarks_m3_dsp_unopti.RcmClient.Calls.{
  Status, success, e_fail, e_exec_async_not_enabled, e_exec_failed, e_ipc_error, e_msg_alloc_failed,
  Returned, untouched, Freed, nothing, garbage, frees, classify, alloc, exec_status, symbol_status,
  acquire_status, release_status, with_reply, always_success, with_own, named, for_job,
}

module _ (put : Packet → Bool) (get : ℕ → Status ⊎ Packet) where
  -- `RcmClient_exec`
  unfoldable pub exec : Packet → Status × Returned
  exec p =
      if put (classify rcm_msg p)
      then with_reply exec_status (get p.msg_id)
      else (e_exec_failed, untouched)

  -- `RcmClient_execDpc`
  unfoldable pub exec_dpc : Packet → Status × Returned
  exec_dpc p =
      if put (classify dpc p)
      then with_reply always_success (get p.msg_id)
      else (e_exec_failed, untouched)

  -- `RcmClient_execCmd`
  unfoldable pub exec_cmd : Packet → Status
  exec_cmd p = if put (classify cmd p) then success else e_ipc_error

  -- `RcmClient_execNoWait`: the status and the message id, 0 for RcmClient_INVALIDMSGID.
  unfoldable pub exec_no_wait : Packet → Status × ℕ
  exec_no_wait p = if put (classify rcm_msg p) then (success, p.msg_id) else (e_exec_failed, 0)

  -- `RcmClient_execAsync`, which never makes its callback.
  unfoldable pub exec_async : Bool → Packet → Status
  exec_async cb_notify p =
      if not cb_notify
      then e_exec_async_not_enabled
      else if put (classify rcm_msg p)
      then success
      else e_exec_failed

  -- `RcmClient_waitUntilDone`
  unfoldable pub wait_until_done : ℕ → Status × Returned
  wait_until_done id = with_reply always_success (get id)

  abbrev pub ask_index : List ℕ → Option Packet → (Status × Option ℕ) × Freed
  ask_index name none = ((e_msg_alloc_failed, none), nothing)
  ask_index name (some p) =
      let m = classify sym_idx (named name p) in
      if put m
      then with_own symbol_status (λ q. q.word) (get m.msg_id)
      else ((e_exec_failed, none), frees m)

  -- `RcmClient_getSymbolIndex`: the status and the index, and what it frees. The last id `k` is that of
  -- the client.
  unfoldable pub get_symbol_index :
      (ℕ → Option (ℕ × List ℕ)) → ℕ → List ℕ → (Status × Option ℕ) × Freed
  get_symbol_index heap k name = ask_index name (alloc heap k (suc (length name))).0

  abbrev pub ask_id : Option Packet → (Status × Option ℕ) × Freed
  ask_id none = ((e_msg_alloc_failed, none), garbage)
  ask_id (some p) =
      let m = classify job_acq p in
      if put m
      then with_own acquire_status (λ q. q.word % 2 ^ 16) (get m.msg_id)
      else ((e_fail, none), frees m)

  -- `RcmClient_acquireJobId`: without memory, the message pointer is freed that it has not set.
  unfoldable pub acquire_job_id : (ℕ → Option (ℕ × List ℕ)) → ℕ → (Status × Option ℕ) × Freed
  acquire_job_id heap k = ask_id (alloc heap k 2).0

  abbrev pub give_back : ℕ → Option Packet → (Status × Option ℕ) × Freed
  give_back job none = ((e_msg_alloc_failed, none), garbage)
  give_back job (some p) =
      let m = for_job job (classify job_rel p) in
      if put m then with_own release_status (λ q. job) (get m.msg_id) else ((e_fail, none), frees m)

  -- `RcmClient_releaseJobId`, with the same flaw.
  unfoldable pub release_job_id : (ℕ → Option (ℕ × List ℕ)) → ℕ → ℕ → (Status × Option ℕ) × Freed
  release_job_id heap k job = give_back job (alloc heap k 2).0

-- `RcmClient_free`; `put` is MessageQ_free here. `RcmClient_addSymbol` and `RcmClient_removeSymbol`
-- are not written yet.
abbrev pub free : (Packet → Bool) → Packet → Status
free put p = if put p then success else e_ipc_error

abbrev pub add_symbol : List ℕ → ℕ → Status
add_symbol name address = e_fail

abbrev pub remove_symbol : List ℕ → Status
remove_symbol name = e_fail

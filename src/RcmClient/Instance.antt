-- ===== src/RcmClient/Instance.antt =====
-- The creation and deletion of a client of RcmClient.c, with IPC's lists.
pub mod Creation
mod Tests
use benchmarks_m3_dsp_unopti.Base.{
  ℤ, incr, decr, ℕ, ◌≡◌, ◌==◌, if◌then◌else◌, Option, none, some, Bool, true, false,
}
use benchmarks_m3_dsp_unopti.RcmClient.Calls.{
  Status, success, e_fail, e_invalid_heap_id, e_list_create_failed, e_msgq_create_failed,
  e_server_not_found, e_no_memory,
}

-- `RcmClient_Params`
pub record Params : Type 0 where
  pub heap_id : ℕ
  pub callback_notification : Bool

abbrev pub invalid_heap_id : ℕ
invalid_heap_id = 0xFFFF

-- `RcmClient_Params_init`
abbrev pub params_init : Params
params_init = record { heap_id = invalid_heap_id; callback_notification = false }

-- `RcmClient_Object`: which of its parts there are, that is, which handles are not NULL, and not
-- MessageQ_INVALIDMESSAGEQ for the server's queue.
pub record Object : Type 0 where
  pub gate : Bool
  pub msg_que : Bool
  pub error_msg_que : Bool
  pub sync : Bool
  pub server_msg_q : Bool
  pub mbx_lock : Bool
  pub queue_lock : Bool
  pub recipients : Bool
  pub new_mail : Bool

abbrev pub no_parts : Object
no_parts = record {
  gate = false;
  msg_que = false;
  error_msg_que = false;
  sync = false;
  server_msg_q = false;
  mbx_lock = false;
  queue_lock = false;
  recipients = false;
  new_mail = false;
}

-- What `MessageQ_open` returns: success, MessageQ_E_NOTFOUND or another error.
pub data Opened : Type 0 where
  opened not_found not_opened : Opened

-- Which of the calls that `RcmClient_Instance_init` makes succeed.
pub record Outcomes : Type 0 where
  pub makes_gate : Bool
  pub makes_sync : Bool
  pub makes_msg_que : Bool
  pub makes_error_msg_que : Bool
  pub opens : Opened
  pub makes_mbx_lock : Bool
  pub makes_queue_lock : Bool
  pub makes_recipients : Bool
  pub makes_new_mail : Bool

-- A call that makes a part, or NULL: what follows, or the code for its failure, with what there is.
abbrev pub made : Bool → Status → Object → Status × Object → Status × Object
made true e o next = next
made false e o next = (e, o)

-- From the mailbox lock on.
abbrev pub init_mailbox : Outcomes → Object → Status × Object
init_mailbox x o =
    let with_mbx = record o { mbx_lock = x.makes_mbx_lock } in
    let with_queue = record with_mbx { queue_lock = x.makes_queue_lock } in
    let with_recipients = record with_queue { recipients = x.makes_recipients } in
    let with_new_mail = record with_recipients { new_mail = x.makes_new_mail } in
    made x.makes_mbx_lock e_fail with_mbx (
      made x.makes_queue_lock e_fail with_queue (
        made x.makes_recipients e_list_create_failed with_recipients
          (made x.makes_new_mail e_list_create_failed with_new_mail (success, with_new_mail))))

-- With callbacks, which are not implemented, the function leaves with the code for success.
abbrev pub init_heap : Params → Outcomes → Object → Status × Object
init_heap ps x o =
    if ps.callback_notification
    then (success, o)
    else if ps.heap_id == invalid_heap_id
    then (e_invalid_heap_id, o)
    else init_mailbox x o

-- The source tests `status` in place of `rval` for an error other than MessageQ_E_NOTFOUND.
abbrev pub init_server : Params → Outcomes → Opened → Object → Status × Object
init_server ps x opened o = init_heap ps x (record o { server_msg_q = true })
init_server ps x not_found o = (e_server_not_found, o)
init_server ps x not_opened o = init_heap ps x o

-- `RcmClient_Instance_init`
unfoldable pub instance_init : Params → Outcomes → Status × Object
instance_init ps x =
    let with_gate = record no_parts { gate = x.makes_gate } in
    let with_sync = record with_gate { sync = x.makes_sync } in
    let with_msg_que = record with_sync { msg_que = x.makes_msg_que } in
    let with_error_que = record with_msg_que { error_msg_que = x.makes_error_msg_que } in
    made x.makes_gate e_fail with_gate (
      made x.makes_sync e_fail with_sync (
        made x.makes_msg_que e_msgq_create_failed with_msg_que (
          made x.makes_error_msg_que e_msgq_create_failed with_error_que
            (init_server ps x x.opens with_error_que))))

-- A part that is deleted when it is there.
abbrev pub deleted : Bool → Bool
deleted true = false
deleted false = false

-- `RcmClient_Instance_finalize`: the gate is destructed in any case.
unfoldable pub instance_finalize : Object → Object
instance_finalize o = record {
  new_mail = deleted o.new_mail;
  recipients = deleted o.recipients;
  queue_lock = deleted o.queue_lock;
  mbx_lock = deleted o.mbx_lock;
  server_msg_q = deleted o.server_msg_q;
  error_msg_que = deleted o.error_msg_que;
  msg_que = deleted o.msg_que;
  sync = deleted o.sync;
  gate = false;
}

-- What a creation or a deletion leaves: the status, the object of the handle, and the parts that are
-- there without a handle.
pub record Created : Type 0 where
  pub status : Status
  pub handle : Option Object
  pub left : Object

abbrev pub is_success : Status → Bool
is_success success = true
is_success _ = false

abbrev pub init_or_finalize : Status × Object → Created
init_or_finalize (s, o) =
    if is_success s
    then record { status = s; handle = some o; left = no_parts }
    else record { status = s; handle = none; left = instance_finalize o }

-- `RcmClient_create`; `has_memory` says whether there is memory for the object.
unfoldable pub create : Params → Outcomes → Bool → Created
create ps x true = init_or_finalize (instance_init ps x)
create ps x false = record { status = e_no_memory; handle = none; left = no_parts }

-- `RcmClient_delete`: the handle is NULL then.
unfoldable pub delete : Object → Created
delete o = record { status = success; handle = none; left = instance_finalize o }

-- `RcmClient_construct`, in memory of the caller, and `RcmClient_destruct`.
abbrev pub in_place : Status × Object → Status × Object
in_place (s, o) = (s, if is_success s then o else instance_finalize o)

unfoldable pub construct : Params → Outcomes → Status × Object
construct ps x = in_place (instance_init ps x)

unfoldable pub destruct : Object → Object
destruct o = instance_finalize o

-- `RcmClient_init` and `RcmClient_exit`: the count of the module's users.
abbrev pub init : ℤ → ℤ
init users = incr users

abbrev pub exit : ℤ → ℤ
exit users = decr users

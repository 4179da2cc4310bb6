-- ===== src/RcmClient/Instance/Tests.antt =====
-- The creation of a client, where MessageQ_open fails.
use benchmarks_m3_dsp_unopti.Base.{true, false}
use benchmarks_m3_dsp_unopti.RcmClient.Instance.{Params, Outcomes, not_opened, create}
use benchmarks_m3_dsp_unopti.RcmClient.Instance.Creation.{Creates, create-Creates}

abbrev params : Params
params = record { heap_id = 3; callback_notification = false }

abbrev outcomes : Outcomes
outcomes = record {
  makes_gate = true;
  makes_sync = true;
  makes_msg_que = true;
  makes_error_msg_que = true;
  opens = not_opened;
  makes_mbx_lock = true;
  makes_queue_lock = true;
  makes_recipients = true;
  makes_new_mail = true;
}

create-Creates_example : Creates params outcomes true (create params outcomes true)
create-Creates_example = create-Creates params outcomes true

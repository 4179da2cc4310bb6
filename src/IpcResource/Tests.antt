-- ===== src/IpcResource/Tests.antt =====
-- The resource manager's client on concrete inputs.
use benchmarks_m3_dsp_unopti.Base.{
  ◌+◌, ◌≡◌, refl, ◌↔◌, none, some, [], ◌∷◌, true, false, pos, negsuc, replicate, if◌then◌else◌,
}
use benchmarks_m3_dsp_unopti.IpcResource.{
  s_success, Channel, Reply, Resources, connect, disconnect, gpio, returns, res_len, req_data_len,
  translate_error,
}
use benchmarks_m3_dsp_unopti.IpcResource.Exchange.{
  request, request_data, set_constraints, take, alloc_len, is_processor, Grant, release_constraints,
  request_for, answer_status,
}
use benchmarks_m3_dsp_unopti.IpcResource.Channels.{
  Use, use_after, connected, use_after-connect, use_after-disconnect,
}
use benchmarks_m3_dsp_unopti.IpcResource.Requests.{
  actions, held, sem_of, asks_resource, held-actions,
}
use benchmarks_m3_dsp_unopti.IpcResource.Success.{
  Succeeds, handed, request-Succeeds, request_data-Succeeds,
}

abbrev accepted : Reply
accepted = record {
  status = pos 0;
  len = 8;
  source = 60;
  ack_status = 0;
  res_handle = 0;
  data_bytes = [];
}

abbrev late : Reply
late = record accepted { status = negsuc 5 }

-- The host's answer to a request for a pin of four bytes.
abbrev pin : Reply
pin = record accepted { len = 20; res_handle = 77; data_bytes = 1 ∷ 2 ∷ 3 ∷ 4 ∷ [] }

abbrev offer : Resources
offer = record { has_memory = true; new_sem = 9; new_queue = some (3, 101) }

abbrev channel : Channel
channel = record { endpoint = 101; remote = 60; timeout = 500; sem = 9; msgq = 3 }

abbrev nothing : Use
nothing = record { objects = 0; sems = 0; queues = 0; announced = 0 }

connect-offer : (connect offer accepted 0).0 ≡ some channel
unfolding connect translate_error
connect-offer = refl

connect-late : (connect offer late 0).0 ≡ none
unfolding connect translate_error
connect-late = refl

request-pin :
    (request (some channel) true 10 (some (5 ∷ 6 ∷ 7 ∷ 8 ∷ [])) (pos 0) pin).0
    ≡ returns (pos 0, some (77, 1 ∷ 2 ∷ 3 ∷ 4 ∷ []))
unfolding request request_for answer_status translate_error res_len
request-pin = refl

-- The host has no such resource: -ENOENT is -2, and the result is IpcResource_E_NORESOURCE.
request-absent :
    (request
      (some channel)
      true
      10
      (some (5 ∷ 6 ∷ 7 ∷ 8 ∷ []))
      (pos 0)
      (record pin { ack_status = 4294967294 })).0
    ≡ returns (negsuc 10, none)
unfolding request request_for answer_status translate_error res_len
request-absent = refl

release-constraints :
    (release_constraints (some channel) 77 (some (replicate 20 0)) (pos 0) late).0 ≡ returns (pos 0)
unfolding release_constraints set_constraints
release-constraints = refl

use_after-connect_example :
    use_after nothing (connect offer late 0).1 ≡ connected nothing true (connect offer late 0).0
use_after-connect_example = use_after-connect offer late 0 nothing

use_after-disconnect_example :
    use_after
      (use_after nothing (connect offer accepted 0).1)
      (disconnect (some channel) s_success).1
    ≡ nothing
use_after-disconnect_example = use_after-disconnect offer accepted 0 channel nothing connect-offer

held-actions_example :
    held
      (sem_of (some channel))
      0
      (actions (some channel) (asks_resource true 10 (some (5 ∷ 6 ∷ 7 ∷ 8 ∷ []))) (pos 0) late)
    ≡ some 0
held-actions_example =
    held-actions (some channel) (asks_resource true 10 (some (5 ∷ 6 ∷ 7 ∷ 8 ∷ []))) (pos 0) late

abbrev returned : Grant
returned = (77, (if is_processor 10 then 5 ∷ [] else take (res_len 10) (1 ∷ 2 ∷ 3 ∷ 4 ∷ [])))

request-Succeeds_example :
    (handed (request (some channel) true 10 (some (5 ∷ [])) (pos 0) pin).0
      ≡ some (77, 1 ∷ 2 ∷ 3 ∷ 4 ∷ []))
    ↔ (Succeeds channel (pos 0) pin true
        × (20 ≡ alloc_len 10 + 8 + 8)
        × (returned ≡ (77, 1 ∷ 2 ∷ 3 ∷ 4 ∷ [])))
request-Succeeds_example =
    request-Succeeds channel 10 gpio (5 ∷ []) (pos 0) pin (77, 1 ∷ 2 ∷ 3 ∷ 4 ∷ []) refl

request_data-Succeeds_example :
    (handed (request_data (some channel) 77 0 true (pos 0) (record pin { len = 12 })).0
      ≡ some (1 ∷ 2 ∷ 3 ∷ 4 ∷ []))
    ↔ (Succeeds channel (pos 0) (record pin { len = 12 }) false
        × (12 ≡ req_data_len 0 + 8)
        × (take (req_data_len 0) (1 ∷ 2 ∷ 3 ∷ 4 ∷ []) ≡ 1 ∷ 2 ∷ 3 ∷ 4 ∷ []))
request_data-Succeeds_example =
    request_data-Succeeds channel 77 0 (pos 0) (record pin { len = 12 }) (1 ∷ 2 ∷ 3 ∷ 4 ∷ [])

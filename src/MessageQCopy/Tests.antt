-- ===== src/MessageQCopy/Tests.antt =====
-- Endpoints and messages on concrete inputs, over the plain semaphores, heaps and lists.
use benchmarks_m3_dsp_unopti.Base.{
  ℕ, zero, suc, ◌+◌, ◌*◌, ◌≡◌, refl, subst, update, eq_of_get_elem?-replicate, map, none, some, [],
  ◌∷◌, true, false, get_elem?, replicate, arith,
}
use benchmarks_m3_dsp_unopti.Bios.{Bios}
use benchmarks_m3_dsp_unopti.MessageQCopy.{
  Elem, success, returns, reads_outside, assign_any, Endpoint, Module, put_object, choose_slot,
  new_endpoint, create, send_local, take_message, recv, deliver,
}
use mathlib.Core.Option.{some-injective}
use benchmarks_m3_dsp_unopti.Bios.Tests.{plain}
use benchmarks_m3_dsp_unopti.VirtQueue.{VirtQueue, kick, map_pa_to_va, clear_no_notify}
use benchmarks_m3_dsp_unopti.VirtQueue.Fifo.{available, used_from, IsValid, with_avail}
use benchmarks_m3_dsp_unopti.MessageQCopy.Invariant.{IsSound, Inv}
use benchmarks_m3_dsp_unopti.MessageQCopy.Receive.{Receives, recv-Receives}
use benchmarks_m3_dsp_unopti.MessageQCopy.Delivery.{Sends, send_local-Sends}
use benchmarks_m3_dsp_unopti.MessageQCopy.Endpoints.{Creates, create-Creates}
use benchmarks_m3_dsp_unopti.MessageQCopy.Blocks.{all_blocks, sends, Call-keeps}
use benchmarks_m3_dsp_unopti.MessageQCopy.Transport.{Link, write_msg, swi_loop, send_remote}
use benchmarks_m3_dsp_unopti.MessageQCopy.Drain.{Drains, pass_all, msg_at, swi_loop_lem}
use benchmarks_m3_dsp_unopti.VirtQueue.Taking.{entry}
use benchmarks_m3_dsp_unopti.MessageQCopy.RemoteSend.{send_remote_sends, send_remote_waits}

abbrev bios : Bios Elem
bios = plain Elem

abbrev hello : Elem
hello = record { len = 2; src = 53; payload = 7 ∷ 8 ∷ [] }

-- Endpoint 61 with one message, in a module with four free blocks.
abbrev endpoint : Endpoint bios
endpoint = record { queue_id = 0; sem = 1; queue = hello ∷ []; is_unblocked = false }

abbrev running : Module bios
running = record { cur_init = 1; objects = some endpoint ∷ replicate 255 none; heap = 4 }

running-Inv : Inv bios running
running-Inv = record { size = refl; each = sound }
  where
    sound :
        (i : ℕ) (e : Endpoint bios) → get_elem? running.objects i ≡ some (some e) → IsSound bios i e
    sound zero e h =
        subst (IsSound bios 0) (some-injective _ _ (some-injective _ _ h))
          (record { own_slot = refl; counted = λ u. refl })
    sound (suc i) e h = absurd (ground (arith, eq_of_get_elem?-replicate 255 i none (some e) h))

recv-Receives_example : Receives bios running 0 endpoint (recv bios running 0 endpoint)
recv-Receives_example = recv-Receives bios running 0 endpoint running-Inv (omega arith) refl

recv-hello :
    recv bios running 0 endpoint
    ≡ returns (
      record { status = success; message = some hello },
      record running {
        heap = 5;
        objects = some (record endpoint { sem = 0; queue = [] }) ∷ replicate 255 none;
      },
    )
unfolding recv take_message
recv-hello = refl

abbrev text : ℕ → ℕ
text i = 65 + i

send_local-Sends_example :
    Sends bios running 0
      (record { len = 2; src = 9; payload = 65 ∷ 66 ∷ [] })
      (send_local bios running 0 9 text 2)
send_local-Sends_example = send_local-Sends bios running 0 9 2 text (omega arith)

-- 256 is no endpoint, and is not refused.
send_local-outside : send_local bios running 256 9 text 2 ≡ reads_outside
unfolding send_local
send_local-outside = refl

create-Creates_example : Creates bios running assign_any true (create bios running assign_any true)
create-Creates_example = create-Creates bios running assign_any true refl (omega arith)

-- The number 65537 is given endpoint 1.
create-truncates :
    (create bios running 65537 true)
    ≡ returns (some 1, put_object bios running 1 (some (new_endpoint bios 1)))
unfolding create choose_slot
create-truncates = refl

-- The state after that message.
sent-text : send_local bios running 0 9 text 2 ≡ returns (deliver bios running 0 9 text 2 endpoint)
unfolding send_local
sent-text = refl

Call-keeps_example :
    Inv bios (deliver bios running 0 9 text 2 endpoint).1
    × (all_blocks bios (deliver bios running 0 9 text 2 endpoint).1 ≡ all_blocks bios running)
Call-keeps_example = Call-keeps bios running-Inv (omega arith) (sends 0 9 2 text _ sent-text)

-- The host's queue with the descriptors 0 and 1, and one to the host with a free descriptor 5.
abbrev queue_at : ℕ → ℕ → VirtQueue
queue_at first last = record {
  id = 1;
  vring = record {
    num = 256;
    desc = λ i. record { addr = 0x9cf00000 + 512 * i; len = 512 };
    avail = record { flags = 0; idx = last; ring = λ i. i };
    used = record { flags = 1; idx = first; ring = λ i. record { id = 0; len = 0 } };
  };
  num_free = 0;
  last_avail_idx = first;
  last_used_idx = 0;
  proc_id = 3;
}

abbrev link : Link bios
link = record {
  state = running;
  from_host = queue_at 0 2;
  to_host = queue_at 5 6;
  buffers = λ a. record {
    src_addr = 1;
    dst_addr = 0;
    reserved = 0;
    data_len = 2;
    flags = 0;
    payload = text;
  };
}

swi_loop_lem_example :
    Drains bios link.buffers link.from_host.vring.desc link.to_host 0
      (pass_all bios running
        (map (msg_at bios link.buffers link.from_host.vring.desc) (0 ∷ 1 ∷ [])))
      link
      false
      (0 ∷ 1 ∷ [])
      (swi_loop bios 3 link false)
swi_loop_lem_example =
    swi_loop_lem bios 3 0 link (omega arith) (omega arith) (omega arith) (omega arith) (omega arith)

abbrev waiting_link : Link bios
waiting_link = record link { to_host = queue_at 5 5 }

send_remote_waits_example :
    (send_remote bios [] waiting_link 53 61 text 2 ≡ none)
    × (send_remote bios (link.to_host.vring.avail ∷ []) waiting_link 53 61 text 2
        ≡ send_remote bios []
            (record waiting_link {
              to_host =
                  with_avail
                    (record (waiting_link.to_host) {
                      vring = clear_no_notify waiting_link.to_host.vring;
                    })
                    link.to_host.vring.avail;
            })
            53
            61
            text
            2)
send_remote_waits_example =
    send_remote_waits bios waiting_link 53 61 2 text [] link.to_host.vring.avail (omega arith) refl

send_remote_sends_example :
    (w : VirtQueue) × (send_remote bios [] link 53 61 text 2
      ≡ some (
          returns (record {
            status = success;
            interrupt = kick w;
            link = record link {
              to_host = w;
              buffers =
                  (let a = map_pa_to_va (0x9cf00000 + 512 * 5) in
                    update link.buffers a (write_msg bios (link.buffers a) 53 61 text 2));
            };
          })))
    × (available w ≡ [])
    × (used_from w 5 ≡ entry 5 ∷ [])
    × IsValid w
send_remote_sends_example =
    send_remote_sends bios link 53 61 2 text [] 5 [] 5 (omega arith) refl (omega arith)
      (omega arith) (omega arith)

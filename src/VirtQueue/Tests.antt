-- ===== src/VirtQueue/Tests.antt =====
-- VirtQueues on concrete inputs.
use benchmarks_m3_dsp_unopti.Base.{
  ℕ, suc, ◌+◌, ◌*◌, ◌%◌, ◌^◌, ◌<◌, ◌≤◌, ◌≡◌, ◌≢◌, refl, ◌⊎◌, inl, ◌↔◌, pos, negsuc, none, some, [],
  ◌∷◌, ◌++◌, true, false, set, get_elem?, arith,
}
use benchmarks_m3_dsp_unopti.VirtQueue.{
  VirtQueue, Vring, Avail, UsedElem, done, raised, get_avail_buf, add_used_buf, get_used_buf,
  add_avail_buf, cache_wb, map_pa_to_va,
}
use benchmarks_m3_dsp_unopti.VirtQueue.Fifo.{
  available, used_from, IsValid, Publishes, with_avail, Takes, get_avail_buf-Takes,
}
use benchmarks_m3_dsp_unopti.VirtQueue.Traffic.{starts, publishes, takes, Traffic-in_order}
use benchmarks_m3_dsp_unopti.VirtQueue.UsedRing.{
  used_from-add_used_buf, add_used_buf_refuses, used_from-get_used_buf,
}
use benchmarks_m3_dsp_unopti.VirtQueue.Layout.{
  vring_init, vring_size, rp_msg_vring_align, rp_msg_num_bufs, rp_msg_ring_size, ipc_mem_vring,
  vring_init_fits, vrings_apart, add_avail_buf_lem,
}
use benchmarks_m3_dsp_unopti.VirtQueue.Create.{
  Procs, Registry, create, created, wild_write, create_registers, create_on_appm3,
}
use benchmarks_m3_dsp_unopti.VirtQueue.Isr.{
  sends, calls_back, reports_invalid, Hooks, hibernation, hibernation_force, hibernation_cancel,
  hibernate, isr, NoCallback, predefined, high_message, dispatch, isr_calls_back, isr-hibernation,
  isr_without_callback,
}

-- Buffer `i` is descriptor `i`. The core has taken up to the end of the index's range, and the host has
-- made two more available.
abbrev ring_at : ℕ → ℕ → Vring
ring_at first last = record {
  num = 256;
  desc = λ i. record { addr = 0x9cf00000 + 512 * i; len = 512 };
  avail = record { flags = 0; idx = last; ring = λ i. i };
  used = record { flags = 1; idx = first; ring = λ i. record { id = i; len = 512 } };
}

abbrev queue_at : ℕ → ℕ → VirtQueue
queue_at first last = record {
  id = 1;
  vring = ring_at first last;
  num_free = 1;
  last_avail_idx = first;
  last_used_idx = first;
  proc_id = 3;
}

abbrev wrapping : VirtQueue
wrapping = queue_at 65535 1

available-wrapping : available wrapping ≡ 255 ∷ 0 ∷ []
available-wrapping = refl

get_avail_buf-wrapping : (get_avail_buf wrapping).0.token ≡ pos 255
unfolding get_avail_buf
get_avail_buf-wrapping = refl

cache_wb-wraps : cache_wb 0xfffffffe 3 ≡ (true, 3)
unfolding cache_wb
cache_wb-wraps = refl

get_avail_buf-Takes_example :
    Takes wrapping (get_avail_buf wrapping) × IsValid (get_avail_buf wrapping).1
get_avail_buf-Takes_example = get_avail_buf-Takes wrapping (omega arith)

abbrev published : Avail
published = record { flags = 0; idx = 0; ring = λ i. i }

Publishes-255 : Publishes 255 (queue_at 65535 65535).vring.avail published
Publishes-255 = record { writes = record { written = refl; others = λ j ne. refl }; steps = refl }

Traffic-in_order_example :
    ([] ++ 255 ∷ []
      ≡ (255 ∷ []) ++ available (get_avail_buf (with_avail (queue_at 65535 65535) published)).1)
    × IsValid (get_avail_buf (with_avail (queue_at 65535 65535) published)).1
unfolding get_avail_buf
Traffic-in_order_example =
    Traffic-in_order {q = queue_at 65535 65535} (omega arith) tt
      (takes 255 (publishes 255 published starts (omega arith) (omega arith) Publishes-255) refl)

used_from-add_used_buf_example :
    (u : VirtQueue) × (add_used_buf wrapping (pos 255) 512 ≡ done u)
    × (used_from u 65535 ≡ record { id = 255; len = 512 } ∷ [])
    × (available u ≡ available wrapping)
    × IsValid u
used_from-add_used_buf_example =
    used_from-add_used_buf wrapping 255 512 65535 (omega arith) (omega arith) (omega arith)
      (omega arith)

add_used_buf_refuses_example :
    (add_used_buf wrapping (negsuc 256) 512 ≡ raised)
    × ((add_used_buf wrapping (pos 256) 512 ≡ raised) ↔ (256 < 256))
    × (add_used_buf wrapping (pos 256) 512 ≢ raised)
add_used_buf_refuses_example = add_used_buf_refuses wrapping 256 512

abbrev with_used : VirtQueue
with_used = record wrapping { last_used_idx = 65534 }

used_from-get_used_buf_example :
    ((used_from with_used 65534 ≡ []) × (get_used_buf with_used ≡ (none, with_used)))
    ⊎ ((e : UsedElem) × (used_from with_used 65534
          ≡ e ∷ used_from (get_used_buf with_used).1 (get_used_buf with_used).1.last_used_idx)
        × ((get_used_buf with_used).0
            ≡ some (map_pa_to_va (with_used.vring.desc (e.id % 2 ^ 16)).addr))
        × ((get_used_buf with_used).1.vring ≡ with_used.vring))
used_from-get_used_buf_example = used_from-get_used_buf with_used (omega arith)

vring_init_fits_example :
    let a = vring_init 256 0xa0004000 rp_msg_vring_align in
    (a.desc + 16 * 256 ≤ a.avail)
    × (a.avail + 4 + 2 * 256 ≤ a.used)
    × (a.used % 4096 ≡ 0)
    × (a.used + 4 + 8 * 256 ≡ 0xa0004000 + vring_size 256 rp_msg_vring_align)
vring_init_fits_example = vring_init_fits 256 0xa0004000 refl

vrings_apart_example :
    let a = vring_init rp_msg_num_bufs (ipc_mem_vring 2) rp_msg_vring_align in
    (rp_msg_ring_size ≡ 3 * 4096)
    × (a.used + 4 + 8 * rp_msg_num_bufs ≤ ipc_mem_vring 2 + rp_msg_ring_size)
    × (ipc_mem_vring 2 + rp_msg_ring_size ≤ ipc_mem_vring 3)
vrings_apart_example = vrings_apart 2 (omega arith)

add_avail_buf_lem_example :
    ((wrapping.num_free ≡ 0) × (add_avail_buf wrapping (0xa0000000 + 512) ≡ raised))
    ⊎ ((u : VirtQueue) × (add_avail_buf wrapping (0xa0000000 + 512) ≡ done (u.num_free, u))
        × (suc u.num_free ≡ wrapping.num_free)
        × (map_pa_to_va (u.vring.desc 1).addr ≡ 0xa0000000 + 512)
        × ((u.vring.desc 1).len ≡ 512))
add_avail_buf_lem_example = add_avail_buf_lem wrapping 512 (omega arith)

-- SysM3 is processor 1, AppM3 processor 2, the host processor 3.
abbrev procs : ℕ → Procs
procs self = record { self = self; host = 3; dsp = 0; sysm3 = 1; appm3 = 2 }

abbrev registry : Registry
registry = some (queue_at 0 0) ∷ none ∷ none ∷ none ∷ []

abbrev memory : ℕ → Vring
memory a = ring_at 0 0

create_registers_example :
    (q : VirtQueue) × (create (procs 1) registry (some wrapping) memory 3 1
      ≡ created q (set registry 1 (some q)))
    × (get_elem? (set registry 1 (some q)) 1 ≡ some (some q))
    × (q.vring.num ≡ 256)
    × (q.vring.avail ≡ (ring_at 0 0).avail)
    × (q.last_avail_idx ≡ 0)
    × (q.num_free ≡ wrapping.num_free)
    × (q.last_used_idx ≡ wrapping.last_used_idx)
create_registers_example =
    create_registers (procs 1) registry wrapping memory 3 1 (omega arith) (omega arith) refl

create_on_appm3_example :
    (q : VirtQueue) × (create (procs 2) registry (some wrapping) memory 3 1 ≡ wild_write q 201)
create_on_appm3_example = create_on_appm3 (procs 2) registry wrapping memory 3 1 refl (omega arith)

abbrev hooks : Hooks
hooks = record { can_hibernate = false; offloaded = λ m. false }

isr_calls_back_example : isr (procs 0) registry hooks 0 ≡ calls_back (queue_at 0 0) ∷ []
isr_calls_back_example =
    isr_calls_back (procs 0) registry hooks 0 (queue_at 0 0) (omega arith) refl refl

isr-hibernation_example :
    (isr (procs 1) registry hooks hibernation ≡ sends 3 hibernation_cancel ∷ [])
    × (isr (procs 1) registry hooks hibernation_force ≡ hibernate (procs 1))
isr-hibernation_example = isr-hibernation (procs 1) registry hooks (inl refl)

-- The number of AppM3's receiving queue, on AppM3.
isr_without_callback_example : NoCallback (isr (procs 2) registry hooks 201)
isr_without_callback_example = isr_without_callback (procs 2) registry hooks 201 (omega arith)

isr-on_appm3 : isr (procs 2) registry hooks 201 ≡ reports_invalid 201 ∷ []
unfolding isr predefined high_message dispatch
isr-on_appm3 = refl

-- ===== src/VirtQueue/Layout.antt =====
-- Where the parts of a vring lie in memory (virtio_ring.h), and the addresses of the four vrings.
use benchmarks_m3_dsp_unopti.Base.{
  ℕ, zero, suc, ◌+◌, ◌-◌, ◌*◌, ◌/◌, ◌%◌, ◌^◌, ◌<◌, ◌≤◌, ◌≡◌, refl, [], ◌∷◌, get_or, arith, ◌⊎◌, inl,
  inr, ==_refl,
}
use native.Mathlib.Decide.{ℕ_discrete}
use benchmarks_m3_dsp_unopti.VirtQueue.{
  VirtQueue, done, raised, map_pa_to_va, map_va_to_pa, add_avail_buf, with_buf,
}

-- The pointers of `struct vring`.
pub record Areas : Type 0 where
  pub num : ℕ
  pub desc : ℕ
  pub avail : ℕ
  pub used : ℕ

-- (x + pagesize - 1) & ~(pagesize - 1), for a page size that is a power of two.
abbrev pub page_up : ℕ → ℕ → ℕ
page_up x pagesize = x + pagesize - 1 - (x + pagesize - 1) % pagesize

-- `vring_init`: descriptors of 16 bytes, then flags, index and the ring of 16-bit numbers, then the
-- used ring from the next page on.
unfoldable pub vring_init : ℕ → ℕ → ℕ → Areas
vring_init num p pagesize = record {
  num = num;
  desc = p;
  avail = p + num * 16;
  used = page_up (p + num * 16 + 4 + 2 * num) pagesize;
}

-- `vring_size`
unfoldable pub vring_size : ℕ → ℕ → ℕ
vring_size num pagesize = page_up (16 * num + 2 * (2 + num)) pagesize + 2 * 2 + 8 * num

-- `RP_MSG_NUM_BUFS`, `RP_MSG_VRING_ALIGN`, `PAGE_SIZE`, `RP_MSG_RING_SIZE`
abbrev pub rp_msg_num_bufs : ℕ
rp_msg_num_bufs = 256

abbrev pub rp_msg_vring_align : ℕ
rp_msg_vring_align = 4096

abbrev pub div_round_up : ℕ → ℕ → ℕ
div_round_up n d = (n + d - 1) / d

abbrev pub rp_msg_ring_size : ℕ
unfolding vring_size
rp_msg_ring_size = div_round_up (vring_size rp_msg_num_bufs rp_msg_vring_align) 4096 * 4096

-- `IPC_MEM_VRING0` to `IPC_MEM_VRING3`
abbrev pub ipc_mem_vring : ℕ → ℕ
ipc_mem_vring i = get_or (0xa0000000 ∷ 0xa0004000 ∷ 0xa0008000 ∷ 0xa000c000 ∷ []) i 0

-- A vring of any number of buffers at a page boundary: its three parts follow one another without an
-- overlap, the used ring starts on a page, and all of it fits in `vring_size` bytes.
pub vring_init_fits :
    (num p : ℕ)
    → p % 4096 ≡ 0
    → let a = vring_init num p rp_msg_vring_align in
      (a.desc + 16 * num ≤ a.avail)
      × (a.avail + 4 + 2 * num ≤ a.used)
      × (a.used % 4096 ≡ 0)
      × (a.used + 4 + 8 * num ≡ p + vring_size num rp_msg_vring_align)
unfolding vring_init vring_size
vring_init_fits num p h = omega arith

-- The vrings of `VirtQueue_create` take three pages each and do not overlap: each ends before the next
-- begins.
pub vrings_apart :
    (i : ℕ)
    → i < 3
    → let a = vring_init rp_msg_num_bufs (ipc_mem_vring i) rp_msg_vring_align in
      (rp_msg_ring_size ≡ 3 * 4096)
      × (a.used + 4 + 8 * rp_msg_num_bufs ≤ ipc_mem_vring i + rp_msg_ring_size)
      × (ipc_mem_vring i + rp_msg_ring_size ≤ ipc_mem_vring (suc i))
unfolding vring_init vring_size
vrings_apart zero h = omega arith
vrings_apart (suc zero) h = omega arith
vrings_apart (suc (suc zero)) h = omega arith
vrings_apart (suc (suc (suc i))) h = absurd (omega arith)

-- A core's address of a shared buffer, in the megabyte from 0xa0000000 on, and the host's, in that from
-- 0x9cf00000 on, are turned into one another.
pub map_round_trip :
    (x : ℕ)
    → x < 2 ^ 20
    → (map_pa_to_va (map_va_to_pa (0xa0000000 + x)) ≡ 0xa0000000 + x)
      × (map_va_to_pa (map_pa_to_va (0x9cf00000 + x)) ≡ 0x9cf00000 + x)
unfolding map_pa_to_va map_va_to_pa
map_round_trip x h = omega arith

-- `VirtQueue_addAvailBuf` ends the program exactly when no buffer is free. Otherwise it counts one
-- buffer less and puts the buffer, 512 bytes long, in the descriptor of the available index, so that
-- `mapPAtoVA` finds it again there, if it lies in the shared megabyte.
pub add_avail_buf_lem :
    (q : VirtQueue) (x : ℕ)
    → x < 2 ^ 20
    → ((q.num_free ≡ 0) × (add_avail_buf q (0xa0000000 + x) ≡ raised))
      ⊎ ((u : VirtQueue) × (add_avail_buf q (0xa0000000 + x) ≡ done (u.num_free, u))
          × (suc u.num_free ≡ q.num_free)
          × (map_pa_to_va (u.vring.desc (q.vring.avail.idx % q.vring.num)).addr ≡ 0xa0000000 + x)
          × ((u.vring.desc (q.vring.avail.idx % q.vring.num)).len ≡ 512))
unfolding add_avail_buf
add_avail_buf_lem q x h = elim (ℕ_discrete q.num_free 0) [
  | yes e ↦ inl (e, ground arith)
  | no e ↦ inr (
    with_buf q (0xa0000000 + x),
    ground arith,
    omega (arith, e),
    rw (==_refl (q.vring.avail.idx % q.vring.num)) (map_round_trip x h).0,
    rw (==_refl (q.vring.avail.idx % q.vring.num)) refl,
  )
]

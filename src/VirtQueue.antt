-- ===== src/VirtQueue.antt =====
-- common/src/ti/ipc/rpmsg/VirtQueue.c and virtio_ring.h: the rings of buffers that a core shares with
-- the host. Arrays in the shared memory are given by their cells (what lies behind the end of an
-- array is other memory, of which the code may read anything); the indices are UInt16 and wrap.
pub mod Window
pub mod Fifo
pub mod UsedRing
pub mod Taking
pub mod Traffic
pub mod Layout
pub mod Create
pub mod Isr
mod Tests
use benchmarks_m3_dsp_unopti.Base.{
  ℕ, ◌+◌, ◌-◌, ◌%◌, ◌^◌, ℤ, pos, negsuc, int16, ltb, ◌==◌, if◌then◌else◌, update, Option, none,
  some, Bool, true, false,
}

-- `struct vring_desc`: the fields that the code uses.
pub record Desc : Type 0 where
  pub addr : ℕ
  pub len : ℕ

-- `struct vring_avail`
pub record Avail : Type 0 where
  pub flags : ℕ
  pub idx : ℕ
  pub ring : ℕ → ℕ

-- `struct vring_used_elem`
pub record UsedElem : Type 0 where
  pub id : ℕ
  pub len : ℕ

-- `struct vring_used`
pub record Used : Type 0 where
  pub flags : ℕ
  pub idx : ℕ
  pub ring : ℕ → UsedElem

-- `struct vring`
pub record Vring : Type 0 where
  pub num : ℕ
  pub desc : ℕ → Desc
  pub avail : Avail
  pub used : Used

-- `VirtQueue_Object`; the callback is named by `id`.
pub record VirtQueue : Type 0 where
  pub id : ℕ
  pub vring : Vring
  pub num_free : ℕ
  pub last_avail_idx : ℕ
  pub last_used_idx : ℕ
  pub proc_id : ℕ

-- `raised` is the end of the program in `Error_raise` with no error block.
pub data Outcome {ℓ} (A : Type ℓ) : Type ℓ where
  done : A → Outcome A
  raised : Outcome A

abbrev pub rp_msg_buf_size : ℕ
rp_msg_buf_size = 512

-- x + 1 for a UInt16.
abbrev pub incr16 : ℕ → ℕ
incr16 x = (x + 1) % 2 ^ 16

-- `mapPAtoVA`, `mapVAtoPA`: the last 20 bits of the address with another front.
unfoldable pub map_pa_to_va : ℕ → ℕ
map_pa_to_va pa = pa % 2 ^ 20 + 0xa0000000

unfoldable pub map_va_to_pa : ℕ → ℕ
map_va_to_pa va = va % 2 ^ 20 + 0x9cf00000

-- `VirtQueue_kick`: the interrupt that is sent, by processor and payload, unless the host has set
-- VRING_AVAIL_F_NO_INTERRUPT.
unfoldable pub kick : VirtQueue → Option (ℕ × ℕ)
kick vq = if vq.vring.avail.flags % 2 == 1 then none else some (vq.proc_id, vq.id)

-- `VirtQueue_addUsedBuf`
abbrev pub head_refused : ℕ → ℤ → Bool
head_refused num (pos h) = ltb num h
head_refused num (negsuc h) = true

abbrev pub used_id : ℤ → ℕ
used_id (pos h) = h
used_id (negsuc h) = 2 ^ 32 - (h + 1)

abbrev pub push_used : Used → ℕ → UsedElem → Used
push_used u num e = record u { ring = update u.ring (u.idx % num) e; idx = incr16 u.idx }

unfoldable pub add_used_buf : VirtQueue → ℤ → ℕ → Outcome VirtQueue
add_used_buf vq head len =
    if head_refused vq.vring.num head
    then raised
    else done (record vq {
      vring = record (vq.vring) {
        used = push_used vq.vring.used vq.vring.num (record { id = used_id head; len = len });
      };
    })

-- `VirtQueue_addAvailBuf`: the number of free buffers that is left, and the new state.
abbrev pub with_buf : VirtQueue → ℕ → VirtQueue
with_buf vq buf = record vq {
  num_free = vq.num_free - 1;
  vring = record (vq.vring) {
    desc =
        update vq.vring.desc (vq.vring.avail.idx % vq.vring.num)
          (record { addr = map_va_to_pa buf; len = rp_msg_buf_size });
    avail = record (vq.vring.avail) { idx = incr16 vq.vring.avail.idx };
  };
}

unfoldable pub add_avail_buf : VirtQueue → ℕ → Outcome (ℕ × VirtQueue)
add_avail_buf vq buf = if vq.num_free == 0 then raised else done (vq.num_free - 1, with_buf vq buf)

-- `VirtQueue_getUsedBuf`: the buffer's address, none for NULL.
unfoldable pub get_used_buf : VirtQueue → Option ℕ × VirtQueue
get_used_buf vq = if vq.last_used_idx == vq.vring.used.idx then (none, vq) else (
  some (
      map_pa_to_va
        (vq.vring.desc ((vq.vring.used.ring (vq.last_used_idx % vq.vring.num)).id % 2 ^ 16)).addr),
  record vq { last_used_idx = incr16 vq.last_used_idx },
)

-- `VRING_USED_F_NO_NOTIFY` taken out of the flags.
abbrev pub clear_no_notify : Vring → Vring
clear_no_notify r = record r { used = record (r.used) { flags = r.used.flags - r.used.flags % 2 } }

-- What `VirtQueue_getAvailBuf` hands out: the token, -1 with nothing available, and the buffer's
-- address and length, which are then not written.
pub record Taken : Type 0 where
  pub token : ℤ
  pub buf : Option (ℕ × ℕ)

unfoldable pub get_avail_buf : VirtQueue → Taken × VirtQueue
get_avail_buf vq =
    if vq.last_avail_idx == vq.vring.avail.idx
    then (record { token = negsuc 0; buf = none }, record vq { vring = clear_no_notify vq.vring })
    else (let head = vq.vring.avail.ring (vq.last_avail_idx % vq.vring.num) in
        (
          record {
            token = int16 head;
            buf = some (map_pa_to_va (vq.vring.desc head).addr, (vq.vring.desc head).len);
          },
          record vq { last_avail_idx = incr16 vq.last_avail_idx },
        ))

-- `VirtQueue_disableCallback` and `VirtQueue_enableCallback` do nothing but log.
unfoldable pub disable_callback : VirtQueue → VirtQueue
disable_callback vq = vq

unfoldable pub enable_callback : VirtQueue → Bool × VirtQueue
enable_callback vq = (false, vq)

-- `VirtQueue_cacheWb`: the ticks of the last flush, and whether the cache is flushed now.
unfoldable pub cache_wb : ℕ → ℕ → Bool × ℕ
cache_wb oldticks newticks =
    if ltb ((newticks + 2 ^ 32 - oldticks) % 2 ^ 32) 5 then (false, oldticks) else (true, newticks)

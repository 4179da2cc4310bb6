-- ===== src/VirtQueue/Fifo.antt =====
-- The two directions of a VirtQueue as queues: the buffers that the host has made available, and those
-- that have been used.
use benchmarks_m3_dsp_unopti.Base.{
  ℕ, ◌%◌, ◌^◌, ◌<◌, ◌≤◌, ◌≡◌, ◌≢◌, refl, ap, sym, ◌∙◌, ◌⊎◌, inl, inr, negsuc, int16, none, some,
  List, [], ◌∷◌, ◌++◌, arith,
}
use native.Mathlib.Decide.{ℕ_discrete}
use benchmarks_m3_dsp_unopti.VirtQueue.{
  VirtQueue, Avail, UsedElem, Taken, incr16, get_avail_buf, clear_no_notify, map_pa_to_va,
}
use benchmarks_m3_dsp_unopti.VirtQueue.Window.{
  ahead, Writes, between, between-push, between-pop, between-nil,
}

-- The descriptor numbers that the host has made available and the core has not yet taken.
abbrev pub available : VirtQueue → List ℕ
available q = between q.vring.avail.ring q.last_avail_idx q.vring.avail.idx

-- The used entries from index `seen` on, as a reader of the used ring finds them.
abbrev pub used_from : VirtQueue → ℕ → List UsedElem
used_from q seen = between q.vring.used.ring seen q.vring.used.idx

-- The indices are UInt16, the ring has the size that `VirtQueue_create` gives it, and the host is at
-- most a ring ahead.
pub record IsValid (q : VirtQueue) : Type 0 where
  pub size : q.vring.num ≡ 256
  pub avail16 : q.vring.avail.idx < 2 ^ 16
  pub last_avail16 : q.last_avail_idx < 2 ^ 16
  pub used16 : q.vring.used.idx < 2 ^ 16
  pub last_used16 : q.last_used_idx < 2 ^ 16
  pub within : ahead q.last_avail_idx q.vring.avail.idx ≤ 256

-- The host makes descriptor `h` available: it writes the next cell of the ring, steps the index, and
-- leaves the rest of the available ring. (It may set its flags as it likes.)
pub record Publishes (h : ℕ) (a b : Avail) : Type 0 where
  pub writes : Writes a.idx h a.ring b.ring
  pub steps : b.idx ≡ incr16 a.idx

abbrev pub with_avail : VirtQueue → Avail → VirtQueue
with_avail q a = record q { vring = record (q.vring) { avail = a } }

-- What the host makes available is appended, as long as the ring has room.
pub available-publish :
    (q : VirtQueue) (a : Avail) (h : ℕ)
    → IsValid q
    → ahead q.last_avail_idx q.vring.avail.idx < 256
    → Publishes h q.vring.avail a
    → (available (with_avail q a) ≡ available q ++ h ∷ []) × IsValid (with_avail q a)
available-publish q a h v room p = (
  ap (between a.ring q.last_avail_idx) p.steps
      ∙ between-push q.vring.avail.ring a.ring q.last_avail_idx q.vring.avail.idx h v.last_avail16
          v.avail16 room p.writes,
  record {
    size = v.size;
    avail16 = omega (arith, p.steps);
    last_avail16 = v.last_avail16;
    used16 = v.used16;
    last_used16 = v.last_used16;
    within = omega (arith, p.steps, room, v);
  },
)

-- With nothing available `VirtQueue_getAvailBuf` returns -1 and asks the host to be notified.
pub get_avail_buf-none :
    (q : VirtQueue)
    → q.last_avail_idx ≡ q.vring.avail.idx
    → get_avail_buf q
      ≡ (record { token = negsuc 0; buf = none }, record q { vring = clear_no_notify q.vring })
unfolding get_avail_buf
get_avail_buf-none q e = ground arith

-- Otherwise it takes the first.
pub get_avail_buf-some :
    (q : VirtQueue)
    → q.last_avail_idx ≢ q.vring.avail.idx
    → let h = q.vring.avail.ring (q.last_avail_idx % q.vring.num) in
      get_avail_buf q ≡ (
        record {
          token = int16 h;
          buf = some (map_pa_to_va (q.vring.desc h).addr, (q.vring.desc h).len);
        },
        record q { last_avail_idx = incr16 q.last_avail_idx },
      )
unfolding get_avail_buf
get_avail_buf-some q e = ground arith

-- What a call of `VirtQueue_getAvailBuf` does to the queue of available descriptors.
abbrev pub Takes : VirtQueue → Taken × VirtQueue → Type 0
Takes q (x, u) =
    ((available q ≡ [])
      × (x ≡ record { token = negsuc 0; buf = none })
      × (u ≡ record q { vring = clear_no_notify q.vring }))
    ⊎ ((h : ℕ) × (available q ≡ h ∷ available u)
        × (x ≡ record {
          token = int16 h;
          buf = some (map_pa_to_va (q.vring.desc h).addr, (q.vring.desc h).len);
        })
        × (u.vring ≡ q.vring))

-- `VirtQueue_getAvailBuf` returns -1 exactly when nothing is available, and then only clears the flag
-- that keeps the host from notifying; otherwise it takes the oldest descriptor, with the buffer that
-- it describes, and leaves the ring alone. It keeps the queue valid.
pub get_avail_buf-Takes :
    (q : VirtQueue) → IsValid q → Takes q (get_avail_buf q) × IsValid (get_avail_buf q).1
get_avail_buf-Takes q v = elim (ℕ_discrete q.last_avail_idx q.vring.avail.idx) [
  | yes e ↦ rw (get_avail_buf-none q e) (
    inl (
      ap (between q.vring.avail.ring q.last_avail_idx) (sym e)
          ∙ between-nil q.vring.avail.ring q.last_avail_idx v.last_avail16,
      refl,
      refl,
    ),
    omega (arith, v),
  )
  | no e ↦ rw (get_avail_buf-some q e) (
    inr (
      q.vring.avail.ring (q.last_avail_idx % 256),
      between-pop q.vring.avail.ring q.last_avail_idx q.vring.avail.idx v.last_avail16 v.avail16 e,
      rw v.size refl,
      refl,
    ),
    omega (arith, v, e),
  )
]

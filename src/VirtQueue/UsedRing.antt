-- ===== src/VirtQueue/UsedRing.antt =====
-- The used ring of a VirtQueue: what is put there and what is found there.
use benchmarks_m3_dsp_unopti.Base.{
  ℕ, ◌%◌, ◌^◌, ◌<◌, ◌≡◌, ◌≢◌, refl, ap, sym, ◌∙◌, ◌⊎◌, inl, inr, pos, negsuc, none, some, [], ◌∷◌,
  ◌++◌, arith, ==_refl, ◌↔◌,
}
use native.Mathlib.Decide.{ℕ_discrete}
use benchmarks_m3_dsp_unopti.VirtQueue.{
  VirtQueue, UsedElem, done, raised, incr16, add_used_buf, get_used_buf, map_pa_to_va, push_used,
}
use benchmarks_m3_dsp_unopti.VirtQueue.Window.{
  ahead, Writes, between, between-push, between-pop, between-nil,
}
use benchmarks_m3_dsp_unopti.VirtQueue.Fifo.{available, used_from, IsValid}

module _ (q : VirtQueue) (e : UsedElem) (size : q.vring.num ≡ 256) where
  push_used-Writes :
      Writes q.vring.used.idx e q.vring.used.ring (push_used q.vring.used q.vring.num e).ring
  push_used-Writes = record {
    written = rw size (rw (==_refl (q.vring.used.idx % 256)));
    others = λ j ne. rw size (ground (arith, ne));
  }

-- `VirtQueue_addUsedBuf` with a token of the ring appends the buffer to what a reader of the used ring
-- that is less than a ring behind finds there, and changes nothing of what is available. The queue
-- stays valid.
pub used_from-add_used_buf :
    (q : VirtQueue) (h len seen : ℕ)
    → IsValid q
    → h < 256
    → seen < 2 ^ 16
    → ahead seen q.vring.used.idx < 256
    → (u : VirtQueue) × (add_used_buf q (pos h) len ≡ done u)
      × (used_from u seen ≡ used_from q seen ++ record { id = h; len = len } ∷ [])
      × (available u ≡ available q)
      × IsValid u
unfolding add_used_buf
used_from-add_used_buf q h len seen v hs ss room = (
  record q {
    vring = record (q.vring) {
      used = push_used q.vring.used q.vring.num (record { id = h; len = len });
    };
  },
  ground (arith, v.size),
  between-push q.vring.used.ring _ seen q.vring.used.idx _ ss v.used16 room
      (push_used-Writes q _ v.size),
  refl,
  omega (arith, v),
)

-- A token that `VirtQueue_addUsedBuf` refuses ends the program: a negative one, and one above the
-- number of descriptors. The number itself, which is no descriptor, is accepted.
pub add_used_buf_refuses :
    (q : VirtQueue) (h len : ℕ)
    → (add_used_buf q (negsuc h) len ≡ raised)
      × ((add_used_buf q (pos h) len ≡ raised) ↔ (q.vring.num < h))
      × (add_used_buf q (pos q.vring.num) len ≢ raised)
unfolding add_used_buf
add_used_buf_refuses q h len =
    (refl, (λ e. ground (arith, e), λ e. ground (arith, e)), λ e. ground (arith, e))

get_used_buf-some :
    (q : VirtQueue)
    → q.last_used_idx ≢ q.vring.used.idx
    → get_used_buf q ≡ (
      some (
          map_pa_to_va
            (q.vring.desc ((q.vring.used.ring (q.last_used_idx % q.vring.num)).id % 2 ^ 16)).addr),
      record q { last_used_idx = incr16 q.last_used_idx },
    )
unfolding get_used_buf
get_used_buf-some q e = ground arith

get_used_buf-none :
    (q : VirtQueue) → q.last_used_idx ≡ q.vring.used.idx → get_used_buf q ≡ (none, q)
unfolding get_used_buf
get_used_buf-none q e = ground arith

-- `VirtQueue_getUsedBuf` returns NULL and changes nothing exactly when no used entry is new to the
-- queue; otherwise it returns the buffer of the descriptor that the oldest new entry names (by the low
-- 16 bits of its id) and steps over that entry.
pub used_from-get_used_buf :
    (q : VirtQueue)
    → IsValid q
    → let u = (get_used_buf q).1 in
      ((used_from q q.last_used_idx ≡ []) × (get_used_buf q ≡ (none, q)))
      ⊎ ((e : UsedElem) × (used_from q q.last_used_idx ≡ e ∷ used_from u u.last_used_idx)
          × ((get_used_buf q).0 ≡ some (map_pa_to_va (q.vring.desc (e.id % 2 ^ 16)).addr))
          × (u.vring ≡ q.vring))
used_from-get_used_buf q v = elim (ℕ_discrete q.last_used_idx q.vring.used.idx) [
  | yes e ↦ inl (
    ap (between q.vring.used.ring q.last_used_idx) (sym e)
        ∙ between-nil q.vring.used.ring q.last_used_idx v.last_used16,
    get_used_buf-none q e,
  )
  | no e ↦ rw (get_used_buf-some q e) (
      inr (
        q.vring.used.ring (q.last_used_idx % 256),
        between-pop q.vring.used.ring q.last_used_idx q.vring.used.idx v.last_used16 v.used16 e,
        rw v.size refl,
        refl,
      ))
]

-- What becomes of the descriptors and the index.
pub desc-add_used_buf :
    (q u : VirtQueue) (h len : ℕ)
    → add_used_buf q (pos h) len ≡ done u
    → (u.vring.desc ≡ q.vring.desc) × (u.vring.used.idx ≡ incr16 q.vring.used.idx)
unfolding add_used_buf
desc-add_used_buf q u h len e = ground (arith, e)

-- ===== src/Barrier/Memory.antt =====
-- `callBarrier` on the shared words: each barrier has its own pair.
use benchmarks_m3_dsp_unopti.Base.{ℕ, ◌^◌, ◌<◌, ◌≡◌, refl, ◌≢◌, arith}
use benchmarks_m3_dsp_unopti.Barrier.{Words, cell, arrive, call_barrier}

-- A call for barrier `i` does to the two words of `i` what the critical section does, and leaves the
-- words of every other barrier `j` as they were, for indices whose doubles are 32-bit numbers.
pub cell-call_barrier :
    (m : Words) (i j : ℕ)
    → i < 2 ^ 31
    → j < 2 ^ 31
    → i ≢ j
    → (cell (call_barrier m i).0 i ≡ (arrive (cell m i)).0)
      × (cell (call_barrier m i).0 j ≡ cell m j)
      × ((call_barrier m i).1 ≡ (arrive (cell m i)).1)
unfolding call_barrier
cell-call_barrier m i j hi hj ne = (ground arith, ground arith, refl)

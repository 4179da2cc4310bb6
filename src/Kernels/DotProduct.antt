-- ===== src/Kernels/DotProduct.antt =====
-- sysbios-rpmsg_dotproduct/unoptimized: every core sums the squares of its indices, in two threads on an
-- M3 core, and adds its sum to a shared word under the lock. An address is not wrapped: a negative index is
-- its word, which leads to the same place modulo 2 ^ 32.
pub mod Reduction
use benchmarks_m3_dsp_unopti.Base.{
  ℕ, zero, suc, ◌+◌, ◌*◌, ◌-◌, ◌%◌, ◌^◌, ◌/◌, List, [], ◌∷◌, update,
}
use benchmarks_m3_dsp_unopti.Kernels.{Mem, middle}

-- The part of a core: the DSP's, or an M3 core's with its two threads, from one index to another, with
-- the memory that each thread starts with.
pub data Part : Type 0 where
  dsp : ℕ → ℕ → Mem → Part
  m3 : ℕ → ℕ → Mem → Mem → Part

-- The rounds of the loops, whose bounds are words that are read as signed: none when the second is not
-- above the first as an int.
abbrev pub rounds : ℕ → ℕ → ℕ
rounds start end = (end + 2 ^ 31) % 2 ^ 32 - (start + 2 ^ 31) % 2 ^ 32

module _ (a b : ℕ) where
  -- `A[i] = B[i] = i`
  unfoldable pub fill_loop : ℕ → ℕ → Mem → Mem
  fill_loop zero i m = m
  fill_loop (suc n) i m =
      fill_loop n (i + 1) (update (update m (b + i) (i % 2 ^ 32)) (a + i) (i % 2 ^ 32))

  -- `sum += A[i] * B[i]`
  unfoldable pub sum_loop : ℕ → ℕ → Mem → ℕ → ℕ
  sum_loop zero i m sum = sum
  sum_loop (suc n) i m sum = sum_loop n (i + 1) m ((sum + m (a + i) * m (b + i)) % 2 ^ 32)

  -- The sum that `dot_product` comes to.
  unfoldable pub dot_product : ℕ → ℕ → Mem → ℕ
  dot_product start end m =
      sum_loop (rounds start end) start (fill_loop (rounds start end) start m) 0

  -- What a core adds: `common_wrapper` of an M3 core adds the sums of both threads.
  abbrev pub added : Part → ℕ
  added (dsp start end m) = dot_product start end m
  added (m3 start end m n) =
      dot_product start (middle start end) m + dot_product (middle start end) end n

  -- `result[0] += ...` of the cores, in the order in which they get the lock.
  unfoldable pub reduce : List Part → ℕ → ℕ
  reduce [] result = result
  reduce (p ∷ ps) result = reduce ps ((result + added p) % 2 ^ 32)

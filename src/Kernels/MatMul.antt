-- ===== src/Kernels/MatMul.antt =====
-- sysbios-rpmsg_matmul/unoptimized: `multiply` and the two threads that an M3 core runs it on. The rows
-- have `size` words, SIZE = 1024 in the source; the indices do not wrap.
pub mod Threads
pub mod Product
use benchmarks_m3_dsp_unopti.Base.{ℕ, zero, suc, ◌+◌, ◌*◌, ◌-◌, List, [], ◌∷◌, ◌++◌}
use benchmarks_m3_dsp_unopti.Kernels.{Mem, Op, clears, adds, run_op}

module _ (size a b c : ℕ) where
  -- The loop over `k`, with `n` rounds left.
  unfoldable pub sum_loop : ℕ → ℕ → ℕ → ℕ → Mem → Mem
  sum_loop zero k i j m = m
  sum_loop (suc n) k i j m =
      sum_loop n (k + 1) i j
        (run_op (adds (c + (i * size + j)) (a + (i * size + k)) (b + (k * size + j))) m)

  -- The loop over `j`.
  unfoldable pub column_loop : ℕ → ℕ → ℕ → Mem → Mem
  column_loop zero j i m = m
  column_loop (suc n) j i m =
      column_loop n (j + 1) i (sum_loop size 0 i j (run_op (clears (c + (i * size + j))) m))

  -- The loop over `i`.
  unfoldable pub row_loop : ℕ → ℕ → Mem → Mem
  row_loop zero i m = m
  row_loop (suc n) i m = row_loop n (i + 1) (column_loop size 0 i m)

  -- `multiply`
  unfoldable pub multiply : ℕ → ℕ → Mem → Mem
  multiply start end m = row_loop (end - start) start m

  -- The writes of `multiply`, in its order.
  unfoldable pub sum_ops : ℕ → ℕ → ℕ → ℕ → List Op
  sum_ops zero k i j = []
  sum_ops (suc n) k i j =
      adds (c + (i * size + j)) (a + (i * size + k)) (b + (k * size + j)) ∷ sum_ops n (k + 1) i j

  unfoldable pub column_ops : ℕ → ℕ → ℕ → List Op
  column_ops zero j i = []
  column_ops (suc n) j i =
      clears (c + (i * size + j)) ∷ sum_ops size 0 i j ++ column_ops n (j + 1) i

  unfoldable pub row_ops : ℕ → ℕ → List Op
  row_ops zero i = []
  row_ops (suc n) i = column_ops size 0 i ++ row_ops n (i + 1)

  unfoldable pub multiply_ops : ℕ → ℕ → List Op
  multiply_ops start end = row_ops (end - start) start

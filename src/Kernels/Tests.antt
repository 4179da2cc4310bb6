-- ===== src/Kernels/Tests.antt =====
-- The kernels on matrices of two rows and on a few indices.
use benchmarks_m3_dsp_unopti.Base.{◌%◌, ◌^◌, ◌≡◌, refl, inl, List, [], ◌∷◌, arith}
use mathlib.Core.List.Perm
use benchmarks_m3_dsp_unopti.Kernels.{Mem, Op, run, Interleaves, ends, first, second}
use benchmarks_m3_dsp_unopti.Kernels.MatMul.{
  multiply, multiply_ops, row_loop, column_loop, sum_loop,
}
use benchmarks_m3_dsp_unopti.Kernels.MatMul.Threads.{Apart, run-multiply_ops_threads}
use benchmarks_m3_dsp_unopti.Kernels.MatMul.Product.{dot, multiply_lem}
use benchmarks_m3_dsp_unopti.Kernels.DotProduct.{dsp, m3, reduce}
use benchmarks_m3_dsp_unopti.Kernels.DotProduct.Reduction.{
  Tiles, none_left, dsp_part, m3_part, squares, reduce-Tiles,
}
use benchmarks_m3_dsp_unopti.Kernels.{run_op}

-- Every word holds its index.
abbrev numbered : Mem
numbered p = p

-- The writes of two threads in turn.
abbrev alternate : List Op → List Op → List Op
alternate [] ys = ys
alternate (x ∷ xs) [] = x ∷ xs
alternate (x ∷ xs) (y ∷ ys) = x ∷ y ∷ alternate xs ys

only_second : (ys : List Op) → Interleaves [] ys ys
only_second [] = ends
only_second (y ∷ ys) = second y [] ys ys (only_second ys)

only_first_left : (xs : List Op) → Interleaves xs [] xs
only_first_left [] = ends
only_first_left (x ∷ xs) = first x xs [] xs (only_first_left xs)

alternate-Interleaves : (xs ys : List Op) → Interleaves xs ys (alternate xs ys)
alternate-Interleaves [] ys = only_second ys
alternate-Interleaves (x ∷ xs) [] = only_first_left (x ∷ xs)
alternate-Interleaves (x ∷ xs) (y ∷ ys) =
    first x xs (y ∷ ys) (y ∷ alternate xs ys)
      (second y xs ys (alternate xs ys) (alternate-Interleaves xs ys))

-- The buffers at 0, 4 and 8.
buffers : Apart 2 0 4 8 0 2
buffers = record { first_apart = inl (omega arith); second_apart = inl (omega arith) }

run-multiply_ops_threads_example :
    run (alternate (multiply_ops 2 0 4 8 0 1) (multiply_ops 2 0 4 8 1 2)) numbered 11
    ≡ multiply 2 0 4 8 0 2 numbered 11
run-multiply_ops_threads_example =
    run-multiply_ops_threads 2 0 4 8 0 2
      (alternate (multiply_ops 2 0 4 8 0 1) (multiply_ops 2 0 4 8 1 2)) numbered 11 (omega arith)
      buffers (alternate-Interleaves (multiply_ops 2 0 4 8 0 1) (multiply_ops 2 0 4 8 1 2))

multiply_lem_example : multiply 2 0 4 8 0 2 numbered 11 ≡ dot 2 0 4 2 0 1 1 numbered % 2 ^ 32
multiply_lem_example =
    multiply_lem 2 0 4 8 0 2 buffers 1 1 numbered (omega arith) (omega arith) (omega arith)

-- 2 * 5 + 3 * 7
multiply_run : multiply 2 0 4 8 0 2 numbered 11 ≡ 31
unfolding multiply row_loop column_loop sum_loop run_op
multiply_run = refl

-- The DSP sums the indices 0 and 1, an M3 core those from 2 to 4; the M3 core gets the lock first.
tiles : Tiles 0 5 (dsp 0 2 numbered ∷ m3 2 5 numbered numbered ∷ [])
tiles = dsp_part 0 2 5 _ _ (omega arith) (m3_part 2 5 5 _ _ _ (omega arith) (none_left 5))

reduce-Tiles_example :
    reduce 100 200 (m3 2 5 numbered numbered ∷ dsp 0 2 numbered ∷ []) 0 ≡ squares 5 0 % 2 ^ 32
reduce-Tiles_example =
    reduce-Tiles 100 200 0 5 (dsp 0 2 numbered ∷ m3 2 5 numbered numbered ∷ [])
      (m3 2 5 numbered numbered ∷ dsp 0 2 numbered ∷ []) tiles (omega arith) (inl (omega arith))
      (Perm.swap _ _ [])

squares_run : squares 5 0 ≡ 30
unfolding squares
squares_run = refl

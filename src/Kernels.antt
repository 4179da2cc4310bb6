-- ===== src/Kernels.antt =====
-- The kernels of the sample directories: what the two threads of an M3 core do to the memory, one write
-- at a time. A memory gives the word at each index; the buffers are indices of their first words.
pub mod Interleaving
pub mod MatMul
pub mod DotProduct
mod Tests
use benchmarks_m3_dsp_unopti.Base.{
  ℕ, ◌+◌, ◌*◌, ◌/◌, ◌-◌, ◌%◌, ◌^◌, ◌==◌, if◌then◌else◌, List, [], ◌∷◌, update, zero, suc,
}

abbrev pub Mem : Type 0
Mem = ℕ → ℕ

-- A write of a kernel: `C[p] = 0`, or `C[p] += A[q]*B[r]` for 32-bit words.
pub data Op : Type 0 where
  clears : ℕ → Op
  adds : ℕ → ℕ → ℕ → Op

unfoldable pub run_op : Op → Mem → Mem
run_op (clears p) m = update m p 0
run_op (adds p q r) m = update m p ((m p + m q * m r) % 2 ^ 32)

unfoldable pub run : List Op → Mem → Mem
run [] m = m
run (x ∷ xs) m = run xs (run_op x m)

-- The orders in which the writes of two threads can take place.
pub data Interleaves : List Op → List Op → List Op → Type 0 where
  ends : Interleaves [] [] []
  first : (x : Op) (xs ys zs : List Op) → Interleaves xs ys zs → Interleaves (x ∷ xs) ys (x ∷ zs)
  second : (y : Op) (xs ys zs : List Op) → Interleaves xs ys zs → Interleaves xs (y ∷ ys) (y ∷ zs)

-- Where the work of the first thread ends and that of the second begins: `fxnTest1`, for a range whose
-- end is not before its start.
abbrev pub middle : ℕ → ℕ → ℕ
middle start end = start + (end - start) / 2

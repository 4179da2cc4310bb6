-- ===== src/Kernels/MatMul/Product.antt =====
-- The words that `multiply` leaves.
use benchmarks_m3_dsp_unopti.Base.{
  ℕ, zero, suc, ◌+◌, ◌*◌, ◌-◌, ◌%◌, ◌^◌, ◌<◌, ◌≤◌, ◌≡◌, ◌≢◌, refl, sym, ap, ap₂, ◌∙◌, inl, ◌==◌,
  arith, if_true, ==_iff,
}
use native.Mathlib.Nat.{mul-le-mul_right}
use benchmarks_m3_dsp_unopti.Kernels.{Mem, clears, adds, run_op}
use benchmarks_m3_dsp_unopti.Kernels.Interleaving.{Outside, run_op-ne, run-Outside}
use benchmarks_m3_dsp_unopti.Kernels.MatMul.{sum_loop, column_loop, row_loop, multiply}
use benchmarks_m3_dsp_unopti.Kernels.MatMul.Threads.{
  Apart, cell-lt, reads_first, reads_second, column_ops-Within, row_ops-Within, run-column_ops,
  run-row_ops, row_loop-append,
}

-- The sum of the products of row `i` of the first matrix and column `j` of the second, over the `n`
-- indices from `k` on.
unfoldable pub dot : ℕ → ℕ → ℕ → ℕ → ℕ → ℕ → ℕ → Mem → ℕ
dot size a b zero k i j m = 0
dot size a b (suc n) k i j m =
    m (a + (i * size + k)) * m (b + (k * size + j)) + dot size a b n (k + 1) i j m

module _ (size a b c start end : ℕ) (apart : Apart size a b c start end) where
  -- A memory in which the two factors are still as they were.
  abbrev Kept : Mem → Mem → Type 0
  Kept m n = (q : ℕ) → Outside (c + start * size) (c + end * size) q → m q ≡ n q

  -- A cell of the rows is not outside of them.
  cell-inside :
      (i j q : ℕ)
      → start ≤ i
      → i < end
      → j < size
      → Outside (c + start * size) (c + end * size) q
      → c + (i * size + j) ≢ q
  cell-inside i j q lo hi h o e =
      let below : i * size + j < end * size = cell-lt i end j size hi h in
      let above : start * size ≤ i * size = mul-le-mul_right size lo in
      ground (arith, below, above, o, e)

  sum_loop_lem :
      (n k i j : ℕ) (m m₀ : Mem)
      → start ≤ i
      → i < end
      → j < size
      → k + n ≤ size
      → Kept m m₀
      → m (c + (i * size + j)) < 2 ^ 32
      → sum_loop size a b c n k i j m (c + (i * size + j))
        ≡ (m (c + (i * size + j)) + dot size a b n k i j m₀) % 2 ^ 32
  unfolding sum_loop dot run_op
  sum_loop_lem zero k i j m m₀ lo hi h l same small = omega (arith, small)
  sum_loop_lem (suc n) k i j m m₀ lo hi h l same small =
      let p = c + (i * size + j) in
      let q = a + (i * size + k) in
      let r = b + (k * size + j) in
      let new : run_op (adds p q r) m p ≡ (m p + m₀ q * m₀ r) % 2 ^ 32 =
        if_true (p == p) _ _ ((==_iff p p).1 refl)
        ∙ ap₂ (λ x y. (m p + x * y) % 2 ^ 32)
            (same q (reads_first size a b c start end apart i k lo hi (omega arith)))
            (same r (reads_second size a b c start end apart k j (omega arith) h)) in
      sum_loop_lem n (k + 1) i j (run_op (adds p q r) m) m₀ lo hi h (omega arith)
        (λ x o. run_op-ne (adds p q r) m x (cell-inside i j x lo hi h o) ∙ same x o)
        (omega (arith, new))
      ∙ (ap (λ x. (x + dot size a b n (k + 1) i j m₀) % 2 ^ 32) new ∙ omega arith)

  column_loop-append :
      (n k j i : ℕ) (m : Mem)
      → column_loop size a b c (n + k) j i m
        ≡ column_loop size a b c k (j + n) i (column_loop size a b c n j i m)
  unfolding column_loop
  column_loop-append zero k j i m =
      let p : 0 + k ≡ k = omega arith in
      let q : j ≡ j + 0 = omega arith in
      ap (λ x. column_loop size a b c x j i m) p ∙ ap (λ x. column_loop size a b c k x i m) q
  column_loop-append (suc n) k j i m =
      let p : suc n + k ≡ suc (n + k) = omega arith in
      let q : j + 1 + n ≡ j + suc n = omega arith in
      let m₁ = sum_loop size a b c size 0 i j (run_op (clears (c + (i * size + j))) m) in
      ap (λ x. column_loop size a b c x j i m) p
      ∙ (column_loop-append n k (j + 1) i m₁
          ∙ ap (λ x. column_loop size a b c k x i (column_loop size a b c n (j + 1) i m₁)) q)

  -- Cells that the loops leave alone.
  column_loop-Outside :
      (n j i q : ℕ) (m : Mem)
      → start ≤ i
      → i < end
      → j + n ≤ size
      → Outside (c + (i * size + j)) (c + (i * size + (j + n))) q
      → column_loop size a b c n j i m q ≡ m q
  column_loop-Outside n j i q m lo hi h o =
      ap (λ (f : Mem). f q) (sym (run-column_ops size a b c n j i m))
      ∙ run-Outside _ _ _ _ _ m q (column_ops-Within size a b c start end apart n j i lo hi h) o

  row_loop-Outside :
      (n i q : ℕ) (m : Mem)
      → start ≤ i
      → i + n ≤ end
      → Outside (c + i * size) (c + (i + n) * size) q
      → row_loop size a b c n i m q ≡ m q
  row_loop-Outside n i q m lo hi o =
      ap (λ (f : Mem). f q) (sym (run-row_ops size a b c n i m))
      ∙ run-Outside _ _ _ _ _ m q (row_ops-Within size a b c start end apart n i lo hi) o

  -- A loop in three parts: what comes before the cell, the cell, and what comes after it.
  column_loop_lem :
      (i j : ℕ) (m m₀ : Mem)
      → start ≤ i
      → i < end
      → j < size
      → Kept m m₀
      → column_loop size a b c size 0 i m (c + (i * size + j)) ≡ dot size a b size 0 i j m₀ % 2 ^ 32
  unfolding column_loop run_op
  column_loop_lem i j m m₀ lo hi h same =
      let n = size - suc j in
      let whole : size ≡ j + suc n = omega (arith, h) in
      let p = c + (i * size + j) in
      let m₁ = column_loop size a b c j 0 i m in
      let m₂ = run_op (clears p) m₁ in
      let zeroed : m₂ p ≡ 0 = if_true (p == p) _ _ ((==_iff p p).1 refl) in
      let total : m₂ p + dot size a b size 0 i j m₀ ≡ dot size a b size 0 i j m₀ =
        omega (arith, zeroed) in
      let start_at : j ≡ 0 + j = omega arith in
      ap (λ x. column_loop size a b c x 0 i m p) whole
      ∙ (ap (λ (f : Mem). f p) (column_loop-append j (suc n) 0 i m)
          ∙ (ap (λ x. column_loop size a b c (suc n) x i m₁ p) (sym start_at)
              ∙ (column_loop-Outside n (j + 1) i p _ lo hi (omega arith) (inl (omega arith))
                  ∙ (sum_loop_lem size 0 i j m₂ m₀ lo hi h (omega arith)
                        (λ q o.
                          run_op-ne (clears p) m₁ q (cell-inside i j q lo hi h o)
                          ∙ (column_loop-Outside j 0 i q m lo hi (omega arith) (before j h q o)
                              ∙ same q o))
                        (omega (arith, zeroed))
                      ∙ ap (λ x. x % 2 ^ 32) total))))
    where
      before :
          (x : ℕ)
          → x < size
          → (q : ℕ) → Outside (c + start * size) (c + end * size) q
          → Outside (c + (i * size + 0)) (c + (i * size + (0 + x))) q
      before x l q o =
          let below : i * size + x < end * size = cell-lt i end x size hi l in
          let above : start * size ≤ i * size = mul-le-mul_right size lo in
          ground (arith, below, above, o)

  -- multiply leaves in row i and column j of the third buffer, for a row of its range, the sum of the
  -- products of the words of row i of the first buffer and column j of the second as they were
  -- before, modulo 2 ^ 32. This is for buffers that lie apart.
  pub multiply_lem :
      (i j : ℕ) (m : Mem)
      → start ≤ i
      → i < end
      → j < size
      → multiply size a b c start end m (c + (i * size + j)) ≡ dot size a b size 0 i j m % 2 ^ 32
  unfolding multiply row_loop
  multiply_lem i j m lo hi h =
      let n = i - start in
      let k = end - suc i in
      let whole : end - start ≡ n + suc k = omega (arith, lo, hi) in
      let here : start + n ≡ i = omega (arith, lo) in
      let p = c + (i * size + j) in
      let m₁ = row_loop size a b c n start m in
      let in_row : i * size + j < (i + 1) * size = cell-lt i (i + 1) j size (omega arith) h in
      ap (λ x. row_loop size a b c x start m p) whole
      ∙ (ap (λ (f : Mem). f p) (row_loop-append size a b c n (suc k) start m)
          ∙ (ap (λ x. row_loop size a b c (suc k) x m₁ p) here
              ∙ (row_loop-Outside k (i + 1) p _ (omega arith) (omega arith)
                    (inl (omega (arith, in_row)))
                  ∙ column_loop_lem i j m₁ m lo hi h (λ q o.
                    row_loop-Outside n start q m (omega arith) (omega arith)
                      (before n (omega arith) q o)))))
    where
      before :
          (x : ℕ)
          → start + x ≤ end
          → (q : ℕ) → Outside (c + start * size) (c + end * size) q
          → Outside (c + start * size) (c + (start + x) * size) q
      before x l q o =
          let below : (start + x) * size ≤ end * size = mul-le-mul_right size l in
          ground (arith, below, o)

-- ===== src/Kernels/MatMul/Threads.antt =====
-- `multiply` on two threads.
use benchmarks_m3_dsp_unopti.Base.{
  ℕ, zero, suc, ◌+◌, ◌*◌, ◌-◌, ◌<◌, ◌≤◌, ◌≡◌, refl, sym, ap, ◌∙◌, subst, ◌⊎◌, List, arith,
}
use native.Mathlib.Nat.{mul-le-mul_right}
use benchmarks_m3_dsp_unopti.Kernels.{Mem, Op, run, Interleaves, middle}
use benchmarks_m3_dsp_unopti.Kernels.Interleaving.{
  Within, Within-append, Within-wider, Outside, run-append, run-Interleaves,
}
use benchmarks_m3_dsp_unopti.Kernels.MatMul.{
  sum_loop, column_loop, row_loop, multiply, sum_ops, column_ops, row_ops, multiply_ops,
}

-- The cell of a row below another lies below that row.
pub cell-lt : (i e j size : ℕ) → i < e → j < size → i * size + j < e * size
cell-lt i e j size h k =
    let step : (i + 1) * size ≤ e * size = mul-le-mul_right size (omega (arith, h)) in
    omega (arith, step, k)

-- The two buffers that are read lie apart from what is written of the third.
pub record Apart (size a b c start end : ℕ) : Type 0 where
  pub first_apart : (a + end * size ≤ c + start * size) ⊎ (c + end * size ≤ a + start * size)
  pub second_apart : (b + size * size ≤ c + start * size) ⊎ (c + end * size ≤ b)

module _ (size a b c : ℕ) where
  pub run-sum_ops :
      (n k i j : ℕ) (m : Mem) → run (sum_ops size a b c n k i j) m ≡ sum_loop size a b c n k i j m
  unfolding sum_ops sum_loop run
  run-sum_ops zero k i j m = refl
  run-sum_ops (suc n) k i j m = run-sum_ops n (k + 1) i j _

  pub run-column_ops :
      (n j i : ℕ) (m : Mem) → run (column_ops size a b c n j i) m ≡ column_loop size a b c n j i m
  unfolding column_ops column_loop run
  run-column_ops zero j i m = refl
  run-column_ops (suc n) j i m =
      run-append (sum_ops size a b c size 0 i j) _ _
      ∙ (ap (run (column_ops size a b c n (j + 1) i)) (run-sum_ops size 0 i j _)
          ∙ run-column_ops n (j + 1) i _)

  pub run-row_ops : (n i : ℕ) (m : Mem) → run (row_ops size a b c n i) m ≡ row_loop size a b c n i m
  unfolding row_ops row_loop run
  run-row_ops zero i m = refl
  run-row_ops (suc n) i m =
      run-append (column_ops size a b c size 0 i) _ m
      ∙ (ap (run (row_ops size a b c n (i + 1))) (run-column_ops size 0 i m)
          ∙ run-row_ops n (i + 1) _)

  -- The writes of `multiply` do what `multiply` does.
  pub run-multiply_ops :
      (start end : ℕ) (m : Mem)
      → run (multiply_ops size a b c start end) m ≡ multiply size a b c start end m
  unfolding multiply_ops multiply
  run-multiply_ops start end m = run-row_ops (end - start) start m

  pub row_loop-append :
      (n k i : ℕ) (m : Mem)
      → row_loop size a b c (n + k) i m ≡ row_loop size a b c k (i + n) (row_loop size a b c n i m)
  unfolding row_loop
  row_loop-append zero k i m =
      let p : 0 + k ≡ k = omega arith in
      let q : i ≡ i + 0 = omega arith in
      ap (λ x. row_loop size a b c x i m) p ∙ ap (λ x. row_loop size a b c k x m) q
  row_loop-append (suc n) k i m =
      let p : suc n + k ≡ suc (n + k) = omega arith in
      let q : i + 1 + n ≡ i + suc n = omega arith in
      ap (λ x. row_loop size a b c x i m) p
      ∙ (row_loop-append n k (i + 1) _
          ∙ ap
              (λ x.
                row_loop size a b c k x
                  (row_loop size a b c n (i + 1) (column_loop size a b c size 0 i m)))
              q)

  -- The rows in two parts.
  pub multiply-split :
      (start mid end : ℕ) (m : Mem)
      → start ≤ mid
      → mid ≤ end
      → multiply size a b c start end m
        ≡ multiply size a b c mid end (multiply size a b c start mid m)
  unfolding multiply
  multiply-split start mid end m p q =
      ap (λ n. row_loop size a b c n start m) (omega arith)
      ∙ (row_loop-append (mid - start) (end - mid) start m
          ∙ ap (λ x. row_loop size a b c (end - mid) x (row_loop size a b c (mid - start) start m))
              (omega arith))

  module _ (start end : ℕ) (apart : Apart size a b c start end) where
    -- The cells from `p` to `q`, and the rows from `i` to `e`.
    abbrev pub Cells : ℕ → ℕ → List Op → Type 0
    Cells p q = Within (c + p) (c + q) (c + start * size) (c + end * size)

    abbrev pub Rows : ℕ → ℕ → List Op → Type 0
    Rows i e = Cells (i * size) (e * size)

    pub reads_first :
        (i k : ℕ)
        → start ≤ i
        → i < end
        → k < size
        → Outside (c + start * size) (c + end * size) (a + (i * size + k))
    reads_first i k lo hi h =
        let below : i * size + k < end * size = cell-lt i end k size hi h in
        let above : start * size ≤ i * size = mul-le-mul_right size lo in
        ground (arith, below, above, apart.first_apart)

    pub reads_second :
        (k j : ℕ)
        → k < size
        → j < size
        → Outside (c + start * size) (c + end * size) (b + (k * size + j))
    reads_second k j h l =
        let below : k * size + j < size * size = cell-lt k size j size h l in
        ground (arith, below, apart.second_apart)

    pub sum_ops-Within :
        (n k i j : ℕ)
        → start ≤ i
        → i < end
        → j < size
        → k + n ≤ size
        → Cells (i * size + j) (i * size + (j + 1)) (sum_ops size a b c n k i j)
    unfolding sum_ops
    sum_ops-Within zero k i j lo hi h l = tt
    sum_ops-Within (suc n) k i j lo hi h l = (
      omega arith,
      omega arith,
      (reads_first i k lo hi (omega arith), reads_second k j (omega arith) h),
      sum_ops-Within n (k + 1) i j lo hi h (omega arith),
    )

    pub column_ops-Within :
        (n j i : ℕ)
        → start ≤ i
        → i < end
        → j + n ≤ size
        → Cells (i * size + j) (i * size + (j + n)) (column_ops size a b c n j i)
    unfolding column_ops
    column_ops-Within zero j i lo hi h = tt
    column_ops-Within (suc n) j i lo hi h = (
      omega arith,
      omega arith,
      tt,
      Within-append _ _ _ _ (sum_ops size a b c size 0 i j) _
          (Within-wider _ _ _ _ _ _ (sum_ops size a b c size 0 i j) (omega arith) (omega arith)
            (sum_ops-Within size 0 i j lo hi (omega arith) (omega arith)))
          (Within-wider _ _ _ _ _ _ (column_ops size a b c n (j + 1) i) (omega arith) (omega arith)
            (column_ops-Within n (j + 1) i lo hi (omega arith))),
    )

    pub row_ops-Within :
        (n i : ℕ) → start ≤ i → i + n ≤ end → Rows i (i + n) (row_ops size a b c n i)
    unfolding row_ops
    row_ops-Within zero i lo hi = tt
    row_ops-Within (suc n) i lo hi =
        let last : (i + 1) * size ≤ (i + suc n) * size = mul-le-mul_right size (omega arith) in
        let one_row : i * size + size ≤ (i + 1) * size = omega arith in
        let next : i * size ≤ (i + 1) * size = mul-le-mul_right size (omega arith) in
        let same : (i + 1 + n) * size ≤ (i + suc n) * size = mul-le-mul_right size (omega arith) in
        Within-append _ _ _ _ (column_ops size a b c size 0 i) _
          (Within-wider _ _ _ _ _ _ _ (omega arith) (omega (arith, last, one_row))
            (column_ops-Within size 0 i lo (omega arith) (omega arith)))
          (Within-wider _ _ _ _ _ _ _ (omega (arith, next)) (omega (arith, same))
            (row_ops-Within n (i + 1) (omega arith) (omega arith)))

    pub multiply_ops-Within :
        (i e : ℕ) → start ≤ i → i ≤ e → e ≤ end → Rows i e (multiply_ops size a b c i e)
    unfolding multiply_ops
    multiply_ops-Within i e lo h hi =
        subst (λ x. Rows i x (row_ops size a b c (e - i) i)) (omega arith)
          (row_ops-Within (e - i) i lo (omega arith))

-- The two threads that fxnTest1 starts on an M3 core, whatever the order of their writes, leave the
-- memory as one call of multiply for all the rows does. This is for buffers that lie apart and a
-- range of rows that is not negative.
pub run-multiply_ops_threads :
    (size a b c start end : ℕ) (zs : List Op) (m : Mem) (p : ℕ)
    → start ≤ end
    → Apart size a b c start end
    → Interleaves
        (multiply_ops size a b c start (middle start end))
        (multiply_ops size a b c (middle start end) end)
        zs
    → run zs m p ≡ multiply size a b c start end m p
run-multiply_ops_threads size a b c start end zs m p h apart i =
    run-Interleaves (c + start * size) (c + (middle start end) * size) (c + end * size) _ _ zs m p
      (omega (arith, lower)) (omega (arith, upper))
      (multiply_ops-Within size a b c start end apart start (middle start end) (omega arith)
        (omega arith) (omega arith))
      (multiply_ops-Within size a b c start end apart (middle start end) end (omega arith)
        (omega arith) (omega arith))
      i
    ∙ ap (λ (f : Mem). f p)
        (run-multiply_ops size a b c (middle start end) end _
          ∙ (ap (multiply size a b c (middle start end) end)
                (run-multiply_ops size a b c start (middle start end) m)
              ∙ sym (
                  multiply-split size a b c start (middle start end) end m (omega arith)
                    (omega arith))))
  where
    lower : start * size ≤ (middle start end) * size
    lower = mul-le-mul_right size (omega arith)

    upper : (middle start end) * size ≤ end * size
    upper = mul-le-mul_right size (omega arith)

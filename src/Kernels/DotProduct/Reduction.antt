-- ===== src/Kernels/DotProduct/Reduction.antt =====
-- The shared sum, whatever the order of the cores.
use benchmarks_m3_dsp_unopti.Base.{
  ℕ, zero, suc, ◌+◌, ◌*◌, ◌-◌, ◌%◌, ◌^◌, ◌<◌, ◌≤◌, ◌≡◌, ◌≢◌, refl, sym, ap, ap₂, ◌∙◌, subst, ◌⊎◌,
  inl, inr, ◌==◌, List, [], ◌∷◌, arith, if_true, if_false, ==_iff, update, Bool-cases,
}
use native.Mathlib.Nat.{ℕ_set}
use mathlib.Core.List.{Perm, Permᴰ}
use mathlib.Core.Logic.{∥∥₁_elim}
use benchmarks_m3_dsp_unopti.Kernels.{Mem, middle}
use benchmarks_m3_dsp_unopti.Kernels.DotProduct.{
  Part, dsp, m3, rounds, fill_loop, sum_loop, dot_product, added, reduce,
}

-- The sum of the squares of `n` numbers from `i` on.
unfoldable pub squares : ℕ → ℕ → ℕ
squares zero i = 0
squares (suc n) i = i * i + squares n (i + 1)

squares-append : (n k i : ℕ) → squares (n + k) i ≡ squares n i + squares k (i + n)
unfolding squares
squares-append zero k i =
    let p : 0 + k ≡ k = omega arith in
    let q : i + 0 ≡ i = omega arith in
    ap (λ x. squares x i) p ∙ (ap (squares k) (sym q) ∙ omega arith)
squares-append (suc n) k i =
    let p : suc n + k ≡ suc (n + k) = omega arith in
    let q : i + 1 + n ≡ i + suc n = omega arith in
    let r : squares k (i + 1 + n) ≡ squares k (i + suc n) = ap (squares k) q in
    ap (λ x. squares x i) p ∙ omega (arith, squares-append n k (i + 1), r)

squares-split :
    (i k e : ℕ) → i ≤ k → k ≤ e → squares (e - i) i ≡ squares (k - i) i + squares (e - k) k
squares-split i k e p q =
    let whole : e - i ≡ (k - i) + (e - k) = omega (arith, p, q) in
    let here : i + (k - i) ≡ k = omega (arith, p) in
    ap (λ x. squares x i) whole
    ∙ (squares-append (k - i) (e - k) i ∙ ap (λ x. squares (k - i) i + squares (e - k) x) here)

-- The parts of the cores follow each other and cover a range.
pub data Tiles : ℕ → ℕ → List Part → Type 0 where
  none_left : (i : ℕ) → Tiles i i []
  dsp_part :
      (i k e : ℕ) (m : Mem) (ps : List Part) → i ≤ k → Tiles k e ps → Tiles i e (dsp i k m ∷ ps)
  m3_part :
      (i k e : ℕ) (m n : Mem) (ps : List Part) → i ≤ k → Tiles k e ps → Tiles i e (m3 i k m n ∷ ps)

Tiles-le : (i e : ℕ) (ps : List Part) → Tiles i e ps → i ≤ e
Tiles-le _ _ _ (none_left i) = omega arith
Tiles-le _ _ _ (dsp_part i k e m ps h t) = omega (arith, h, Tiles-le k e ps t)
Tiles-le _ _ _ (m3_part i k e m n ps h t) = omega (arith, h, Tiles-le k e ps t)

module _ (a b : ℕ) where
  -- The two buffers do not overlap, from one index to another.
  abbrev pub Apart : ℕ → ℕ → Type 0
  Apart start end = (a + end ≤ b + start) ⊎ (b + end ≤ a + start)

  Apart-narrower : (s e s' e' : ℕ) → s ≤ s' → e' ≤ e → Apart s e → Apart s' e'
  Apart-narrower s e s' e' p q h = ground (arith, p, q, h)

  stored : ℕ → Mem → Mem
  stored i m = update (update m (b + i) (i % 2 ^ 32)) (a + i) (i % 2 ^ 32)

  stored_ne : (i q : ℕ) (m : Mem) → a + i ≢ q → b + i ≢ q → stored i m q ≡ m q
  unfolding stored
  stored_ne i q m h k =
      if_false (a + i == q) _ _ (ground (arith, h)) ∙ if_false (b + i == q) _ _ (ground (arith, k))

  stored_at : (i q : ℕ) (m : Mem) → (a + i ≡ q) ⊎ (b + i ≡ q) → stored i m q ≡ i % 2 ^ 32
  unfolding stored
  stored_at i q m h = elim (Bool-cases (a + i == q)) [
    | inl e ↦ if_true (a + i == q) _ _ e
    | inr e ↦ if_false (a + i == q) _ _ e ∙ if_true (b + i == q) _ _ (ground (arith, e, h))
  ]

  fill_loop_outside :
      (n i q : ℕ) (m : Mem)
      → (q < a + i) ⊎ (a + i + n ≤ q)
      → (q < b + i) ⊎ (b + i + n ≤ q)
      → fill_loop a b n i m q ≡ m q
  unfolding fill_loop stored
  fill_loop_outside zero i q m h k = refl
  fill_loop_outside (suc n) i q m h k =
      fill_loop_outside n (i + 1) q (stored i m) (ground (arith, h)) (ground (arith, k))
      ∙ stored_ne i q m (λ e. ground (arith, h, e)) (λ e. ground (arith, k, e))

  fill_loop-at :
      (n i j q : ℕ) (m : Mem)
      → Apart i (i + n)
      → i ≤ j
      → j < i + n
      → (a + j ≡ q) ⊎ (b + j ≡ q)
      → fill_loop a b n i m q ≡ j % 2 ^ 32
  unfolding fill_loop stored
  fill_loop-at zero i j q m h l u at = absurd (omega (arith, l, u))
  fill_loop-at (suc n) i j q m h l u at = elim (Bool-cases (i == j)) [
    | inl e ↦
        let same : i ≡ j = (==_iff i j).0 e in
        fill_loop_outside n (i + 1) q (stored i m) (ground (arith, h, same, at))
          (ground (arith, h, same, at))
        ∙ (stored_at i q m (ground (arith, same, at)) ∙ ap (λ x. x % 2 ^ 32) same)
    | inr e ↦
        fill_loop-at n (i + 1) j q (stored i m)
          (Apart-narrower i (i + suc n) (i + 1) (i + 1 + n) (omega arith) (omega arith) h)
          (ground (arith, e, l)) (omega (arith, u)) at
  ]

  sum_loop_lem :
      (n i sum : ℕ) (m : Mem)
      → i + n ≤ 2 ^ 32
      → sum < 2 ^ 32
      → ((j : ℕ) → i ≤ j → j < i + n → (m (a + j) ≡ j % 2 ^ 32) × (m (b + j) ≡ j % 2 ^ 32))
      → sum_loop a b n i m sum ≡ (sum + squares n i) % 2 ^ 32
  unfolding sum_loop squares
  sum_loop_lem zero i sum m h s f = omega (arith, s)
  sum_loop_lem (suc n) i sum m h s f =
      let (p, q) = f i (omega arith) (omega arith) in
      let x : m (a + i) ≡ i = omega (arith, p, h) in
      let y : m (b + i) ≡ i = omega (arith, q, h) in
      ap (sum_loop a b n (i + 1) m) (ap₂ (λ u v. (sum + u * v) % 2 ^ 32) x y)
      ∙ (sum_loop_lem n (i + 1) ((sum + i * i) % 2 ^ 32) m (omega (arith, h)) (omega arith)
            (λ j l u. f j (omega (arith, l)) (omega (arith, u)))
          ∙ omega arith)

  rounds_lem : (start end : ℕ) → start ≤ end → end < 2 ^ 31 → rounds start end ≡ end - start
  rounds_lem start end h k = omega arith

  dot_product_lem :
      (start end : ℕ) (m : Mem)
      → start ≤ end
      → end < 2 ^ 31
      → Apart start end
      → dot_product a b start end m ≡ squares (end - start) start % 2 ^ 32
  unfolding dot_product
  dot_product_lem start end m h k d =
      let n = end - start in
      let whole : start + n ≡ end = omega (arith, h) in
      let apart : Apart start (start + n) = subst (Apart start) (sym whole) d in
      ap (λ r. sum_loop a b r start (fill_loop a b r start m) 0) (rounds_lem start end h k)
      ∙ (sum_loop_lem n start 0 (fill_loop a b n start m) (omega (arith, whole, k)) (omega arith)
            (λ j l u. (
              fill_loop-at n start j (a + j) m apart l u (inl refl),
              fill_loop-at n start j (b + j) m apart l u (inr refl),
            ))
          ∙ omega arith)

  -- The sum of what the cores add.
  total : List Part → ℕ
  total [] = 0
  total (p ∷ ps) = added a b p + total ps

  total-Permᴰ : {ps qs : List Part} → Permᴰ ps qs → total ps ≡ total qs
  unfolding total
  total-Permᴰ Permᴰ.nil = refl
  total-Permᴰ (Permᴰ.cons e d) = ap₂ (λ x y. x + y) (ap (added a b) e) (total-Permᴰ d)
  total-Permᴰ (Permᴰ.swap e f) = omega (arith, ap (added a b) e, ap (added a b) f)
  total-Permᴰ (Permᴰ.trans d e) = total-Permᴰ d ∙ total-Permᴰ e

  reduce_lem : (ps : List Part) (r : ℕ) → r < 2 ^ 32 → reduce a b ps r ≡ (r + total ps) % 2 ^ 32
  unfolding reduce total
  reduce_lem [] r h = omega (arith, h)
  reduce_lem (p ∷ ps) r h = reduce_lem ps _ (omega arith) ∙ omega arith

  nothing_left : (i : ℕ) → 0 ≡ i - i
  nothing_left i = omega arith

  total-Tiles :
      (i e : ℕ) (ps : List Part)
      → Tiles i e ps
      → e < 2 ^ 31
      → Apart i e
      → total ps % 2 ^ 32 ≡ squares (e - i) i % 2 ^ 32
  unfolding total squares
  total-Tiles _ _ _ (none_left i) h d = ap (λ x. squares x i % 2 ^ 32) (nothing_left i)
  total-Tiles _ _ _ (dsp_part i k e m ps l t) h d =
      let after = Tiles-le k e ps t in
      let here =
        dot_product_lem i k m l (omega (arith, after, h))
          (Apart-narrower i e i k (omega arith) after d) in
      let rest = total-Tiles k e ps t h (Apart-narrower i e k e l (omega arith) d) in
      omega (arith, here, rest, squares-split i k e l after)
  total-Tiles _ _ _ (m3_part i k e m n ps l t) h d =
      let after = Tiles-le k e ps t in
      let c : i ≤ middle i k = omega arith in
      let u : middle i k ≤ k = omega (arith, l) in
      let here =
        dot_product_lem i (middle i k) m c (omega (arith, u, after, h))
          (Apart-narrower i e i (middle i k) (omega arith) (omega (arith, u, after)) d) in
      let there =
        dot_product_lem (middle i k) k n u (omega (arith, after, h))
          (Apart-narrower i e (middle i k) k c after d) in
      let rest = total-Tiles k e ps t h (Apart-narrower i e k e l (omega arith) d) in
      omega
        (arith, here, there, rest, squares-split i k e l after, squares-split i (middle i k) k c u)

-- The cores, in whatever order they get the lock, add up to the sum of the squares of the whole range,
-- modulo 2 ^ 32. This is for a word that is 0 before, cores whose parts follow each other and cover the
-- range, an end below 2 ^ 31, which is not negative as an int, and buffers that do not overlap in the
-- range; the memory that a thread starts with does not matter.
pub reduce-Tiles :
    (a b start end : ℕ) (ps qs : List Part)
    → Tiles start end ps
    → end < 2 ^ 31
    → Apart a b start end
    → Perm ps qs
    → reduce a b qs 0 ≡ squares (end - start) start % 2 ^ 32
reduce-Tiles a b start end ps qs t h d perm =
    reduce_lem a b qs 0 (omega arith)
    ∙ (ap (λ x. (0 + x) % 2 ^ 32) (∥∥₁_elim perm (ℕ_set _ _) (λ e. sym (total-Permᴰ a b e)))
        ∙ (omega arith ∙ total-Tiles a b start end ps t h d))

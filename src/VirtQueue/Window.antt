-- ===== src/VirtQueue/Window.antt =====
-- A ring of 256 cells under free-running UInt16 indices, read as the list from one index up to
-- another.
use benchmarks_m3_dsp_unopti.Base.{
  ℕ, zero, suc, ◌+◌, ◌-◌, ◌%◌, ◌^◌, ◌<◌, ◌≡◌, ◌≢◌, ap, ap₂, ◌∙◌, List, [], ◌∷◌, ◌++◌, arith,
}
use benchmarks_m3_dsp_unopti.VirtQueue.{incr16}

-- How far `last` is ahead of `first`.
abbrev pub ahead : ℕ → ℕ → ℕ
ahead first last = (last + 2 ^ 16 - first) % 2 ^ 16

-- The two rings agree but for the cell at index `i`, which holds `v` in the second.
pub record Writes {ℓ} {A : Type ℓ} (i : ℕ) (v : A) (f g : ℕ → A) : Type ℓ where
  pub written : g (i % 256) ≡ v
  pub others : (j : ℕ) → j ≢ i % 256 → g j ≡ f j

module _ {ℓ} {A : Type ℓ} where
  -- The `n` entries from index `first` on.
  abbrev pub window : (ℕ → A) → ℕ → ℕ → List A
  window f first zero = []
  window f first (suc n) = f (first % 256) ∷ window f (incr16 first) n

  -- A write just behind a window of less than 256 entries extends it.
  pub window-push :
      (f g : ℕ → A) (i first n : ℕ) (v : A)
      → first < 2 ^ 16
      → n < 256
      → i ≡ (first + n) % 2 ^ 16
      → Writes i v f g
      → window g first (suc n) ≡ window f first n ++ v ∷ []
  window-push f g i first zero v hf hn e w =
      ap (λ x. x ∷ []) (ap (λ k. g k) (omega arith) ∙ w.written)
  window-push f g i first (suc n) v hf hn e w =
      ap₂ ◌∷◌ (w.others (first % 256) (omega arith))
        (window-push f g i (incr16 first) n v (omega arith) (omega arith) (omega arith) w)

  -- The window up to `last`.
  abbrev pub between : (ℕ → A) → ℕ → ℕ → List A
  between f first last = window f first (ahead first last)

  pub between-push :
      (f g : ℕ → A) (first last : ℕ) (v : A)
      → first < 2 ^ 16
      → last < 2 ^ 16
      → ahead first last < 256
      → Writes last v f g
      → between g first (incr16 last) ≡ between f first last ++ v ∷ []
  between-push f g first last v hf hl h w =
      ap (window g first) {y = suc (ahead first last)} (omega arith)
      ∙ window-push f g last first (ahead first last) v hf h (omega arith) w

  -- Unless the indices are equal the first entry is that at `first`.
  pub between-pop :
      (f : ℕ → A) (first last : ℕ)
      → first < 2 ^ 16
      → last < 2 ^ 16
      → first ≢ last
      → between f first last ≡ f (first % 256) ∷ between f (incr16 first) last
  between-pop f first last hf hl h =
      ap (window f first) {x = ahead first last} {y = suc (ahead (incr16 first) last)} (omega arith)

  pub between-nil : (f : ℕ → A) (i : ℕ) → i < 2 ^ 16 → between f i i ≡ []
  between-nil f i h = ap (window f i) {x = ahead i i} {y = 0} (omega arith)

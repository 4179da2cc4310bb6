-- ===== src/IpcMemory/RoundTrip.antt =====
-- A physical address leads back to the device address that it was made from.
use benchmarks_m3_dsp_unopti.Base.{
  ℕ, zero, suc, ◌+◌, ◌-◌, ◌^◌, ◌<◌, ◌≤◌, ◌≡◌, ◌≢◌, refl, sym, ap, ◌∙◌, ◌⊎◌, inl, inr, Option, none,
  some, List, true, false, length, arith, Bool-cases,
}
use native.Mathlib.Decide.{ℕ_discrete}
use mathlib.Core.Option.{some-injective}
use benchmarks_m3_dsp_unopti.IpcMemory.{
  Entry, get_entry, covers, shifted, virt_at, virt_from, virt_to_phys, phys_at, phys_from,
  phys_to_virt,
}

-- Neither range of an entry reaches the end of the 32-bit addresses.
pub record Fits (e : Entry) : Type 0 where
  pub da_fits : e.da + e.len < 2 ^ 32
  pub pa_fits : e.pa + e.len < 2 ^ 32

-- The entries of memory fit, and their physical ranges do not overlap.
pub record IsMap (table : List Entry) : Type 0 where
  pub fits : (i : ℕ) (e : Entry) → get_entry table i ≡ some e → Fits e
  pub apart :
      (i j : ℕ) (e f : Entry)
      → i ≢ j
      → get_entry table i ≡ some e
      → get_entry table j ≡ some f
      → (e.pa + e.len ≤ f.pa) ⊎ (f.pa + f.len ≤ e.pa)

-- The entry that a device address is found in, at one of the `n` indices from `i` on.
pub record Found (table : List Entry) (i n va pa : ℕ) : Type 0 where
  pub at : ℕ
  pub entry : Entry
  pub from_i : i ≤ at
  pub below : at < i + n
  pub is_entry : get_entry table at ≡ some entry
  pub in_range : (entry.da ≤ va) × (va < entry.da + entry.len)
  pub is_pa : pa ≡ entry.pa + (va - entry.da)

later :
    (table : List Entry) (i n va pa : ℕ) → Found table (i + 1) n va pa → Found table i (suc n) va pa
later table i n va pa f = record {
  at = f.at;
  entry = f.entry;
  from_i = omega (arith, f.from_i);
  below = omega (arith, f.below);
  is_entry = f.is_entry;
  in_range = f.in_range;
  is_pa = f.is_pa;
}

covers-bounds :
    (base len a : ℕ)
    → base + len < 2 ^ 32
    → covers base len a ≡ true
    → (base ≤ a) × (a < base + len)
covers-bounds base len a h c = ground arith

shifted-exact :
    (from to len a : ℕ)
    → to + len < 2 ^ 32
    → from ≤ a
    → a < from + len
    → shifted from to a ≡ to + (a - from)
shifted-exact from to len a h l u = ground arith

covers-inside :
    (base len a : ℕ) → base + len < 2 ^ 32 → base ≤ a → a < base + len → covers base len a ≡ true
covers-inside base len a h l u = ground arith

covers-outside :
    (base len a : ℕ)
    → base + len < 2 ^ 32
    → (a < base) ⊎ (base + len ≤ a)
    → covers base len a ≡ false
covers-outside base len a h o = ground arith

-- One round that finds the address, or leaves it to the others.
virt_at-inv :
    (o : Option Entry) (va pa : ℕ) (rest : Option ℕ)
    → virt_at o va rest ≡ some pa
    → ((e : Entry) × (o ≡ some e) × (covers e.da e.len va ≡ true) × (shifted e.da e.pa va ≡ pa))
      ⊎ (rest ≡ some pa)
virt_at-inv none va pa rest q = inr q
virt_at-inv (some e) va pa rest q = elim (Bool-cases (covers e.da e.len va)) [
  | inl c ↦ inl (e, refl, c, some-injective _ _ (sym (rw (c) refl) ∙ q))
  | inr c ↦ inr (sym (rw (c) refl) ∙ q)
]

virt_from-Found :
    (n : ℕ) (table : List Entry) (i va pa : ℕ)
    → IsMap table
    → virt_from n table i va ≡ some pa
    → Found table i n va pa
unfolding virt_from
virt_from-Found zero table i va pa m q = absurd (ground (arith, q))
virt_from-Found (suc n) table i va pa m q =
    elim (virt_at-inv (get_entry table i) va pa (virt_from n table (i + 1) va) q) [
      | inr z ↦ later table i n va pa (virt_from-Found n table (i + 1) va pa m z)
      | inl (e, g, c, z) ↦
          let f = m.fits i e g in
          let r = covers-bounds e.da e.len va f.da_fits c in
          record {
            at = i;
            entry = e;
            from_i = omega arith;
            below = omega arith;
            is_entry = g;
            in_range = r;
            is_pa = sym z ∙ shifted-exact e.da e.pa e.len va f.pa_fits r.0 r.1;
          }
    ]

phys_at-here :
    (e : Entry) (va pa : ℕ) (rest : Option ℕ)
    → Fits e
    → (e.da ≤ va) × (va < e.da + e.len)
    → pa ≡ e.pa + (va - e.da)
    → phys_at (some e) pa rest ≡ some va
phys_at-here e va pa rest f (l, u) q =
    rw (covers-inside e.pa e.len pa f.pa_fits (omega (arith, q)) (omega (arith, q, l, u))) (
      ap some (
        shifted-exact e.pa e.da e.len pa f.da_fits (omega (arith, q)) (omega (arith, q, l, u))
        ∙ omega (arith, q, l)))

phys_at-elsewhere :
    (o : Option Entry) (pa : ℕ) (rest : Option ℕ)
    → ((e : Entry) → o ≡ some e → covers e.pa e.len pa ≡ false)
    → phys_at o pa rest ≡ rest
phys_at-elsewhere none pa rest c = refl
phys_at-elsewhere (some e) pa rest c = rw (c e refl) refl

phys_from-Found :
    (n : ℕ) (table : List Entry) (i va pa : ℕ)
    → IsMap table
    → Found table i n va pa
    → phys_from n table i pa ≡ some va
unfolding phys_from
phys_from-Found zero table i va pa m f = absurd (omega (arith, f.from_i, f.below))
phys_from-Found (suc n) table i va pa m f = elim (ℕ_discrete i f.at) [
  | yes p ↦
      ap (λ o. phys_at o pa (phys_from n table (i + 1) pa)) (ap (get_entry table) p ∙ f.is_entry)
      ∙ phys_at-here f.entry va pa _ (m.fits f.at f.entry f.is_entry) f.in_range f.is_pa
  | no p ↦
      phys_at-elsewhere (get_entry table i) pa _ (λ e g.
        covers-outside e.pa e.len pa (m.fits i e g).pa_fits
          (outside e (m.apart i f.at e f.entry p g f.is_entry)))
      ∙ phys_from-Found n table (i + 1) va pa m (record {
        at = f.at;
        entry = f.entry;
        from_i = omega (arith, f.from_i, p);
        below = omega (arith, f.below);
        is_entry = f.is_entry;
        in_range = f.in_range;
        is_pa = f.is_pa;
      })
]
  where
    outside :
        (e : Entry)
        → (e.pa + e.len ≤ f.entry.pa) ⊎ (f.entry.pa + f.entry.len ≤ e.pa)
        → (pa < e.pa) ⊎ (e.pa + e.len ≤ pa)
    outside e (inl l) = inr (omega (arith, f.is_pa, l))
    outside e (inr l) = inl (omega (arith, f.is_pa, f.in_range.0, f.in_range.1, l))

-- In a table whose entries of memory end below the last 32-bit address and do not overlap in their
-- physical ranges, the physical address that IpcMemory_virtToPhys finds for a device address leads
-- back to it by IpcMemory_physToVirt.
pub phys_to_virt-virt_to_phys :
    (table : List Entry) (va pa : ℕ)
    → IsMap table
    → virt_to_phys table va ≡ some pa
    → phys_to_virt table pa ≡ some va
unfolding virt_to_phys phys_to_virt
phys_to_virt-virt_to_phys table va pa m q =
    phys_from-Found (length table) table 0 va pa m
      (virt_from-Found (length table) table 0 va pa m q)

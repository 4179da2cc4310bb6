-- ===== src/IpcMemory/Tests.antt =====
-- Addresses of a small table.
use benchmarks_m3_dsp_unopti.Base.{
  ℕ, zero, suc, ◌≡◌, ◌≢◌, refl, subst, ◌⊎◌, inl, inr, ◌+◌, ◌≤◌, none, some, List, [], ◌∷◌, arith,
}
use mathlib.Core.Option.{some-injective}
use benchmarks_m3_dsp_unopti.IpcMemory.{Entry, get_entry, virt_from, virt_to_phys, phys_to_virt}
use benchmarks_m3_dsp_unopti.IpcMemory.RoundTrip.{Fits, IsMap, phys_to_virt-virt_to_phys}

-- The code at 0, a trace buffer, which is no entry of memory, and the registers.
abbrev code : Entry
code = record { type = 0; da = 0; pa = 0x95000000; len = 0x400000 }

abbrev trace : Entry
trace = record { type = 2; da = 0x80000000; pa = 0; len = 0x8000 }

abbrev registers : Entry
registers = record { type = 1; da = 0x6A000000; pa = 0x4A000000; len = 0x1000000 }

abbrev table : List Entry
table = code ∷ trace ∷ registers ∷ []

virt_to_phys-registers : virt_to_phys table 0x6A002000 ≡ some 0x4A002000
unfolding virt_to_phys virt_from get_entry
virt_to_phys-registers = refl

-- A range that ends with the last 32-bit address: the end wraps to 0, so nothing in it is found.
virt_to_phys-last :
    virt_to_phys (record code { da = 0xF0000000; len = 0x10000000 } ∷ []) 0xF0000000 ≡ none
unfolding virt_to_phys virt_from get_entry
virt_to_phys-last = refl

table-IsMap : IsMap table
unfolding get_entry
table-IsMap = record { fits = fits; apart = apart }
  where
    fits : (i : ℕ) (e : Entry) → get_entry table i ≡ some e → Fits e
    fits zero e g =
        subst Fits (some-injective _ _ g) (record { da_fits = omega arith; pa_fits = omega arith })
    fits (suc zero) e g = absurd (ground (arith, g))
    fits (suc (suc zero)) e g =
        subst Fits (some-injective _ _ g) (record { da_fits = omega arith; pa_fits = omega arith })
    fits (suc (suc (suc i))) e g = absurd (ground (arith, g))

    apart :
        (i j : ℕ) (e f : Entry)
        → i ≢ j
        → get_entry table i ≡ some e
        → get_entry table j ≡ some f
        → (e.pa + e.len ≤ f.pa) ⊎ (f.pa + f.len ≤ e.pa)
    apart zero zero e f d g h = absurd (d refl)
    apart zero (suc (suc zero)) e f d g h =
        subst (λ x. (x.pa + x.len ≤ f.pa) ⊎ (f.pa + f.len ≤ x.pa)) (some-injective _ _ g)
          (subst (λ x. (code.pa + code.len ≤ x.pa) ⊎ (x.pa + x.len ≤ code.pa))
            (some-injective _ _ h) (inr (omega arith)))
    apart (suc (suc zero)) zero e f d g h =
        subst (λ x. (x.pa + x.len ≤ f.pa) ⊎ (f.pa + f.len ≤ x.pa)) (some-injective _ _ g)
          (subst (λ x. (registers.pa + registers.len ≤ x.pa) ⊎ (x.pa + x.len ≤ registers.pa))
            (some-injective _ _ h) (inl (omega arith)))
    apart (suc (suc zero)) (suc (suc zero)) e f d g h = absurd (d refl)
    apart (suc zero) j e f d g h = absurd (ground (arith, g))
    apart (suc (suc (suc i))) j e f d g h = absurd (ground (arith, g))
    apart zero (suc zero) e f d g h = absurd (ground (arith, h))
    apart zero (suc (suc (suc j))) e f d g h = absurd (ground (arith, h))
    apart (suc (suc zero)) (suc zero) e f d g h = absurd (ground (arith, h))
    apart (suc (suc zero)) (suc (suc (suc j))) e f d g h = absurd (ground (arith, h))

phys_to_virt-virt_to_phys_example : phys_to_virt table 0x4A002000 ≡ some 0x6A002000
phys_to_virt-virt_to_phys_example =
    phys_to_virt-virt_to_phys table 0x6A002000 0x4A002000 table-IsMap virt_to_phys-registers

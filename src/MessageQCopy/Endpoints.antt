-- ===== src/MessageQCopy/Endpoints.antt =====
-- Which endpoint `MessageQCopy_create` gives out.
use benchmarks_m3_dsp_unopti.Base.{
  ℕ, zero, suc, ◌+◌, ◌%◌, ◌^◌, ◌<◌, ◌≤◌, ◌≡◌, ◌≢◌, refl, sym, subst, ◌∙◌, ◌⊎◌, inl, inr, leb, ◌==◌,
  Option, none, some, List, Bool, true, false, length, get_elem?, arith, get_elem?-ne-none,
  Bool-cases, ==_iff,
}
use native.Mathlib.Decide.{ℕ_discrete}
use benchmarks_m3_dsp_unopti.Bios.{Bios}
use benchmarks_m3_dsp_unopti.MessageQCopy.{
  Elem, Outcome, returns, max_objects, max_reserved_endpoint, assign_any, Endpoint, Module,
  put_object, free_from, choose_slot, new_endpoint, create, give_slot, reserved_slot,
}

module _ (b : Bios Elem) where
  free_slot : (o : Option (Option (Endpoint b))) → (o ≡ some none) ⊎ (o ≢ some none)
  free_slot none = inr (λ e. ground (arith, e))
  free_slot (some none) = inl refl
  free_slot (some (some e)) = inr (λ e. ground (arith, e))

  -- The slots that the search passes over are in use.
  pub data Searches (i : ℕ) (os : List (Option (Endpoint b))) : ℕ → Option ℕ → Type 0 where
    finds :
        {n : ℕ} (j : ℕ) → get_elem? os j ≡ some none → i ≤ j → j < i + n → Searches i os n (some j)
    all_taken :
        {n : ℕ} → ((j : ℕ) → i ≤ j → j < i + n → get_elem? os j ≢ some none) → Searches i os n none

  -- One more slot in front, in use.
  widen :
      (i n : ℕ) (os : List (Option (Endpoint b))) (r : Option ℕ)
      → get_elem? os i ≢ some none
      → Searches (i + 1) os n r
      → Searches i os (suc n) r
  widen i n os r ne (finds j q lo hi) = finds j q (omega arith) (omega arith)
  widen i n os r ne (all_taken f) = all_taken (behind f)
    where
      behind :
          ((j : ℕ) → i + 1 ≤ j → j < i + 1 + n → get_elem? os j ≢ some none)
          → (j : ℕ) → i ≤ j
          → j < i + suc n
          → get_elem? os j ≢ some none
      behind f j lo hi = elim (ℕ_discrete i j) [
        | yes p ↦ subst (λ k. get_elem? os k ≢ some none) p ne
        | no p ↦ f j (omega (arith, p)) (omega arith)
      ]

  pub free_from-Searches :
      (n i : ℕ) (os : List (Option (Endpoint b)))
      → i + n ≤ length os
      → Searches i os n (free_from b n i os)
  unfolding free_from
  free_from-Searches zero i os h = all_taken (λ j lo hi. absurd (omega arith))
  free_from-Searches (suc n) i os h =
      here (get_elem? os i) refl (free_from-Searches n (i + 1) os (omega arith))
    where
      here :
          (o : Option (Option (Endpoint b)))
          → get_elem? os i ≡ o
          → Searches (i + 1) os n (free_from b n (i + 1) os)
          → Searches i os (suc n) (elim o [
            | some p ↦ elim p [ none ↦ some i | some e ↦ free_from b n (i + 1) os ]
            | none ↦ none
          ])
      here none q s = absurd (get_elem?-ne-none os i (omega arith) q)
      here (some none) q s = finds i q (omega arith) (omega arith)
      here (some (some e)) q s = widen i n os _ (λ f. ground (arith, sym q ∙ f)) s

  -- What a call of `MessageQCopy_create` returns.
  pub data Creates (m : Module b) (reserved : ℕ) (mem : Bool)
      : Outcome (Option ℕ × Module b) → Type 0 where
    gives_any :
        (i : ℕ)
        → reserved ≡ assign_any
        → mem ≡ true
        → get_elem? m.objects i ≡ some none
        → max_reserved_endpoint < i
        → i < max_objects
        → Creates m reserved mem (returns (some i, put_object b m i (some (new_endpoint b i))))
    gives_reserved :
        (i : ℕ)
        → reserved ≢ assign_any
        → i ≡ reserved % 2 ^ 16
        → mem ≡ true
        → get_elem? m.objects i ≡ some none
        → i ≤ max_reserved_endpoint
        → Creates m reserved mem (returns (some i, put_object b m i (some (new_endpoint b i))))
    has_none_left :
        reserved ≡ assign_any
        → ((j : ℕ)
            → max_reserved_endpoint < j
            → j < max_objects
            → get_elem? m.objects j ≢ some none)
        → Creates m reserved mem (returns (none, m))
    is_refused :
        reserved ≢ assign_any
        → (max_reserved_endpoint < reserved % 2 ^ 16)
          ⊎ (get_elem? m.objects (reserved % 2 ^ 16) ≢ some none)
        → Creates m reserved mem (returns (none, m))
    has_no_memory : mem ≡ false → Creates m reserved mem (returns (none, m))

  module _ (m : Module b) (reserved : ℕ) (mem : Bool) (size : length m.objects ≡ max_objects) where
    any_lem :
        reserved ≡ assign_any
        → (r : Option ℕ) (mm : Bool) → Searches 101 m.objects 155 r
        → mem ≡ mm
        → Creates m reserved mem (returns (give_slot b m r mm))
    any_lem e r true (finds j q lo hi) f = gives_any j e f q lo hi
    any_lem e r false (finds j q lo hi) f = has_no_memory f
    any_lem e r mm (all_taken g) f = has_none_left e (λ j lo hi. g j lo hi)

    reserved_lem :
        (o : Option (Option (Endpoint b))) (mm : Bool)
        → reserved ≢ assign_any
        → reserved % 2 ^ 16 ≤ max_reserved_endpoint
        → get_elem? m.objects (reserved % 2 ^ 16) ≡ o
        → mem ≡ mm
        → Creates m reserved mem
            (returns (give_slot b m (reserved_slot b o (reserved % 2 ^ 16)) mm))
    reserved_lem none mm ne le q f = is_refused ne (inr (λ g. ground (arith, sym q ∙ g)))
    reserved_lem (some none) true ne le q f = gives_reserved _ ne refl f q le
    reserved_lem (some none) false ne le q f = has_no_memory f
    reserved_lem (some (some e)) mm ne le q f = is_refused ne (inr (λ g. ground (arith, sym q ∙ g)))

    chosen_lem : Creates m reserved mem (returns (give_slot b m (choose_slot b m reserved) mem))
    unfolding choose_slot
    chosen_lem = elim (Bool-cases (reserved == assign_any)) [
      | inl e ↦
          rw (e, choose_slot)
            (any_lem ((==_iff _ _).0 e) _ mem
              (free_from-Searches 155 101 m.objects (omega (arith, size))) refl)
      | inr e ↦ elim (Bool-cases (leb (reserved % 2 ^ 16) max_reserved_endpoint)) [
        | inl l ↦
            rw (e, l, choose_slot)
              (reserved_lem (get_elem? m.objects (reserved % 2 ^ 16)) mem (ground (arith, e))
                (ground (arith, l)) refl refl)
        | inr l ↦ rw (e, l, choose_slot) (is_refused (ground (arith, e)) (inl (ground (arith, l))))
      ]
    ]

    -- `MessageQCopy_create` with MessageQCopy_ASSIGN_ANY gives a free endpoint above 100, or NULL when
    -- none is left there; with another argument the endpoint of its low 16 bits, if that is at most 100
    -- and free, and NULL otherwise. Without memory for the object it returns NULL. Only the slot that
    -- is given changes.
    pub create-Creates : m.cur_init ≢ 0 → Creates m reserved mem (create b m reserved mem)
    unfolding create
    create-Creates up = elim (Bool-cases (m.cur_init == 0)) [
      | inl z ↦ absurd (up ((==_iff _ _).0 z))
      | inr z ↦ rw (z, create) chosen_lem
    ]

-- ===== src/RcmServer/Removal.antt =====
-- The index of a symbol that has been removed.
use benchmarks_m3_dsp_unopti.Base.{
  ℕ, zero, suc, ◌+◌, ◌^◌, ◌<◌, ◌≤◌, ◌≡◌, refl, sym, ap, ◌∙◌, subst, inl, inr, ◌==◌, Option, none,
  some, List, [], ◌∷◌, true, false, length, get_elem?, set, same_name, arith, Bool-cases,
  Option-cases, get_elem?-set_self, get_elem?-lt, none-some, if_true, if_false,
}
use mathlib.Core.Option.{some-injective}
use benchmarks_m3_dsp_unopti.RcmServer.{
  Slot, empty_slot, Tables, Server, max_tables, Status, success, dynamic_index, key_of, table_of,
  offset_of, is_static, slot_in, write_in, write_slot, has_name, find_name, index_of, named_in,
  sym_from, get_sym_idx, clear, remove_symbol, invalid, dynamic_target, get_fxn_addr,
}
use benchmarks_m3_dsp_unopti.RcmServer.Symbols.{
  Sound, table_size_bounds, dynamic_index_fields, shifted, named_in-found, named_in-none,
}
use benchmarks_m3_dsp_unopti.RcmServer.Indices.{get_fxn_addr-dynamic}

find_name-at :
    (t : List Slot) (n : List ℕ) (j : ℕ) (u : Slot)
    → find_name t n ≡ some (j, u)
    → (get_elem? t j ≡ some u) × (has_name u n ≡ true)
unfolding find_name
find_name-at [] n j u e = absurd (none-some _ e)
find_name-at (s ∷ t) n j u e = elim (Bool-cases (has_name s n)) [
  | inl y ↦
      let q = some-injective _ _ (sym (if_true (has_name s n) _ _ y) ∙ e) in
      subst (λ x. (get_elem? (s ∷ t) x.0 ≡ some x.1) × (has_name x.1 n ≡ true)) q (refl, y)
  | inr y ↦ behind (find_name t n) refl (sym (if_false (has_name s n) _ _ y) ∙ e) (find_name-at t n)
]
  where
    behind :
        (o : Option (ℕ × Slot))
        → find_name t n ≡ o
        → shifted o ≡ some (j, u)
        → ((l : ℕ) (v : Slot)
            → find_name t n ≡ some (l, v)
            → (get_elem? t l ≡ some v) × (has_name v n ≡ true))
        → (get_elem? (s ∷ t) j ≡ some u) × (has_name u n ≡ true)
    behind none f q ih = absurd (none-some _ q)
    behind (some (l, v)) f q ih =
        subst (λ x. (get_elem? (s ∷ t) x.0 ≡ some x.1) × (has_name x.1 n ≡ true))
          (some-injective _ _ q) (ih l v f)

-- The slot that an index of a name leads to.
pub data Named (ts : Tables) (n : List ℕ) (lo hi idx : ℕ) : Type 0 where
  named :
      (i j : ℕ) (t : List Slot) (u : Slot)
      → lo ≤ i
      → i < hi
      → get_elem? ts i ≡ some (some t)
      → get_elem? t j ≡ some u
      → has_name u n ≡ true
      → index_of i j u ≡ idx
      → Named ts n lo hi idx

lower :
    (ts : Tables) (n : List ℕ) (lo hi idx : ℕ) → Named ts n (lo + 1) hi idx → Named ts n lo hi idx
lower ts n lo hi idx (named i j t u a b g e h q) = named i j t u (omega arith) b g e h q

sym_from-Named :
    (k lo : ℕ) (ts : Tables) (n : List ℕ) (hi idx : ℕ)
    → lo + k ≡ hi
    → sym_from k lo ts n ≡ some idx
    → Named ts n lo hi idx
unfolding sym_from
sym_from-Named zero lo ts n hi idx b e = absurd (none-some _ e)
sym_from-Named (suc k) lo ts n hi idx b e =
    by_table (get_elem? ts lo) refl e
      (λ q. lower ts n lo hi idx (sym_from-Named k (lo + 1) ts n hi idx (omega arith) q))
  where
    by_table :
        (o : Option (Option (List Slot)))
        → get_elem? ts lo ≡ o
        → named_in o lo n (sym_from k (lo + 1) ts n) ≡ some idx
        → (sym_from k (lo + 1) ts n ≡ some idx → Named ts n lo hi idx)
        → Named ts n lo hi idx
    by_table none g q ih = ih q
    by_table (some none) g q ih = ih q
    by_table (some (some t)) g q ih = elim (Option-cases (find_name t n)) [
      | inl f ↦ ih (sym (named_in-none t lo n _ f) ∙ q)
      | inr ((j, u), f) ↦
          let (p, h) = find_name-at t n j u f in
          named lo j t u (omega arith) (omega arith) g p h
            (some-injective _ _ (sym (named_in-found t lo n _ j u f) ∙ q))
    ]

named_slot : (u : Slot) (n : List ℕ) → has_name u n ≡ true → (m : List ℕ) × (u.name ≡ some m)
named_slot u n h = by_name u.name refl h
  where
    by_name :
        (o : Option (List ℕ))
        → u.name ≡ o
        → (elim o [ none ↦ false | some m ↦ same_name m n ]) ≡ true
        → (m : List ℕ) × (u.name ≡ some m)
    by_name none e q = absurd (ground (arith, q))
    by_name (some m) e q = (m, e)

-- A static index has bit 31 set.
static_set : (j : ℕ) → j < 2 ^ 16 → is_static (2 ^ 31 + j) ≡ true
static_set j h = ground arith

cleared_target :
    (t : List Slot) (j k : ℕ)
    → j < length t
    → 0 < k
    → dynamic_target (some (some (set t j empty_slot))) k j ≡ invalid
cleared_target t j k h p = rw (get_elem?-set_self t j empty_slot h, dynamic_target) (ground arith)

-- What is left of a slot that a dynamic index led to.
module _ (s : Server) (i j idx : ℕ) (t : List Slot) (u : Slot) (v : Sound s) (lo : 0 < i)
    (hi : i < max_tables) (table : get_elem? s.fxn_tab i ≡ some (some t))
    (slot : get_elem? t j ≡ some u) (pos : 0 < u.key) (small : u.key < 2 ^ 11)
    (index : dynamic_index u.key i j ≡ idx) where
  fields : (key_of idx ≡ u.key) × (table_of idx ≡ i) × (offset_of idx ≡ j) × (is_static idx ≡ false)
  fields =
      subst (λ x. (key_of x ≡ u.key) × (table_of x ≡ i) × (offset_of x ≡ j) × (is_static x ≡ false))
        index
        (dynamic_index_fields u.key i j small (omega (arith, hi)) (
          omega (
            arith,
            get_elem?-lt t j u slot,
            v.dynamic_fits i t lo table,
            (table_size_bounds i hi).1,
          )))

  clear-invalid : get_fxn_addr (clear s (some idx)).1 idx ≡ invalid
  clear-invalid =
      let (k, a, b, d) = fields in
      ap (λ (r : Status × Server). get_fxn_addr r.1 idx) (if_false (is_static idx) _ _ d)
      ∙ (get_fxn_addr-dynamic _ idx u.key i j d k a b lo hi
          ∙ (ap (λ o. dynamic_target o u.key j)
                (ap (λ us. get_elem? us i) (λ l. write_slot s.fxn_tab (a l) (b l) empty_slot)
                  ∙ written)
              ∙ cleared_target t j u.key (get_elem?-lt t j u slot) pos))
    where
      written : get_elem? (write_slot s.fxn_tab i j empty_slot) i ≡ some (some (set t j empty_slot))
      written =
          ap (λ o. get_elem? (write_in o s.fxn_tab i j empty_slot) i) table
          ∙ get_elem?-set_self s.fxn_tab i (some (set t j empty_slot))
              (get_elem?-lt s.fxn_tab i (some t) table)

-- After RcmServer_removeSymbol has succeeded, on a server with sound tables, the index that the symbol
-- had is invalid for RcmServer_getFxnAddr_P: no stale index reaches the slot.
pub get_fxn_addr-remove_symbol :
    (s : Server) (n : List ℕ) (idx : ℕ)
    → Sound s
    → get_sym_idx s n ≡ some idx
    → (remove_symbol s n).0 ≡ success
    → get_fxn_addr (remove_symbol s n).1 idx ≡ invalid
unfolding remove_symbol get_sym_idx
get_fxn_addr-remove_symbol s n idx v e ok =
    subst (λ o. (clear s o).0 ≡ success → get_fxn_addr (clear s o).1 idx ≡ invalid) (sym e)
      (by_slot (sym_from-Named max_tables 0 s.fxn_tab n max_tables idx refl e)) ok
  where
    by_slot :
        Named s.fxn_tab n 0 max_tables idx
        → (clear s (some idx)).0 ≡ success
        → get_fxn_addr (clear s (some idx)).1 idx ≡ invalid
    by_slot (named zero j t u a hi g p h q) is_ok =
        let static : is_static idx ≡ true =
          subst (λ x. is_static x ≡ true) q
            (static_set j (omega (arith, get_elem?-lt t j u p, v.static_fits t g))) in
        absurd (ground (arith, static, is_ok))
    by_slot (named (suc i) j t u a hi g p h q) is_ok =
        let (m, w) = named_slot u n h in
        let (pos, small) = v.keys (suc i) j u m (omega arith) (ap (λ o. slot_in o j) g ∙ p) w in
        clear-invalid s (suc i) j idx t u v (omega arith) hi g p pos small
          (sym (if_false (suc i == 0) _ _ (ground arith)) ∙ q)

-- ===== src/RcmServer/Invariant.antt =====
-- The symbol tables stay sound: `RcmServer_addSymbol` and `RcmServer_removeSymbol`.
use benchmarks_m3_dsp_unopti.Base.{
  ℕ, ◌-◌, ◌^◌, ◌<◌, ◌≤◌, ◌≡◌, ◌≢◌, refl, sym, ap, ◌∙◌, subst, inl, inr, Option, none, some, List,
  Bool, true, false, length, get_elem?, set, replicate, arith, Bool-cases, length-set,
  length-replicate, get_elem?-set_self, get_elem?-set_ne, get_elem?-lt, eq_of_get_elem?-replicate,
  none-some,
}
use native.Mathlib.Decide.{ℕ_discrete}
use mathlib.Core.Option.{some-injective}
use benchmarks_m3_dsp_unopti.RcmServer.{
  Slot, empty_slot, Tables, Server, max_tables, table_size, next_key, Search, at, no_room, no_table,
  slot_in, slot_at, write_in, write_slot, fill, add_symbol, get_sym_idx, clear, remove_symbol,
  is_static, table_of, offset_of,
}
use benchmarks_m3_dsp_unopti.RcmServer.Symbols.{
  Sound, next_key_bounds, Finds, in_old, in_new, no_slot, out_of_memory, find_slot-Finds,
}

-- A slot with a name has a key.
abbrev pub Keyed : Slot → Type 0
Keyed u = (n : List ℕ) → u.name ≡ some n → (0 < u.key) × (u.key < 2 ^ 11)

-- One table in place of another.
module _ (s : Server) (i k : ℕ) (t : List Slot) (v : Sound s) (small : k < 2 ^ 11)
    (inside : i < length s.fxn_tab) (static_size : i ≡ 0 → length t ≤ 2 ^ 16)
    (size : 0 < i → length t ≡ table_size i)
    (keyed : (j : ℕ) (u : Slot) → 0 < i → get_elem? t j ≡ some u → Keyed u) where
  changed : Tables
  changed = set s.fxn_tab i (some t)

  changed_self : (w : List Slot) → get_elem? changed i ≡ some (some w) → w ≡ t
  unfolding changed
  changed_self w e = sym (
      some-injective _ _
        (some-injective _ _ (sym (get_elem?-set_self s.fxn_tab i (some t) inside) ∙ e)))

  changed_ne : (l : ℕ) → i ≢ l → get_elem? changed l ≡ get_elem? s.fxn_tab l
  unfolding changed
  changed_ne l ne = get_elem?-set_ne s.fxn_tab i l (some t) ne

  set-Sound : Sound (record { fxn_tab = set s.fxn_tab i (some t); key = k })
  unfolding changed
  set-Sound = record {
    tables = length-set s.fxn_tab i (some t) ∙ v.tables;
    static_fits = λ w e. elim (ℕ_discrete i 0) [
      | yes p ↦
          subst (λ x. length x ≤ 2 ^ 16)
            (sym (changed_self w (ap (get_elem? (set s.fxn_tab i (some t))) p ∙ e))) (static_size p)
      | no p ↦ v.static_fits w (sym (changed_ne 0 p) ∙ e)
    ];
    dynamic_fits = λ l w lo e. elim (ℕ_discrete i l) [
      | yes p ↦
          ap length (changed_self w (ap (get_elem? (set s.fxn_tab i (some t))) p ∙ e))
          ∙ (size (subst (λ x. 0 < x) (sym p) lo) ∙ ap table_size p)
      | no p ↦ v.dynamic_fits l w lo (sym (changed_ne l p) ∙ e)
    ];
    keys = λ l j u n lo e. elim (ℕ_discrete i l) [
      | yes p ↦
          keyed j u (subst (λ x. 0 < x) (sym p) lo)
            (sym (ap (λ o. slot_in o j) (get_elem?-set_self s.fxn_tab i (some t) inside))
              ∙ (ap (λ x. slot_at (set s.fxn_tab i (some t)) x j) p ∙ e))
            n
      | no p ↦ v.keys l j u n lo (sym (ap (λ o. slot_in o j) (changed_ne l p)) ∙ e)
    ];
    next = small;
  }

-- A slot that changes.
set-Keyed :
    (t : List Slot) (j : ℕ) (u : Slot)
    → ((l : ℕ) (w : Slot) → get_elem? t l ≡ some w → Keyed w)
    → Keyed u
    → (l : ℕ) (w : Slot) → get_elem? (set t j u) l ≡ some w
    → Keyed w
set-Keyed t j u old new l w e = elim (ℕ_discrete j l) [
  | yes p ↦
      let here = ap (get_elem? (set t j u)) p ∙ e in
      let inside = subst (λ m. j < m) (length-set t j u) (get_elem?-lt (set t j u) j w here) in
      subst Keyed (some-injective _ _ (sym (get_elem?-set_self t j u inside) ∙ here)) new
  | no p ↦ old l w (sym (get_elem?-set_ne t j l u p) ∙ e)
]

write_slot-Sound :
    (s : Server) (i j k : ℕ) (u : Slot)
    → Sound s
    → Keyed u
    → k < 2 ^ 11
    → Sound (record { fxn_tab = write_slot s.fxn_tab i j u; key = k })
write_slot-Sound s i j k u v new small = by_table (get_elem? s.fxn_tab i) refl
  where
    same : Sound (record { fxn_tab = s.fxn_tab; key = k })
    same = record {
      tables = v.tables;
      static_fits = v.static_fits;
      dynamic_fits = v.dynamic_fits;
      keys = v.keys;
      next = small;
    }

    by_table :
        (o : Option (Option (List Slot)))
        → get_elem? s.fxn_tab i ≡ o
        → Sound (record { fxn_tab = write_in o s.fxn_tab i j u; key = k })
    by_table none e = same
    by_table (some none) e = same
    by_table (some (some t)) e =
        set-Sound s i k (set t j u) v small (get_elem?-lt s.fxn_tab i (some t) e)
          (λ p.
            subst (λ m. m ≤ 2 ^ 16) (sym (length-set t j u))
              (v.static_fits t (ap (get_elem? s.fxn_tab) (sym p) ∙ e)))
          (λ lo. length-set t j u ∙ v.dynamic_fits i t lo e)
          (λ l w lo.
            set-Keyed t j u (λ m x q n. v.keys i m x n lo (ap (λ o. slot_in o m) e ∙ q)) new l w)

new_table-Sound :
    (s : Server) (i : ℕ)
    → Sound s
    → 1 ≤ i
    → i < length s.fxn_tab
    → Sound (record {
      fxn_tab = set s.fxn_tab i (some (replicate (table_size i) empty_slot));
      key = s.key;
    })
new_table-Sound s i v lo inside =
    set-Sound s i s.key (replicate (table_size i) empty_slot) v v.next inside
      (λ p. absurd (omega (arith, lo, p))) (λ p. length-replicate (table_size i) empty_slot)
      (λ j u p e n q. absurd (
        none-some n (
          ap (λ (x : Slot). x.name)
            (sym (eq_of_get_elem?-replicate (table_size i) j empty_slot u e))
          ∙ q)))

fill-Sound :
    (s : Server) (n : List ℕ) (a i j : ℕ) (m : Bool) (ts : Tables)
    → Sound (record { fxn_tab = ts; key = s.key })
    → Sound (fill s (at i j ts) n a m).1
fill-Sound s n a i j true ts v =
    let b = next_key_bounds s.key v.next in
    write_slot-Sound (record { fxn_tab = ts; key = s.key }) i j (next_key s.key) _ v (λ m e. b) b.1
fill-Sound s n a i j false ts v =
    write_slot-Sound (record { fxn_tab = ts; key = s.key }) i j s.key _ v
      (λ m e. absurd (none-some m e)) v.next

search-Sound :
    (s : Server) (n : List ℕ) (a : ℕ) (m : Bool) (r : Search)
    → Sound s
    → Finds s.fxn_tab 1 max_tables r
    → Sound (fill s r n a m).1
search-Sound s n a m no_room v no_slot = v
search-Sound s n a m no_table v out_of_memory = v
search-Sound s n a m (at i j ts) v (in_old _ _ t lo hi g f) = fill-Sound s n a i j m s.fxn_tab v
search-Sound s n a m (at i j ts) v (in_new _ lo hi g) =
    fill-Sound s n a i 0 m _ (new_table-Sound s i v lo (get_elem?-lt s.fxn_tab i none g))

-- RcmServer_addSymbol keeps the symbol tables sound, also when it fails: nine tables of their sizes, and
-- in the dynamic ones every slot with a name has a key from 1 to 0x7FF, the keys an index can hold.
pub add_symbol-Sound :
    (s : Server) (n : List ℕ) (a : ℕ) (has_table has_mem : Bool)
    → Sound s
    → Sound (add_symbol s n a has_table has_mem).1
unfolding add_symbol
add_symbol-Sound s n a has_table has_mem v =
    search-Sound s n a has_mem _ v
      (find_slot-Finds (max_tables - 1) 1 s.fxn_tab has_table max_tables refl)

-- RcmServer_removeSymbol keeps the symbol tables sound.
pub remove_symbol-Sound : (s : Server) (n : List ℕ) → Sound s → Sound (remove_symbol s n).1
unfolding remove_symbol
remove_symbol-Sound s n v = by_idx (get_sym_idx s n)
  where
    by_idx : (o : Option ℕ) → Sound (clear s o).1
    by_idx none = v
    by_idx (some idx) = elim (Bool-cases (is_static idx)) [
      | inl e ↦ rw (e, clear) v
      | inr e ↦
          rw (e, clear)
            (write_slot-Sound s (table_of idx) (offset_of idx) s.key empty_slot v
              (λ m q. absurd (none-some m q)) v.next)
    ]

-- ===== src/RcmServer/Indices.antt =====
-- The indices that `RcmServer_addSymbol` hands out, as the other functions read them.
use benchmarks_m3_dsp_unopti.Base.{
  ℕ, ◌-◌, ◌^◌, ◌<◌, ◌≤◌, ◌≡◌, ◌≢◌, refl, sym, ap, ◌∙◌, subst, ltb, ◌==◌, if◌then◌else◌, Option,
  none, some, List, Bool, true, false, ◌&&◌, length, get_elem?, set, replicate, same_name_refl,
  arith, length-set, length-replicate, get_elem?-set_self, get_elem?-set_ne, get_elem?-lt, ==_iff,
  none-some, if_true, if_false, lt→ltb,
}
use native.Mathlib.Decide.{ℕ_discrete}
use mathlib.Core.Option.{some-injective}
use benchmarks_m3_dsp_unopti.RcmServer.{
  Slot, empty_slot, Tables, Server, max_tables, Status, success, table_size, dynamic_index, key_of,
  table_of, offset_of, is_static, next_key, Search, at, no_room, no_table, write_in, write_slot,
  fill, add_symbol, find_name, get_sym_idx, calls, unset, dynamic_target, get_fxn_addr,
}
use benchmarks_m3_dsp_unopti.RcmServer.Symbols.{
  Sound, table_size_bounds, dynamic_index_fields, next_key_bounds, find_free-lt, find_name-set,
  find_name-replicate, Finds, in_old, in_new, no_slot, out_of_memory, find_slot-Finds,
  sym_from-first, Absent-sym_from,
}

pub get_fxn_addr-dynamic :
    (s : Server) (idx k i j : ℕ)
    → is_static idx ≡ false
    → key_of idx ≡ k
    → table_of idx ≡ i
    → offset_of idx ≡ j
    → 0 < i
    → i < max_tables
    → get_fxn_addr s idx ≡ dynamic_target (get_elem? s.fxn_tab i) k j
unfolding get_fxn_addr
get_fxn_addr-dynamic s idx k i j d a b c lo hi =
    if_false (is_static idx) _ _ d
    ∙ (if_true (ltb 0 (table_of idx) && ltb (table_of idx) max_tables) _ _ (both b) ∙ λ l.
        dynamic_target (get_elem? s.fxn_tab (b l)) (a l) (c l))
  where
    both : table_of idx ≡ i → (ltb 0 (table_of idx) && ltb (table_of idx) max_tables) ≡ true
    both e = rw (e, lt→ltb 0 i lo, lt→ltb i max_tables hi) refl

slot_target :
    (t : List Slot) (j k : ℕ) (u : Slot)
    → get_elem? t j ≡ some u
    → (k == u.key) ≡ true
    → dynamic_target (some (some t)) k j ≡ (if j == 0 then unset else calls u.addr)
slot_target t j k u e q = rw (e, q, dynamic_target) refl

-- What a new slot of table `i`, at `j`, is read as.
module _ (s : Server) (ts : Tables) (i j k : ℕ) (t : List Slot) (n : List ℕ) (a : ℕ) (lo : 0 < i)
    (hi : i < max_tables) (table : get_elem? ts i ≡ some (some t)) (inside : j < length t)
    (fits : length t ≤ 2 ^ 12) (small : k < 2 ^ 11) where
  new_slot : Slot
  new_slot = record { name = some n; addr = a; key = k }

  write_slot-at : write_slot ts i j new_slot ≡ set ts i (some (set t j new_slot))
  write_slot-at = ap (λ o. write_in o ts i j new_slot) table

  table-write_slot : get_elem? (write_slot ts i j new_slot) i ≡ some (some (set t j new_slot))
  table-write_slot =
      ap (λ us. get_elem? us i) write_slot-at
      ∙ get_elem?-set_self ts i (some (set t j new_slot)) (get_elem?-lt ts i (some t) table)

  get_fxn_addr-new :
      get_fxn_addr (record { fxn_tab = write_slot ts i j new_slot; key = k }) (dynamic_index k i j)
      ≡ (if j == 0 then unset else calls a)
  unfolding new_slot
  get_fxn_addr-new =
      let (e, f, g, h) =
        dynamic_index_fields k i j small (omega (arith, hi)) (omega (arith, inside, fits)) in
      get_fxn_addr-dynamic _ (dynamic_index k i j) k i j h e f g lo hi
      ∙ (ap (λ o. dynamic_target o k j) table-write_slot
          ∙ slot_target (set t j new_slot) j k new_slot (get_elem?-set_self t j new_slot inside)
              ((==_iff k k).1 refl))

  get_sym_idx-new :
      ((l : ℕ) (v : List Slot)
        → l < max_tables
        → get_elem? ts l ≡ some (some v)
        → find_name v n ≡ none)
      → length ts ≡ max_tables
      → get_sym_idx (record { fxn_tab = write_slot ts i j new_slot; key = k }) n
        ≡ some (dynamic_index k i j)
  unfolding get_sym_idx new_slot
  get_sym_idx-new absent size =
      sym_from-first max_tables 0 i j (write_slot ts i j new_slot) (set t j new_slot) new_slot n
        (omega arith) (omega (arith, hi)) others table-write_slot
        (find_name-set t j new_slot n (absent i t hi table) inside (same_name_refl n))
        (get_elem?-lt _ i _ table-write_slot)
      ∙ ap some (if_false (i == 0) _ _ (ground arith))
    where
      others :
          (l : ℕ) (v : List Slot)
          → l ≢ i
          → get_elem? (write_slot ts i j new_slot) l ≡ some (some v)
          → find_name v n ≡ none
      others l v d e =
          let old : get_elem? ts l ≡ some (some v) =
            sym (get_elem?-set_ne ts i l (some (set t j new_slot)) (λ p. d (sym p)))
            ∙ (sym (ap (λ us. get_elem? us l) write_slot-at) ∙ e) in
          absent l v (subst (λ m. l < m) size (get_elem?-lt ts l (some v) old)) old

-- What an index that is returned with a new state is worth.
abbrev pub Answers : Server → List ℕ → ℕ → (Status × Option ℕ) × Server → Type 0
Answers s n a r =
    (idx : ℕ)
    → r.0.1 ≡ some idx
    → (get_fxn_addr r.1 idx ≡ (if offset_of idx == 0 then unset else calls a))
      × (get_sym_idx s n ≡ none → get_sym_idx r.1 n ≡ some idx)

Answers-new :
    (s : Server) (ts : Tables) (i j : ℕ) (t : List Slot) (n : List ℕ) (a : ℕ)
    → Sound s
    → 0 < i
    → i < max_tables
    → get_elem? ts i ≡ some (some t)
    → j < length t
    → length t ≤ 2 ^ 12
    → length ts ≡ max_tables
    → (get_sym_idx s n ≡ none
        → (l : ℕ) (v : List Slot) → l < max_tables
        → get_elem? ts l ≡ some (some v)
        → find_name v n ≡ none)
    → Answers s n a (fill s (at i j ts) n a true)
unfolding new_slot
Answers-new s ts i j t n a v lo hi table inside fits size absent idx e =
    let k = next_key s.key in
    let small = (next_key_bounds s.key v.next).1 in
    let here = some-injective _ _ e in
    subst
      (λ x.
        (get_fxn_addr (fill s (at i j ts) n a true).1 x
          ≡ (if offset_of x == 0 then unset else calls a))
        × (get_sym_idx s n ≡ none → get_sym_idx (fill s (at i j ts) n a true).1 n ≡ some x))
      here
      (
        get_fxn_addr-new s ts i j k t n a lo hi table inside fits small
            ∙ sym (
                ap (λ (x : ℕ). if x == 0 then unset else calls a)
                  (dynamic_index_fields k i j small (omega (arith, hi))
                    (omega (arith, inside, fits))).2),
        λ none_yet.
            get_sym_idx-new s ts i j k t n a lo hi table inside fits small (absent none_yet) size,
      )

fill-Answers :
    (s : Server) (n : List ℕ) (a : ℕ) (m : Bool) (r : Search)
    → Sound s
    → Finds s.fxn_tab 1 max_tables r
    → Answers s n a (fill s r n a m)
unfolding get_sym_idx
fill-Answers s n a m no_room v no_slot = λ idx e. absurd (none-some _ e)
fill-Answers s n a m no_table v out_of_memory = λ idx e. absurd (none-some _ e)
fill-Answers s n a false (at i j ts) v f = λ idx e. absurd (none-some _ e)
fill-Answers s n a true (at i j ts) v (in_old _ _ t lo hi g f) =
    Answers-new s ts i j t n a v (omega (arith, lo)) hi g (find_free-lt t j f)
      (omega (arith, v.dynamic_fits i t (omega (arith, lo)) g, (table_size_bounds i hi).1)) v.tables
      (λ none_yet l w b q.
        Absent-sym_from max_tables 0 s.fxn_tab n none_yet l w (omega arith) (omega (arith, b)) q)
fill-Answers s n a true (at i j ts) v (in_new _ lo hi g) =
    Answers-new s (set s.fxn_tab i (some fresh)) i 0 fresh n a v (omega (arith, lo)) hi
      (get_elem?-set_self s.fxn_tab i (some fresh) (get_elem?-lt s.fxn_tab i none g))
      (omega (arith, size, (table_size_bounds i hi).0))
      (omega (arith, size, (table_size_bounds i hi).1))
      (length-set s.fxn_tab i (some fresh) ∙ v.tables) absent
  where
    fresh : List Slot
    fresh = replicate (table_size i) empty_slot

    size : length fresh ≡ table_size i
    size = length-replicate (table_size i) empty_slot

    absent :
        get_sym_idx s n ≡ none
        → (l : ℕ) (w : List Slot) → l < max_tables
        → get_elem? (set s.fxn_tab i (some fresh)) l ≡ some (some w)
        → find_name w n ≡ none
    absent none_yet l w b q = elim (ℕ_discrete i l) [
      | yes p ↦
          subst (λ x. find_name x n ≡ none)
            (some-injective _ _ (
              some-injective _ _ (
                sym (get_elem?-set_self s.fxn_tab i (some fresh) (get_elem?-lt s.fxn_tab i none g))
                ∙ (ap (get_elem? (set s.fxn_tab i (some fresh))) p ∙ q))))
            (find_name-replicate (table_size i) n)
      | no p ↦
          Absent-sym_from max_tables 0 s.fxn_tab n none_yet l w (omega arith) (omega (arith, b))
            (sym (get_elem?-set_ne s.fxn_tab i l (some fresh) p) ∙ q)
    ]

add_symbol-Answers :
    (s s' : Server) (n : List ℕ) (a idx : ℕ) (has_table has_mem : Bool)
    → Sound s
    → add_symbol s n a has_table has_mem ≡ ((success, some idx), s')
    → (get_fxn_addr s' idx ≡ (if offset_of idx == 0 then unset else calls a))
      × (get_sym_idx s n ≡ none → get_sym_idx s' n ≡ some idx)
unfolding add_symbol
add_symbol-Answers s s' n a idx has_table has_mem v e =
    subst (Answers s n a) e
      (fill-Answers s n a has_mem _ v
        (find_slot-Finds (max_tables - 1) 1 s.fxn_tab has_table max_tables refl))
      idx refl

-- On a server with sound tables RcmServer_getFxnAddr_P finds the function that RcmServer_addSymbol has
-- added under the index that it returned, except for an index of the first slot of a table: there it
-- succeeds and leaves its caller without a function.
pub get_fxn_addr-add_symbol :
    (s s' : Server) (n : List ℕ) (a idx : ℕ) (has_table has_mem : Bool)
    → Sound s
    → add_symbol s n a has_table has_mem ≡ ((success, some idx), s')
    → get_fxn_addr s' idx ≡ (if offset_of idx == 0 then unset else calls a)
get_fxn_addr-add_symbol s s' n a idx has_table has_mem v e =
    (add_symbol-Answers s s' n a idx has_table has_mem v e).0

-- On a server with sound tables RcmServer_getSymIdx_P finds the index that RcmServer_addSymbol has
-- returned for a name, if there was no symbol of this name.
pub get_sym_idx-add_symbol :
    (s s' : Server) (n : List ℕ) (a idx : ℕ) (has_table has_mem : Bool)
    → Sound s
    → get_sym_idx s n ≡ none
    → add_symbol s n a has_table has_mem ≡ ((success, some idx), s')
    → get_sym_idx s' n ≡ some idx
get_sym_idx-add_symbol s s' n a idx has_table has_mem v new e =
    (add_symbol-Answers s s' n a idx has_table has_mem v e).1 new

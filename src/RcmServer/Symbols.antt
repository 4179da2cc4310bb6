-- ===== src/RcmServer/Symbols.antt =====
-- Symbols that are added to a server are found and called by their index, and no longer when they are
-- removed.
use benchmarks_m3_dsp_unopti.Base.{
  ℕ, zero, suc, ◌+◌, ◌^◌, ◌<◌, ◌≤◌, ◌≡◌, ◌≢◌, refl, sym, ap, ◌∙◌, inl, inr, Option, none, some,
  List, [], ◌∷◌, Bool, true, false, length, get_elem?, set, replicate, arith, Bool-cases,
  Option-cases, if_true, if_false, none-some,
}
use native.Mathlib.Decide.{ℕ_discrete}
use benchmarks_m3_dsp_unopti.RcmServer.{
  Slot, empty_slot, Tables, Server, max_tables, table_size, dynamic_index, key_of, table_of,
  offset_of, is_static, next_key, find_free, Search, at, no_room, no_table, in_table, find_slot,
  slot_at, has_name, find_name, index_of, named_in, sym_from,
}

-- The shape of the tables of a server, and the keys of its symbols.
pub record Sound (s : Server) : Type 0 where
  pub tables : length s.fxn_tab ≡ max_tables
  pub static_fits : (t : List Slot) → get_elem? s.fxn_tab 0 ≡ some (some t) → length t ≤ 2 ^ 16
  pub dynamic_fits :
      (i : ℕ) (t : List Slot)
      → 0 < i
      → get_elem? s.fxn_tab i ≡ some (some t)
      → length t ≡ table_size i
  pub keys :
      (i j : ℕ) (u : Slot) (n : List ℕ)
      → 0 < i
      → slot_at s.fxn_tab i j ≡ some u
      → u.name ≡ some n
      → (0 < u.key) × (u.key < 2 ^ 11)
  pub next : s.key < 2 ^ 11

pub table_size_bounds : (i : ℕ) → i < max_tables → (0 < table_size i) × (table_size i ≤ 2 ^ 12)
table_size_bounds zero h = omega arith
table_size_bounds (suc zero) h = omega arith
table_size_bounds (suc (suc zero)) h = omega arith
table_size_bounds (suc (suc (suc zero))) h = omega arith
table_size_bounds (suc (suc (suc (suc zero)))) h = omega arith
table_size_bounds (suc (suc (suc (suc (suc zero))))) h = omega arith
table_size_bounds (suc (suc (suc (suc (suc (suc zero)))))) h = omega arith
table_size_bounds (suc (suc (suc (suc (suc (suc (suc zero))))))) h = omega arith
table_size_bounds (suc (suc (suc (suc (suc (suc (suc (suc zero)))))))) h = omega arith
table_size_bounds (suc (suc (suc (suc (suc (suc (suc (suc (suc i))))))))) h = absurd (omega arith)

-- The fields of an index.
pub dynamic_index_fields :
    (k i j : ℕ)
    → k < 2 ^ 11
    → i < 16
    → j < 2 ^ 12
    → (key_of (dynamic_index k i j) ≡ k)
      × (table_of (dynamic_index k i j) ≡ i)
      × (offset_of (dynamic_index k i j) ≡ j)
      × (is_static (dynamic_index k i j) ≡ false)
dynamic_index_fields k i j hk hi hj = (omega arith, omega arith, omega arith, not_static)
  where
    not_static : is_static (dynamic_index k i j) ≡ false
    not_static = ground arith

pub next_key_bounds : (k : ℕ) → k < 2 ^ 11 → (0 < next_key k) × (next_key k < 2 ^ 11)
unfolding next_key
next_key_bounds k h = ground arith

pub find_free-lt : (t : List Slot) (j : ℕ) → find_free t ≡ some j → j < length t
unfolding find_free
find_free-lt [] j e = absurd (ground (arith, e))
find_free-lt (s ∷ t) j e = elim (Option-cases (find_free t)) [
  | inl n ↦ ground (arith, n)
  | inr (k, f) ↦ ground (arith, f, find_free-lt t k f)
]

abbrev pub shifted : Option (ℕ × Slot) → Option (ℕ × Slot)
shifted o = elim o [ none ↦ none | some (j, u) ↦ some (suc j, u) ]

shifted-none : (o : Option (ℕ × Slot)) → shifted o ≡ none → o ≡ none
shifted-none none e = refl
shifted-none (some x) e = absurd (none-some _ (sym e))

pub find_name-set :
    (t : List Slot) (j : ℕ) (u : Slot) (n : List ℕ)
    → find_name t n ≡ none
    → j < length t
    → has_name u n ≡ true
    → find_name (set t j u) n ≡ some (j, u)
unfolding find_name
find_name-set [] j u n e h m = elim h [ ]
find_name-set (s ∷ t) zero u n e h m = rw (m) refl
find_name-set (s ∷ t) (suc j) u n e h m = elim (Bool-cases (has_name s n)) [
  | inl y ↦ absurd (none-some _ (sym (sym (if_true (has_name s n) _ _ y) ∙ e)))
  | inr y ↦
      let rest = shifted-none (find_name t n) (sym (if_false (has_name s n) _ _ y) ∙ e) in
      rw (y, find_name-set t j u n rest (omega arith) m) refl
]

pub find_name-replicate : (k : ℕ) (n : List ℕ) → find_name (replicate k empty_slot) n ≡ none
unfolding find_name
find_name-replicate zero n = refl
find_name-replicate (suc k) n = rw (find_name-replicate k n) refl

-- No table has a symbol of this name.
abbrev pub Absent : List ℕ → Tables → Type 0
Absent n ts = (i : ℕ) (t : List Slot) → get_elem? ts i ≡ some (some t) → find_name t n ≡ none

-- What the search of `RcmServer_addSymbol` finds: a free slot of a table, or the first one of a new
-- table.
pub data Finds (ts : Tables) (lo hi : ℕ) : Search → Type 0 where
  in_old :
      (i j : ℕ) (t : List Slot)
      → lo ≤ i
      → i < hi
      → get_elem? ts i ≡ some (some t)
      → find_free t ≡ some j
      → Finds ts lo hi (at i j ts)
  in_new :
      (i : ℕ)
      → lo ≤ i
      → i < hi
      → get_elem? ts i ≡ some none
      → Finds ts lo hi (at i 0 (set ts i (some (replicate (table_size i) empty_slot))))
  no_slot : Finds ts lo hi no_room
  out_of_memory : Finds ts lo hi no_table

wider : (ts : Tables) (lo hi : ℕ) (r : Search) → Finds ts (lo + 1) hi r → Finds ts lo hi r
wider ts lo hi r (in_old i j t a b g f) = in_old i j t (omega arith) b g f
wider ts lo hi r (in_new i a b g) = in_new i (omega arith) b g
wider ts lo hi r no_slot = no_slot
wider ts lo hi r out_of_memory = out_of_memory

pub find_slot-Finds :
    (k i : ℕ) (ts : Tables) (m : Bool) (hi : ℕ) → i + k ≡ hi → Finds ts i hi (find_slot k i ts m)
unfolding find_slot
find_slot-Finds zero i ts m hi e = no_slot
find_slot-Finds (suc k) i ts m hi e =
    by_table (get_elem? ts i) refl
      (wider ts i hi _ (find_slot-Finds k (i + 1) ts m hi (omega arith)))
  where
    by_table :
        (o : Option (Option (List Slot)))
        → get_elem? ts i ≡ o
        → Finds ts i hi (find_slot k (i + 1) ts m)
        → Finds ts i hi (in_table o i ts m (find_slot k (i + 1) ts m))
    by_table none g r = no_slot
    by_table (some none) g r = elim (Bool-cases m) [
      | inl y ↦ rw (y) (in_new i (omega arith) (omega arith) g)
      | inr y ↦ rw (y) out_of_memory
    ]
    by_table (some (some t)) g r = elim (Option-cases (find_free t)) [
      | inl f ↦ rw (f, in_table) r
      | inr (j, f) ↦ rw (f, in_table) (in_old i j t (omega arith) (omega arith) g f)
    ]

pub named_in-found :
    (v : List Slot) (i : ℕ) (n : List ℕ) (rest : Option ℕ) (j : ℕ) (u : Slot)
    → find_name v n ≡ some (j, u)
    → named_in (some (some v)) i n rest ≡ some (index_of i j u)
named_in-found v i n rest j u f = rw (f, named_in) refl

pub named_in-none :
    (v : List Slot) (i : ℕ) (n : List ℕ) (rest : Option ℕ)
    → find_name v n ≡ none
    → named_in (some (some v)) i n rest ≡ rest
named_in-none v i n rest f = rw (f, named_in) refl

-- A search that comes to the only table with the name.
pub sym_from-first :
    (k lo i j : ℕ) (ts : Tables) (t : List Slot) (u : Slot) (n : List ℕ)
    → lo ≤ i
    → i < lo + k
    → ((l : ℕ) (v : List Slot) → l ≢ i → get_elem? ts l ≡ some (some v) → find_name v n ≡ none)
    → get_elem? ts i ≡ some (some t)
    → find_name t n ≡ some (j, u)
    → i < length ts
    → sym_from k lo ts n ≡ some (index_of i j u)
unfolding sym_from
sym_from-first zero lo i j ts t u n a b others g f h = absurd (omega arith)
sym_from-first (suc k) lo i j ts t u n a b others g f h = elim (ℕ_discrete lo i) [
  | yes p ↦
      ap (λ o. named_in o lo n (sym_from k (lo + 1) ts n)) (ap (get_elem? ts) p ∙ g)
      ∙ named_in-found t lo n _ j u f
      ∙ ap (λ l. some (index_of l j u)) p
  | no p ↦
      by_table (get_elem? ts lo) refl
        (sym_from-first k (lo + 1) i j ts t u n (omega (arith, p)) (omega arith) others g f h) p
]
  where
    by_table :
        (o : Option (Option (List Slot)))
        → get_elem? ts lo ≡ o
        → sym_from k (lo + 1) ts n ≡ some (index_of i j u)
        → lo ≢ i
        → named_in o lo n (sym_from k (lo + 1) ts n) ≡ some (index_of i j u)
    by_table none q r p = r
    by_table (some none) q r p = r
    by_table (some (some v)) q r p = named_in-none v lo n _ (others lo v p q) ∙ r

-- A search that fails has looked at every table.
pub Absent-sym_from :
    (k lo : ℕ) (ts : Tables) (n : List ℕ)
    → sym_from k lo ts n ≡ none
    → (i : ℕ) (t : List Slot) → lo ≤ i
    → i < lo + k
    → get_elem? ts i ≡ some (some t)
    → find_name t n ≡ none
unfolding sym_from
Absent-sym_from zero lo ts n e i t a b g = absurd (omega arith)
Absent-sym_from (suc k) lo ts n e i t a b g = elim (ℕ_discrete lo i) [
  | yes p ↦
      here t
        (sym (ap (λ o. named_in o lo n (sym_from k (lo + 1) ts n)) (ap (get_elem? ts) p ∙ g)) ∙ e)
  | no p ↦
      Absent-sym_from k (lo + 1) ts n (there (get_elem? ts lo) e) i t (omega (arith, p))
        (omega arith) g
]
  where
    here :
        (v : List Slot)
        → named_in (some (some v)) lo n (sym_from k (lo + 1) ts n) ≡ none
        → find_name v n ≡ none
    here v q = elim (Option-cases (find_name v n)) [
      | inl f ↦ f
      | inr ((j, u), f) ↦ absurd (none-some _ (sym q ∙ named_in-found v lo n _ j u f))
    ]

    there :
        (o : Option (Option (List Slot)))
        → named_in o lo n (sym_from k (lo + 1) ts n) ≡ none
        → sym_from k (lo + 1) ts n ≡ none
    there none q = q
    there (some none) q = q
    there (some (some v)) q = elim (Option-cases (find_name v n)) [
      | inl f ↦ sym (named_in-none v lo n _ f) ∙ q
      | inr ((j, u), f) ↦ absurd (none-some _ (sym q ∙ named_in-found v lo n _ j u f))
    ]

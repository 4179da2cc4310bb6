-- ===== src/RcmServer.antt =====
-- common/src/ti/grcm/RcmServer.c: the functions that a server offers. Function table 0 holds the static
-- functions, the tables from 1 to 8 those that are added while the server runs; table i has 2 ^ (i + 4)
-- slots. The fields of an index are disjoint, so the source's `|` is a sum here.
pub mod Symbols
pub mod Indices
pub mod Removal
pub mod Invariant
pub mod Jobs
pub mod Process
pub mod Workers
pub mod Creation
mod Tests
use benchmarks_m3_dsp_unopti.Base.{
  ℕ, zero, suc, ◌+◌, ◌-◌, ◌*◌, ◌/◌, ◌%◌, ◌^◌, ltb, leb, ◌==◌, if◌then◌else◌, Option, none, some,
  List, [], ◌∷◌, Bool, true, false, ◌&&◌, length, get_elem?, set, replicate, same_name,
}

-- `RcmServer_FxnTabElem`; the address 0 and the name none are NULL.
pub record Slot : Type 0 where
  pub name : Option (List ℕ)
  pub addr : ℕ
  pub key : ℕ

abbrev pub empty_slot : Slot
empty_slot = record { name = none; addr = 0; key = 0 }

abbrev pub Tables : Type 0
Tables = List (Option (List Slot))

-- The part of `RcmServer_Object` that holds the functions: `fxnTab` and `key`.
pub record Server : Type 0 where
  pub fxn_tab : Tables
  pub key : ℕ

abbrev pub max_tables : ℕ
max_tables = 9

-- The results of the functions on symbols, and RcmServer_E_InvalidFxnIdx.
pub data Status : Type 0 where
  success no_memory symbol_not_found symbol_static symbol_table_full invalid_fxn_idx : Status

-- The slots of table `i`, and its index field.
abbrev pub table_size : ℕ → ℕ
table_size i = 2 ^ (i + 4)

abbrev pub dynamic_index : ℕ → ℕ → ℕ → ℕ
dynamic_index key i j = key * 2 ^ 20 + i * 2 ^ 12 + j

abbrev pub key_of : ℕ → ℕ
key_of idx = (idx / 2 ^ 20) % 2 ^ 11

abbrev pub table_of : ℕ → ℕ
table_of idx = (idx / 2 ^ 12) % 2 ^ 4

abbrev pub offset_of : ℕ → ℕ
offset_of idx = idx % 2 ^ 12

abbrev pub is_static : ℕ → Bool
is_static idx = (idx / 2 ^ 31) % 2 == 1

-- `RcmServer_getNextKey_P`: keys count down from 0x7FF to 1 and around.
unfoldable pub next_key : ℕ → ℕ
next_key k = if leb k 1 then 0x7FF else k - 1

-- The first slot of a table with no function.
unfoldable pub find_free : List Slot → Option ℕ
find_free [] = none
find_free (s ∷ t) =
    let rest = find_free t in
    if s.addr == 0 then some 0 else elim rest [ none ↦ none | some j ↦ some (suc j) ]

-- What the search of `RcmServer_addSymbol` ends with: a slot and the tables, which may have a new one;
-- or no slot; or no memory for a table.
pub data Search : Type 0 where
  at : ℕ → ℕ → Tables → Search
  no_room : Search
  no_table : Search

abbrev pub in_table : Option (Option (List Slot)) → ℕ → Tables → Bool → Search → Search
in_table none i ts has_memory rest = no_room
in_table (some none) i ts has_memory rest =
    if has_memory then at i 0 (set ts i (some (replicate (table_size i) empty_slot))) else no_table
in_table (some (some t)) i ts has_memory rest = elim (find_free t) [
  | none ↦ rest
  | some j ↦ at i j ts
]

-- The search, with `n` tables left from `i` on.
unfoldable pub find_slot : ℕ → ℕ → Tables → Bool → Search
find_slot zero i ts has_memory = no_room
find_slot (suc n) i ts has_memory =
    in_table (get_elem? ts i) i ts has_memory (find_slot n (i + 1) ts has_memory)

abbrev pub slot_in : Option (Option (List Slot)) → ℕ → Option Slot
slot_in none j = none
slot_in (some none) j = none
slot_in (some (some t)) j = get_elem? t j

abbrev pub slot_at : Tables → ℕ → ℕ → Option Slot
slot_at ts i j = slot_in (get_elem? ts i) j

abbrev pub write_in : Option (Option (List Slot)) → Tables → ℕ → ℕ → Slot → Tables
write_in none ts i j s = ts
write_in (some none) ts i j s = ts
write_in (some (some t)) ts i j s = set ts i (some (set t j s))

abbrev pub write_slot : Tables → ℕ → ℕ → Slot → Tables
write_slot ts i j s = write_in (get_elem? ts i) ts i j s

abbrev pub key_at : Option Slot → ℕ
key_at none = 0
key_at (some s) = s.key

-- The rest of `RcmServer_addSymbol`: the slot gets the function, then its name. Without memory for the
-- name the slot keeps the function and its old key.
abbrev pub fill : Server → Search → List ℕ → ℕ → Bool → (Status × Option ℕ) × Server
fill s no_room n a has_name = ((symbol_table_full, none), s)
fill s no_table n a has_name = ((no_memory, none), s)
fill s (at i j ts) n a true =
    let k = next_key s.key in
    (
      (success, some (dynamic_index k i j)),
      record { fxn_tab = write_slot ts i j (record { name = some n; addr = a; key = k }); key = k },
    )
fill s (at i j ts) n a false = (
  (no_memory, none),
  record s {
    fxn_tab = write_slot ts i j (record { name = none; addr = a; key = key_at (slot_at ts i j) });
  },
)

-- `RcmServer_addSymbol`: the status, the index, and the new state. `has_table` and `has_name` say
-- whether there is memory for a table and for the name.
unfoldable pub add_symbol : Server → List ℕ → ℕ → Bool → Bool → (Status × Option ℕ) × Server
add_symbol s n a has_table has_name =
    fill s (find_slot (max_tables - 1) 1 s.fxn_tab has_table) n a has_name

abbrev pub has_name : Slot → List ℕ → Bool
has_name s n = elim s.name [ none ↦ false | some m ↦ same_name m n ]

-- The first slot of a table with this name, and the slot.
unfoldable pub find_name : List Slot → List ℕ → Option (ℕ × Slot)
find_name [] n = none
find_name (s ∷ t) n =
    let rest = find_name t n in
    if has_name s n then some (0, s) else elim rest [ none ↦ none | some (j, u) ↦ some (suc j, u) ]

-- The index of slot `j` of table `i`.
abbrev pub index_of : ℕ → ℕ → Slot → ℕ
index_of i j s = if i == 0 then 2 ^ 31 + j else dynamic_index s.key i j

abbrev pub named_in : Option (Option (List Slot)) → ℕ → List ℕ → Option ℕ → Option ℕ
named_in none i n rest = rest
named_in (some none) i n rest = rest
named_in (some (some t)) i n rest = elim (find_name t n) [
  | none ↦ rest
  | some (j, s) ↦ some (index_of i j s)
]

unfoldable pub sym_from : ℕ → ℕ → Tables → List ℕ → Option ℕ
sym_from zero i ts n = none
sym_from (suc k) i ts n = named_in (get_elem? ts i) i n (sym_from k (i + 1) ts n)

-- `RcmServer_getSymIdx_P`: the index, none for RcmServer_E_SYMBOLNOTFOUND.
unfoldable pub get_sym_idx : Server → List ℕ → Option ℕ
get_sym_idx s n = sym_from max_tables 0 s.fxn_tab n

abbrev pub clear : Server → Option ℕ → Status × Server
clear s none = (symbol_not_found, s)
clear s (some idx) = if is_static idx then (symbol_static, s) else (
  success,
  record s { fxn_tab = write_slot s.fxn_tab (table_of idx) (offset_of idx) empty_slot },
)

-- `RcmServer_removeSymbol`
unfoldable pub remove_symbol : Server → List ℕ → Status × Server
remove_symbol s n = clear s (get_sym_idx s n)

-- What `RcmServer_getFxnAddr_P` leaves its caller with: the address of a function, that of a create
-- function, success without either, RcmServer_E_InvalidFxnIdx, or a read behind the end of a table.
pub data Target : Type 0 where
  calls creates : ℕ → Target
  unset invalid reads_outside : Target

abbrev pub static_target : Option Slot → ℕ → Target
static_target none j = invalid
static_target (some s) j = if j == 0 then creates s.addr else calls s.addr

abbrev pub dynamic_target : Option (Option (List Slot)) → ℕ → ℕ → Target
dynamic_target none key j = invalid
dynamic_target (some none) key j = invalid
dynamic_target (some (some t)) key j = elim (get_elem? t j) [
  | none ↦ reads_outside
  | some s ↦ if key == s.key then (if j == 0 then unset else calls s.addr) else invalid
]

-- `RcmServer_getFxnAddr_P`
unfoldable pub get_fxn_addr : Server → ℕ → Target
get_fxn_addr s idx =
    if is_static idx
    then static_target (slot_at s.fxn_tab 0 (idx % 2 ^ 16)) (idx % 2 ^ 16)
    else if ltb 0 (table_of idx) && ltb (table_of idx) max_tables
    then dynamic_target (get_elem? s.fxn_tab (table_of idx)) (key_of idx) (offset_of idx)
    else invalid

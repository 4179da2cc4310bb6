-- ===== src/IpcMemory.antt =====
-- common/src/ti/resources/IpcMemory.c: the translation of addresses through the resource table. A
-- table is the list of its entries, in the order of their indices.
pub mod RoundTrip
mod Tests
use benchmarks_m3_dsp_unopti.Base.{
  ℕ, zero, suc, ◌+◌, ◌-◌, ◌%◌, ◌^◌, ltb, leb, ◌==◌, if◌then◌else◌, Option, none, some, List, [],
  ◌∷◌, Bool, true, false, ◌&&◌, ◌||◌, get_elem?, length,
}

-- `IpcMemory_MemEntry`, of which the code reads these fields. An entry of another type shares the
-- field `type` only.
pub record Entry : Type 0 where
  pub type : ℕ
  pub da : ℕ
  pub pa : ℕ
  pub len : ℕ

-- TYPE_CARVEOUT is 0, TYPE_DEVMEM 1.
abbrev pub is_memory : Entry → Bool
is_memory e = (e.type == 0) || (e.type == 1)

-- The entry at an offset, if it is one of memory.
abbrev pub memory_at : Option Entry → Option Entry
memory_at none = none
memory_at (some e) = if is_memory e then some e else none

-- `IpcMemory_getEntry`, none for NULL.
unfoldable pub get_entry : List Entry → ℕ → Option Entry
get_entry table i = memory_at (get_elem? table i)

-- The tests on addresses, on 32-bit words.
abbrev pub covers : ℕ → ℕ → ℕ → Bool
covers base len a = leb base a && ltb a ((base + len) % 2 ^ 32)

-- An address of one space in the other.
abbrev pub shifted : ℕ → ℕ → ℕ → ℕ
shifted from to a = (to + (a - from)) % 2 ^ 32

-- One round of the loop of `IpcMemory_virtToPhys`, given what the further rounds return.
abbrev pub virt_at : Option Entry → ℕ → Option ℕ → Option ℕ
virt_at none va rest = rest
virt_at (some e) va rest = if covers e.da e.len va then some (shifted e.da e.pa va) else rest

-- The loop, with `n` entries left from index `i` on.
unfoldable pub virt_from : ℕ → List Entry → ℕ → ℕ → Option ℕ
virt_from zero table i va = none
virt_from (suc n) table i va = virt_at (get_entry table i) va (virt_from n table (i + 1) va)

-- `IpcMemory_virtToPhys`: the address, none for IpcMemory_E_NOTFOUND.
unfoldable pub virt_to_phys : List Entry → ℕ → Option ℕ
virt_to_phys table va = virt_from (length table) table 0 va

-- One round of the loop of `IpcMemory_physToVirt`, given what the further rounds return.
abbrev pub phys_at : Option Entry → ℕ → Option ℕ → Option ℕ
phys_at none pa rest = rest
phys_at (some e) pa rest = if covers e.pa e.len pa then some (shifted e.pa e.da pa) else rest

-- The loop, with `n` entries left from index `i` on.
unfoldable pub phys_from : ℕ → List Entry → ℕ → ℕ → Option ℕ
phys_from zero table i pa = none
phys_from (suc n) table i pa = phys_at (get_entry table i) pa (phys_from n table (i + 1) pa)

-- `IpcMemory_physToVirt`
unfoldable pub phys_to_virt : List Entry → ℕ → Option ℕ
phys_to_virt table pa = phys_from (length table) table 0 pa

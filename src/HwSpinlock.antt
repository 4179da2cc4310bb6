-- ===== src/HwSpinlock.antt =====
-- common/src/ti/gates/hwspinlock/HwSpinlock.c: the hardware spinlocks of a core, by their ids. A handle is
-- the id of a lock that exists.
pub mod Users
mod Tests
use benchmarks_m3_dsp_unopti.Base.{
  ℕ, zero, suc, ◌+◌, ◌-◌, ◌%◌, ◌^◌, ltb, leb, ◌==◌, if◌then◌else◌, Option, none, some, List, [],
  ◌∷◌, Bool, true, false, not, ◌&&◌, ◌||◌, ℤ, pos, negsuc, update,
}

-- `HwSpinlock_Object`: `refCnt`, and whether `state` is HwSpinlock_STATE_TAKEN.
pub record Lock : Type 0 where
  pub ref_cnt : ℕ
  pub taken : Bool

-- `HwSpinlock_Module_State`, the hardware's words, and the bits that the host sees.
pub record Module : Type 0 where
  pub locks : ℕ → Option Lock
  pub words : ℕ → ℕ
  pub shared : ℕ → Bool

abbrev pub new_lock : Lock
new_lock = record { ref_cnt = 1; taken = false }

abbrev pub with_lock : Module → ℕ → Option Lock → Module
with_lock m id l = record m { locks = update m.locks id l }

-- The rest of `HwSpinlock_create`, for a valid id.
abbrev pub create_at : Module → ℕ → Bool → Option Lock → Option ℕ × Module
create_at m id has_memory (some l) =
    (some id, with_lock m id (some (record l { ref_cnt = (l.ref_cnt + 1) % 2 ^ 32 })))
create_at m id false none = (none, m)
create_at m id true none = (some id, with_lock m id (some new_lock))

abbrev pub create_id : ℕ → Module → ℤ → Bool → Option ℕ × Module
create_id num_locks m (negsuc n) has_memory = (none, m)
create_id num_locks m (pos id) has_memory =
    if leb num_locks id then (none, m) else create_at m id has_memory (m.locks id)

-- `HwSpinlock_create`: the handle, none for NULL. `refuses` says whether the request hook fails.
unfoldable pub create : ℕ → Module → ℤ → Bool → Bool → Option ℕ × Module
create num_locks m id refuses has_memory =
    if refuses then (none, m) else create_id num_locks m id has_memory

-- HwSpinlock_S_SUCCESS, HwSpinlock_STILL_IN_USE, and a handle of a lock that was deleted.
pub data Deleted : Type 0 where
  success still_in_use dangling : Deleted

abbrev pub delete_at : Module → ℕ → Option Lock → Deleted × Module
delete_at m id none = (dangling, m)
delete_at m id (some l) =
    if not (l.ref_cnt - 1 == 0)
    then (success, with_lock m id (some (record l { ref_cnt = l.ref_cnt - 1 })))
    else if l.taken
    then (still_in_use, with_lock m id (some (record l { ref_cnt = 0 })))
    else (success, with_lock m id none)

-- `HwSpinlock_delete`
unfoldable pub delete : Module → ℕ → Deleted × Module
delete m id = delete_at m id (m.locks id)

abbrev pub release : Module → ℕ → Lock → Module
release m id l = record m {
  locks = update m.locks id (some (record l { taken = false }));
  words = update m.words id 0;
  shared = update m.shared id false;
}

abbrev pub leave_at : Module → ℕ → Bool → Option Lock → Module
leave_at m id valid none = m
leave_at m id valid (some l) = if l.taken && valid then release m id l else m

-- `HwSpinlock_leave`; `valid` says whether the caller's key is.
unfoldable pub leave : Module → ℕ → Bool → Module
leave m id valid = leave_at m id valid (m.locks id)

-- How `HwSpinlock_enter` ends: with the lock and a valid key, with HwSpinlock_E_TIMEOUT, or not within the
-- attempts that are given.
pub data Entered : Type 0 where
  entered : Module → Entered
  timed_out spins : Entered

abbrev pub take_at : Module → ℕ → Option Lock → Module
take_at m id none = m
take_at m id (some l) = record m {
  locks = update m.locks id (some (record l { taken = true }));
  words = update m.words id 1;
  shared = update m.shared id true;
}

abbrev pub is_over : Option ℕ → ℕ → Bool
is_over none elapsed = false
is_over (some timeout) elapsed = ltb timeout elapsed

-- `HwSpinlock_enter`. An attempt is the word that is read, which the hardware sets when it was 0, and the
-- ticks that have passed since the start.
unfoldable pub enter : Module → ℕ → Option ℕ → List (ℕ × ℕ) → Entered
enter m id timeout [] = spins
enter m id timeout ((word, elapsed) ∷ attempts) =
    let rest = enter m id timeout attempts in
    if word == 0
    then entered (take_at m id (m.locks id))
    else if is_over timeout elapsed
    then timed_out
    else rest

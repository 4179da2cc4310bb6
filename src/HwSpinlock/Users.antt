-- ===== src/HwSpinlock/Users.antt =====
-- The users of a lock: those who have created it and not deleted it.
use benchmarks_m3_dsp_unopti.Base.{
  ℕ, ◌+◌, ◌-◌, ◌%◌, ◌^◌, ◌<◌, ◌≡◌, ◌≢◌, refl, sym, ap, ◌∙◌, subst, inl, inr, leb, ◌==◌,
  if◌then◌else◌, Option, none, some, Bool, true, false, not, ℤ, pos, negsuc, update, arith,
  Bool-cases, if_true, if_false, ==_iff, none-some,
}
use mathlib.Core.Option.{some-injective}
use benchmarks_m3_dsp_unopti.HwSpinlock.{
  Lock, Module, new_lock, with_lock, create_at, create, Deleted, success, still_in_use, dangling,
  delete_at, delete, release, leave_at, leave,
}

-- A lock exists exactly as long as it has users, and counts them.
pub data Counts : Option Lock → ℕ → Type 0 where
  no_user : Counts none 0
  has_users : (l : Lock) → 0 < l.ref_cnt → l.ref_cnt < 2 ^ 31 → Counts (some l) l.ref_cnt

abbrev pub Tracks : Module → (ℕ → ℕ) → Type 0
Tracks m users = (id : ℕ) → Counts (m.locks id) (users id)

with_lock-Tracks :
    (m : Module) (users : ℕ → ℕ) (id n : ℕ) (l : Option Lock)
    → Tracks m users
    → Counts l n
    → Tracks (with_lock m id l) (update users id n)
with_lock-Tracks m users id n l v c j = elim (Bool-cases (id == j)) [
  | inl e ↦ rw (e) c
  | inr e ↦ rw (e) (v j)
]

-- What a call of HwSpinlock_create is worth.
abbrev pub Adds : (ℕ → ℕ) → Option ℕ × Module → Type 0
Adds users r =
    (id : ℕ) → r.0 ≡ some id → users id + 1 < 2 ^ 31 → Tracks r.1 (update users id (users id + 1))

adds :
    (m : Module) (users : ℕ → ℕ) (k : ℕ) (l : Option Lock)
    → Tracks m users
    → (users k + 1 < 2 ^ 31 → Counts l (users k + 1))
    → Adds users (some k, with_lock m k l)
adds m users k l v c id e few =
    let key = some-injective _ _ e in
    subst (λ x. Tracks (with_lock m k l) (update users x (users x + 1))) key
      (with_lock-Tracks m users k (users k + 1) l v
        (c (subst (λ x. users x + 1 < 2 ^ 31) (sym key) few)))

one_more :
    (l : Lock)
    → l.ref_cnt + 1 < 2 ^ 31
    → Counts (some (record l { ref_cnt = (l.ref_cnt + 1) % 2 ^ 32 })) (l.ref_cnt + 1)
one_more l few =
    let same : (l.ref_cnt + 1) % 2 ^ 32 ≡ l.ref_cnt + 1 = omega (arith, few) in
    subst (λ n. Counts (some (record l { ref_cnt = (l.ref_cnt + 1) % 2 ^ 32 })) n) same
      (has_users (record l { ref_cnt = (l.ref_cnt + 1) % 2 ^ 32 }) (omega (arith, same))
        (omega (arith, same, few)))

create_at-Adds :
    (m : Module) (users : ℕ → ℕ) (k n : ℕ) (b : Bool) (o : Option Lock)
    → Tracks m users
    → Counts o n
    → users k ≡ n
    → Adds users (create_at m k b o)
create_at-Adds m users k _ b _ v (has_users l lo hi) same = adds m users k _ v (λ few.
    subst (λ x. Counts (some (record l { ref_cnt = (l.ref_cnt + 1) % 2 ^ 32 })) (x + 1)) (sym same)
      (one_more l (subst (λ x. x + 1 < 2 ^ 31) same few)))
create_at-Adds m users k _ false _ v no_user same = λ id e few. absurd (none-some _ e)
create_at-Adds m users k _ true _ v no_user same = adds m users k _ v (λ few.
    subst (λ x. Counts (some new_lock) (x + 1)) (sym same)
      (has_users new_lock (omega arith) (omega arith)))

-- HwSpinlock_create, when it returns a handle, adds one user to the lock with this id, which it makes if
-- it has none; every other lock keeps its users. This is for fewer than 2 ^ 31 users.
pub create-Tracks :
    (num_locks : ℕ) (m : Module) (z : ℤ) (refuses has_memory : Bool) (users : ℕ → ℕ) (id : ℕ)
    → Tracks m users
    → (create num_locks m z refuses has_memory).0 ≡ some id
    → users id + 1 < 2 ^ 31
    → Tracks (create num_locks m z refuses has_memory).1 (update users id (users id + 1))
unfolding create
create-Tracks num_locks m z true has_memory users id v e few = absurd (none-some _ e)
create-Tracks num_locks m (negsuc n) false has_memory users id v e few = absurd (none-some _ e)
create-Tracks num_locks m (pos k) false has_memory users id v e few =
    valid (leb num_locks k) id e few
  where
    valid : (b : Bool) → Adds users (if b then (none, m) else create_at m k has_memory (m.locks k))
    valid true = λ j q u. absurd (none-some _ q)
    valid false = create_at-Adds m users k (users k) has_memory (m.locks k) v (v k) refl

dangling_ne : dangling ≢ success
dangling_ne e = ground (arith, e)

still_in_use_ne : still_in_use ≢ success
still_in_use_ne e = ground (arith, e)

-- What a call of HwSpinlock_delete is worth.
abbrev pub Takes : (ℕ → ℕ) → Deleted × Module → Type 0
Takes users r = r.0 ≡ success → Tracks r.1 users

delete_at-Tracks :
    (m : Module) (users : ℕ → ℕ) (id n : ℕ) (o : Option Lock)
    → Tracks m users
    → Counts o n
    → (delete_at m id o).0 ≡ success
    → Tracks (delete_at m id o).1 (update users id (n - 1))
delete_at-Tracks m users id _ _ v no_user e = absurd (dangling_ne e)
delete_at-Tracks m users id _ _ v (has_users l lo hi) e =
    by_count (l.ref_cnt - 1 == 0) l.taken refl e
  where
    by_count :
        (c t : Bool)
        → (l.ref_cnt - 1 == 0) ≡ c
        → Takes (update users id (l.ref_cnt - 1)) (
            if not c
            then (success, with_lock m id (some (record l { ref_cnt = l.ref_cnt - 1 })))
            else if t
            then (still_in_use, with_lock m id (some (record l { ref_cnt = 0 })))
            else (success, with_lock m id none))
    by_count false t y q =
        with_lock-Tracks m users id (l.ref_cnt - 1) _ v
          (has_users (record l { ref_cnt = l.ref_cnt - 1 }) (ground (arith, y)) (omega (arith, hi)))
    by_count true true y q = absurd (still_in_use_ne q)
    by_count true false y q =
        with_lock-Tracks m users id (l.ref_cnt - 1) none v
          (subst (Counts none) (sym ((==_iff _ _).0 y)) no_user)

-- HwSpinlock_delete, when it succeeds, takes one user from the lock, and frees it with the last one; every
-- other lock keeps its users.
pub delete-Tracks :
    (m : Module) (id : ℕ) (users : ℕ → ℕ)
    → Tracks m users
    → (delete m id).0 ≡ success
    → Tracks (delete m id).1 (update users id (users id - 1))
unfolding delete
delete-Tracks m id users v e = delete_at-Tracks m users id (users id) (m.locks id) v (v id) e

-- The locks after the only user of a taken lock has called HwSpinlock_delete, another has created the lock,
-- and the first has left it and calls HwSpinlock_delete again.
abbrev pub after_retry : ℕ → Module → ℕ → Module
after_retry num_locks m id =
    (delete (leave (create num_locks (delete m id).1 (pos id) false true).1 id true) id).1

update_self : (m : Module) (id : ℕ) (l : Option Lock) → (with_lock m id l).locks id ≡ l
update_self m id l = if_true (id == id) _ _ ((==_iff id id).1 refl)

delete_as :
    (m : Module) (id : ℕ) (l : Lock) → m.locks id ≡ some l → delete m id ≡ delete_at m id (some l)
unfolding delete
delete_as m id l e = ap (delete_at m id) e

create_as :
    (num_locks : ℕ) (m : Module) (id : ℕ) (l : Lock)
    → id < num_locks
    → m.locks id ≡ some l
    → create num_locks m (pos id) false true ≡ create_at m id true (some l)
unfolding create
create_as num_locks m id l h e =
    if_false (leb num_locks id) _ _ (ground (arith, h)) ∙ ap (create_at m id true) e

leave_as :
    (m : Module) (id : ℕ) (l : Lock)
    → m.locks id ≡ some l
    → leave m id true ≡ leave_at m id true (some l)
unfolding leave
leave_as m id l e = ap (leave_at m id true) e

-- HwSpinlock_delete gives its user up also when it refuses because the lock is taken: when the only user of
-- a taken lock calls it, another user creates the lock, and the first leaves the lock and calls it again,
-- the lock is freed while the other still has it.
pub delete-still_in_use :
    (num_locks : ℕ) (m : Module) (id : ℕ)
    → id < num_locks
    → m.locks id ≡ some (record { ref_cnt = 1; taken = true })
    → ((delete m id).0 ≡ still_in_use) × ((after_retry num_locks m id).locks id ≡ none)
delete-still_in_use num_locks m id h e =
    let refused = delete_as m id (record { ref_cnt = 1; taken = true }) e in
    let m₁ = with_lock m id (some (record { ref_cnt = 0; taken = true })) in
    let created =
      create_as num_locks m₁ id (record { ref_cnt = 0; taken = true }) h
        (update_self m id (some (record { ref_cnt = 0; taken = true }))) in
    let m₂ = with_lock m₁ id (some (record { ref_cnt = 1; taken = true })) in
    let left =
      leave_as m₂ id (record { ref_cnt = 1; taken = true })
        (update_self m₁ id (some (record { ref_cnt = 1; taken = true }))) in
    let m₃ = release m₂ id (record { ref_cnt = 1; taken = true }) in
    let deleted =
      delete_as m₃ id (record { ref_cnt = 1; taken = false })
        (update_self m₂ id (some (record { ref_cnt = 1; taken = false }))) in
    (
      ap (λ (r : Deleted × Module). r.0) refused,
      ap
            (λ (x : Module).
              (delete (leave (create num_locks x (pos id) false true).1 id true) id).1.locks id)
            (ap (λ (r : Deleted × Module). r.1) refused)
          ∙ (ap (λ (x : Option ℕ × Module). (delete (leave x.1 id true) id).1.locks id) created
              ∙ (ap (λ (x : Module). (delete x id).1.locks id) left
                  ∙ (ap (λ (x : Deleted × Module). x.1.locks id) deleted
                      ∙ update_self m₃ id none))),
    )

-- ===== src/ServiceMgr/Registry.antt =====
-- The services and tasks that are registered before the core starts.
use benchmarks_m3_dsp_unopti.Base.{
  if_true, if_false, none-some, same_name, same_name_refl, ℕ, ◌≡◌, refl, sym, ap, ◌∙◌, subst, ◌⊎◌,
  inl, inr, Option, none, some, List, [], ◌∷◌, ◌++◌, Bool, true, false, leb, length, All,
  Bool-cases,
}
use mathlib.Core.Option.{some-injective}
use benchmarks_m3_dsp_unopti.ServiceMgr.{
  init_tasks, Def, Task, max_namelen, add_def, register, find_def, add_task, register_srv_task,
  Registered, returns, overruns, fits, start_tasks, start,
}

-- What a search that goes on behind an entry returns.
behind_entry {ℓ} :
    {A : Type ℓ} (x : A) (o : Option (List A)) (es : List A)
    → (elim o [ none ↦ none | some l ↦ some (x ∷ l) ]) ≡ some es
    → (l : List A) × (o ≡ some l) × (x ∷ l ≡ es)
behind_entry x none es e = absurd (none-some _ e)
behind_entry x (some l) es e = (l, refl, some-injective _ _ e)

-- The table after a registration that has succeeded.
abbrev pub registered {ℓ} : {A : Type ℓ} → Registered A → Option A
registered (returns o) = o
registered overruns = none

fits-inv {ℓ} :
    {A : Type ℓ} (b : Bool) (o : Option A) (a : A) → fits b o ≡ returns (some a) → o ≡ some a
fits-inv b none a e = ap registered e
fits-inv true (some x) a e = absurd (none-some a (ap registered e))
fits-inv false (some x) a e = ap registered e

module _ (P F : Type 0) where
  abbrev pub new_def : List ℕ → P → Def P F
  new_def n p = record { name = n; params = p; taken = true }

  find_def-add_def :
      (ds es : List (Def P F)) (n : List ℕ) (p : P)
      → find_def P F ds n ≡ none
      → add_def P F ds n p ≡ some es
      → find_def P F es n ≡ some (new_def n p)
  unfolding find_def add_def
  find_def-add_def [] es n p f e = absurd (none-some _ e)
  find_def-add_def (d ∷ ds) es n p f e = elim (Bool-cases (same_name n d.name)) [
    | inl s ↦ absurd (none-some d (sym f ∙ if_true (same_name n d.name) _ _ s))
    | inr s ↦ elim (Bool-cases d.taken) [
      | inl t ↦
          let (l, z, w) =
            behind_entry d (add_def P F ds n p) es (sym (if_true d.taken _ _ t) ∙ e) in
          subst (λ us. find_def P F us n ≡ some (new_def n p)) w
            (if_false (same_name n d.name) _ _ s
              ∙ find_def-add_def ds l n p (sym (if_false (same_name n d.name) _ _ s) ∙ f) z)
      | inr t ↦
          subst (λ us. find_def P F us n ≡ some (new_def n p))
            (some-injective _ _ (sym (if_false d.taken _ _ t) ∙ e))
            (if_true (same_name n n) _ _ (same_name_refl n))
    ]
  ]

  -- The tasks that are registered stand before the free slots.
  abbrev pub Packed : List (Task P F) → Type 0
  Packed [] = Unit
  Packed (t ∷ ts) =
      ((t.taken ≡ true) × Packed ts) ⊎ ((t.taken ≡ false) × All (λ u. u.taken ≡ false) ts)

  abbrev pub new_task : ℕ → F → List ℕ → Task P F
  new_task r f n = record { fxn = some f; task_name = n; reserved = r; taken = true }

  start_tasks-free :
      (ts : List (Task P F)) → All (λ u. u.taken ≡ false) ts → start_tasks P F ts ≡ []
  unfolding start_tasks
  start_tasks-free [] a = refl
  start_tasks-free (t ∷ ts) (e, a) = rw (e) refl

  pub start_tasks-init_tasks : (ts : List (Task P F)) → start_tasks P F (init_tasks P F ts) ≡ []
  unfolding start_tasks init_tasks
  start_tasks-init_tasks [] = refl
  start_tasks-init_tasks (t ∷ ts) = refl

  All-Packed : (ts : List (Task P F)) → All (λ u. u.taken ≡ false) ts → Packed ts
  All-Packed [] a = tt
  All-Packed (t ∷ ts) (e, a) = inr (e, a)

  start_tasks-add_task :
      (ts us : List (Task P F)) (r : ℕ) (f : F) (n : List ℕ)
      → Packed ts
      → add_task P F ts r f n ≡ some us
      → Packed us × (start_tasks P F us ≡ start_tasks P F ts ++ new_task r f n ∷ [])
  unfolding start_tasks add_task
  start_tasks-add_task [] us r f n k e = absurd (none-some _ e)
  start_tasks-add_task (t ∷ ts) us r f n (inl (q, k)) e =
      let (l, z, w) = behind_entry t (add_task P F ts r f n) us (sym (if_true t.taken _ _ q) ∙ e) in
      let (k', s) = start_tasks-add_task ts l r f n k z in
      subst
        (λ vs. Packed vs × (start_tasks P F vs ≡ start_tasks P F (t ∷ ts) ++ new_task r f n ∷ [])) w
        (
          inl (q, k'),
          if_true t.taken _ _ q
              ∙ ap (λ vs. t ∷ vs) s
              ∙ sym (ap (λ vs. vs ++ new_task r f n ∷ []) (if_true t.taken _ _ q)),
        )
  start_tasks-add_task (t ∷ ts) us r f n (inr (q, a)) e =
      subst
        (λ vs. Packed vs × (start_tasks P F vs ≡ start_tasks P F (t ∷ ts) ++ new_task r f n ∷ []))
        (some-injective _ _ (sym (if_false t.taken _ _ q) ∙ e))
        (inl (refl, All-Packed ts a), rw (q, start_tasks-free ts a, start_tasks) refl)

  -- A service that ServiceMgr_register has accepted is the one that ServiceMgr_createService finds
  -- under its name, with its parameters, if no entry of the table had this name before.
  pub find_def-register :
      (ds es : List (Def P F)) (n : List ℕ) (p : P)
      → find_def P F ds n ≡ none
      → register P F ds n p ≡ some es
      → find_def P F es n ≡ some (new_def n p)
  unfolding register
  find_def-register ds es n p f e = elim (Bool-cases (leb max_namelen (length n))) [
    | inl k ↦ absurd (none-some _ (sym (if_true (leb max_namelen (length n)) _ _ k) ∙ e))
    | inr k ↦ find_def-add_def ds es n p f (sym (if_false (leb max_namelen (length n)) _ _ k) ∙ e)
  ]

  -- ServiceMgr_registerSrvTask adds a task behind those that are registered. ServiceMgr_start then
  -- creates the tasks in the order of their registration, the new one last, and does so again at
  -- each further call, since the flag that should prevent it is not set.
  pub start-register_srv_task :
      (ts us : List (Task P F)) (r : ℕ) (f : F) (n : List ℕ)
      → Packed ts
      → register_srv_task P F ts r f n ≡ returns (some us)
      → Packed us
        × ((start P F false us).0 ≡ (start P F false ts).0 ++ new_task r f n ∷ [])
        × (start P F (start P F false us).1 us ≡ start P F false us)
  unfolding start register_srv_task
  start-register_srv_task ts us r f n k e =
      let (k', s) = start_tasks-add_task ts us r f n k (fits-inv _ _ us e) in (k', s, refl)

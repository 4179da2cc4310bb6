-- ===== src/RcmClient/Mailbox/Totals.antt =====
-- Totals over lists, and what is taken out of one: for the lists of RcmClient.c.
use benchmarks_m3_dsp_unopti.Base.{
  ℕ, zero, suc, ◌+◌, ◌≤◌, ◌≡◌, refl, sym, if◌then◌else◌, Option, none, some, List, [], ◌∷◌, ◌++◌,
  inl, inr, All, false, arith, ◌==◌, Bool-cases, if_true, if_false, ==_iff, subst,
}
use benchmarks_m3_dsp_unopti.RcmClient.Mailbox.{kept, take_at, take_mail}
use benchmarks_m3_dsp_unopti.RcmServer.Jobs.{Packet}

abbrev pub total {ℓ} : {A : Type ℓ} → (A → ℕ) → List A → ℕ
total f [] = 0
total f (a ∷ l) = f a + total f l

pub total-append {ℓ} :
    {A : Type ℓ} (f : A → ℕ) (xs ys : List A) → total f (xs ++ ys) ≡ total f xs + total f ys
total-append f [] ys = omega arith
total-append f (x ∷ xs) ys = omega (arith, total-append f xs ys)

pub total_mono {ℓ} :
    {A : Type ℓ} (f g : A → ℕ) (xs : List A) → ((a : A) → f a ≤ g a) → total f xs ≤ total g xs
total_mono f g [] h = omega arith
total_mono f g (x ∷ xs) h = omega (arith, h x, total_mono f g xs h)

pub All-append {ℓ κ} :
    {A : Type ℓ} (P : A → Type κ) (xs ys : List A) → All P xs → All P ys → All P (xs ++ ys)
All-append P [] ys a b = b
All-append P (x ∷ xs) ys a b = (a.0, All-append P xs ys a.1 b)

module _ {ℓ} {A : Type ℓ} where
  -- A property of what is taken out of a list and of what is left.
  abbrev pub Parts {κ} : (A → List A → Type κ) → Option (A × List A) → Type κ
  Parts Q none = Unit
  Parts Q (some (a, l)) = Q a l

  pub Parts-some {κ} :
      (Q : A → List A → Type κ) (o : Option (A × List A)) (a : A) (l : List A)
      → Parts Q o
      → o ≡ some (a, l)
      → Q a l
  Parts-some Q o a l q e = subst (Parts Q) e q

  kept-Parts {κ μ} :
      (Q : A → List A → Type κ) (R : A → List A → Type μ) (b : A) (o : Option (A × List A))
      → ((a : A) (l : List A) → Q a l → R a (b ∷ l))
      → Parts Q o
      → Parts R (kept b o)
  kept-Parts Q R b none h q = tt
  kept-Parts Q R b (some (a, l)) h q = h a l q

  take_at-total :
      (f : A → ℕ) (xs : List A) (i : ℕ) → Parts (λ a l. total f xs ≡ f a + total f l) (take_at xs i)
  take_at-total f [] i = tt
  take_at-total f (x ∷ xs) zero = refl
  take_at-total f (x ∷ xs) (suc i) =
      kept-Parts (λ a l. total f xs ≡ f a + total f l) _ x (take_at xs i)
        (λ a l q. omega (arith, q)) (take_at-total f xs i)

  pub total-take_at :
      (f : A → ℕ) (xs : List A) (i : ℕ) (a : A) (l : List A)
      → take_at xs i ≡ some (a, l)
      → total f xs ≡ f a + total f l
  total-take_at f xs i a l = Parts-some _ (take_at xs i) a l (take_at-total f xs i)

  take_at-All {κ} :
      (P : A → Type κ) (xs : List A) (i : ℕ)
      → All P xs
      → Parts (λ a l. P a × All P l) (take_at xs i)
  take_at-All P [] i h = tt
  take_at-All P (x ∷ xs) zero h = h
  take_at-All P (x ∷ xs) (suc i) h =
      kept-Parts (λ a l. P a × All P l) _ x (take_at xs i) (λ a l q. (q.0, (h.0, q.1)))
        (take_at-All P xs i h.1)

  pub All-take_at {κ} :
      (P : A → Type κ) (xs : List A) (i : ℕ) (a : A) (l : List A)
      → All P xs
      → take_at xs i ≡ some (a, l)
      → P a × All P l
  All-take_at P xs i a l h = Parts-some _ (take_at xs i) a l (take_at-All P xs i h)

-- Whether a message has this id, and how many of a list have it.
abbrev pub is_for : ℕ → Packet → ℕ
is_for id p = if id == p.msg_id then 1 else 0

-- What the search of the new mail finds.
abbrev pub Found : ℕ → List Packet → Option (Packet × List Packet) → Type 0
Found id ps none = total (is_for id) ps ≡ 0
Found id ps (some (p, qs)) = (p.msg_id ≡ id) × ((f : Packet → ℕ) → total f ps ≡ f p + total f qs)

kept-Found :
    (id : ℕ) (p : Packet) (ps : List Packet) (o : Option (Packet × List Packet))
    → (id == p.msg_id) ≡ false
    → Found id ps o
    → Found id (p ∷ ps) (kept p o)
kept-Found id p ps none n f =
    let absent : total (is_for id) ps ≡ 0 = f in rw (n) (omega (arith, absent))
kept-Found id p ps (some (q, qs)) n f = (f.0, λ g. omega (arith, f.1 g))

pub take_mail-Found : (ps : List Packet) (id : ℕ) → Found id ps (take_mail ps id)
take_mail-Found [] id = refl
take_mail-Found (p ∷ ps) id = elim (Bool-cases (id == p.msg_id)) [
  | inl e ↦
      subst (Found id (p ∷ ps)) (sym (if_true (id == p.msg_id) _ _ e))
        (sym ((==_iff _ _).0 e), λ g. refl)
  | inr e ↦
      subst (Found id (p ∷ ps)) (sym (if_false (id == p.msg_id) _ _ e))
        (kept-Found id p ps (take_mail ps id) e (take_mail-Found ps id))
]

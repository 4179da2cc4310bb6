-- ===== src/ServiceMgr/Tables.antt =====
-- The tables of ServiceMgr.c as arrays of slots.
use benchmarks_m3_dsp_unopti.Base.{
  ℕ, zero, suc, ◌≡◌, ◌≢◌, refl, ap, ◌∙◌, inl, inr, ◌==◌, Option, none, some, List, [], ◌∷◌,
  get_elem?, set, arith, Bool-cases, ==_iff,
}
use mathlib.Core.Option.{some-injective}
use benchmarks_m3_dsp_unopti.ServiceMgr.{free_tuple_key, Tuple, store_tuple, remove_tuple}

abbrev pub freed : Tuple
freed = record { key = free_tuple_key; value = 0 }

-- No slot of a table has the key.
abbrev pub Lacks : ℕ → List Tuple → Type 0
Lacks k ts = (i : ℕ) (t : Tuple) → get_elem? ts i ≡ some t → t.key ≢ k

Lacks-cons : (k : ℕ) (t : Tuple) (ts : List Tuple) → t.key ≢ k → Lacks k ts → Lacks k (t ∷ ts)
Lacks-cons k t ts f g zero u e q = f (ap (λ x. x.key) (some-injective _ _ e) ∙ q)
Lacks-cons k t ts f g (suc i) u e q = g i u e q

-- What storeTuple makes of a table.
pub data Stores (k v : ℕ) (ts : List Tuple) : Option (List Tuple) → Type 0 where
  is_reserved : k ≡ free_tuple_key → Stores k v ts none
  is_full : Lacks free_tuple_key ts → Stores k v ts none
  stores :
      (i : ℕ) (t : Tuple)
      → get_elem? ts i ≡ some t
      → t.key ≡ free_tuple_key
      → k ≢ free_tuple_key
      → Stores k v ts (some (set ts i (record { key = k; value = v })))

-- storeTuple refuses the key that marks a free slot; for another key it stores the tuple in a slot that
-- is free and changes no other, and it fails only if there is no free slot.
pub store_tuple-Stores : (ts : List Tuple) (k v : ℕ) → Stores k v ts (store_tuple ts k v)
unfolding store_tuple
store_tuple-Stores [] k v = is_full (λ i t e. absurd (ground arith))
store_tuple-Stores (t ∷ ts) k v = elim (Bool-cases (k == free_tuple_key)) [
  | inl r ↦ rw (r) (is_reserved ((==_iff _ _).0 r))
  | inr r ↦ rw (r) (elim (Bool-cases (t.key == free_tuple_key)) [
    | inl f ↦ rw (f) (stores 0 t refl ((==_iff _ _).0 f) (ground arith))
    | inr f ↦
        rw (f)
          (behind (store_tuple ts k v) (store_tuple-Stores ts k v) (ground arith) (ground arith))
  ])
]
  where
    behind :
        (o : Option (List Tuple))
        → Stores k v ts o
        → k ≢ free_tuple_key
        → t.key ≢ free_tuple_key
        → Stores k v (t ∷ ts) (elim o [ none ↦ none | some us ↦ some (t ∷ us) ])
    behind none (is_reserved e) r f = absurd (r e)
    behind none (is_full g) r f = is_full (Lacks-cons _ t ts f g)
    behind (some us) (stores i u e q r') r f = stores (suc i) u e q r'

-- What removeTuple takes from a table.
pub data Removes (k : ℕ) (ts : List Tuple) : Option (ℕ × List Tuple) → Type 0 where
  is_absent : Lacks k ts → Removes k ts none
  removes :
      (i : ℕ) (t : Tuple)
      → get_elem? ts i ≡ some t
      → t.key ≡ k
      → Removes k ts (some (t.value, set ts i freed))

-- removeTuple gives the value of a tuple with the key, frees its slot and changes no other; it fails
-- only if no slot has the key.
pub remove_tuple-Removes : (ts : List Tuple) (k : ℕ) → Removes k ts (remove_tuple ts k)
unfolding remove_tuple
remove_tuple-Removes [] k = is_absent (λ i t e. absurd (ground arith))
remove_tuple-Removes (t ∷ ts) k = elim (Bool-cases (t.key == k)) [
  | inl f ↦ rw (f) (removes 0 t refl ((==_iff _ _).0 f))
  | inr f ↦ rw (f) (behind (remove_tuple ts k) (remove_tuple-Removes ts k) (ground arith))
]
  where
    behind :
        (o : Option (ℕ × List Tuple))
        → Removes k ts o
        → t.key ≢ k
        → Removes k (t ∷ ts) (elim o [ none ↦ none | some (v, us) ↦ some (v, t ∷ us) ])
    behind none (is_absent g) f = is_absent (Lacks-cons k t ts f g)
    behind (some (v, us)) (removes i u e q) f = removes (suc i) u e q

-- ===== src/Kernels/Interleaving.antt =====
-- Two threads that write to different parts of a buffer and read what neither of them writes.
use benchmarks_m3_dsp_unopti.Base.{
  ℕ, ◌<◌, ◌≤◌, ◌≡◌, ◌≢◌, refl, sym, ◌∙◌, ◌⊎◌, inl, inr, ◌==◌, List, [], ◌∷◌, ◌++◌, update, arith,
  if_true, if_false, ==_iff,
}
use native.Mathlib.Decide.{ℕ_discrete}
use benchmarks_m3_dsp_unopti.Kernels.{
  Mem, Op, clears, adds, run_op, run, Interleaves, ends, first, second,
}

abbrev pub target : Op → ℕ
target (clears p) = p
target (adds p q r) = p

-- An index outside the part of the memory that is written.
abbrev pub Outside : ℕ → ℕ → ℕ → Type 0
Outside lo hi q = (q < lo) ⊎ (hi ≤ q)

abbrev pub Reads : ℕ → ℕ → Op → Type 0
Reads lo hi (clears p) = Unit
Reads lo hi (adds p q r) = Outside lo hi q × Outside lo hi r

-- The writes go to a part of the memory, and read nothing of another, larger part.
abbrev pub Within : ℕ → ℕ → ℕ → ℕ → List Op → Type 0
Within a b lo hi [] = Unit
Within a b lo hi (x ∷ xs) = (a ≤ target x) × (target x < b) × Reads lo hi x × Within a b lo hi xs

update_eq : (m : Mem) (p v : ℕ) → update m p v p ≡ v
update_eq m p v = if_true (p == p) _ _ ((==_iff p p).1 refl)

update_ne : (m : Mem) (p q v : ℕ) → p ≢ q → update m p v q ≡ m q
update_ne m p q v h = if_false (p == q) _ _ (ground (arith, h))

pub run_op-ne : (x : Op) (m : Mem) (q : ℕ) → target x ≢ q → run_op x m q ≡ m q
unfolding run_op
run_op-ne (clears p) m q h = update_ne m p q _ h
run_op-ne (adds p r s) m q h = update_ne m p q _ h

pub run-Outside :
    (a b lo hi : ℕ) (xs : List Op) (m : Mem) (q : ℕ)
    → Within a b lo hi xs
    → Outside a b q
    → run xs m q ≡ m q
unfolding run
run-Outside a b lo hi [] m q w o = refl
run-Outside a b lo hi (x ∷ xs) m q (l, h, r, w) o =
    run-Outside a b lo hi xs (run_op x m) q w o ∙ run_op-ne x m q (λ e. ground (arith, l, h, o, e))

pub run-append : (xs ys : List Op) (m : Mem) → run (xs ++ ys) m ≡ run ys (run xs m)
unfolding run
run-append [] ys m = refl
run-append (x ∷ xs) ys m = run-append xs ys (run_op x m)

pub Within-append :
    (a b lo hi : ℕ) (xs ys : List Op)
    → Within a b lo hi xs
    → Within a b lo hi ys
    → Within a b lo hi (xs ++ ys)
Within-append a b lo hi [] ys v w = w
Within-append a b lo hi (x ∷ xs) ys (l, h, r, v) w = (l, h, r, Within-append a b lo hi xs ys v w)

pub Within-wider :
    (a b a' b' lo hi : ℕ) (xs : List Op)
    → a' ≤ a
    → b ≤ b'
    → Within a b lo hi xs
    → Within a' b' lo hi xs
Within-wider a b a' b' lo hi [] p q w = tt
Within-wider a b a' b' lo hi (x ∷ xs) p q (l, h, r, w) =
    (omega arith, omega arith, r, Within-wider a b a' b' lo hi xs p q w)

-- Two memories that agree at an index, and outside the part that is written.
pub record Agree (lo hi p : ℕ) (m n : Mem) : Type 0 where
  pub here : m p ≡ n p
  pub outside : (q : ℕ) → Outside lo hi q → m q ≡ n q

op-Agree :
    (lo hi p : ℕ) (x : Op) (m n : Mem)
    → lo ≤ target x
    → target x < hi
    → Reads lo hi x
    → Agree lo hi p m n
    → Agree lo hi p (run_op x m) (run_op x n)
unfolding run_op
op-Agree lo hi p x m n l h r g = record {
  here = at_p x r;
  outside = λ q o.
      run_op-ne x m q (λ e. ground (arith, l, h, o, e))
      ∙ (g.outside q o ∙ sym (run_op-ne x n q (λ e. ground (arith, l, h, o, e))));
}
  where
    at_p : (y : Op) → Reads lo hi y → run_op y m p ≡ run_op y n p
    at_p (clears s) u = rw (g.here) refl
    at_p (adds s q t) (u, v) = elim (ℕ_discrete s p) [
      | yes e ↦ rw (e, g.here, g.outside q u, g.outside t v) refl
      | no e ↦ update_ne m s p _ e ∙ (g.here ∙ sym (update_ne n s p _ e))
    ]

-- The other thread's write, elsewhere.
skip-Agree :
    (lo hi p : ℕ) (x : Op) (m n : Mem)
    → lo ≤ target x
    → target x < hi
    → target x ≢ p
    → Agree lo hi p m n
    → Agree lo hi p (run_op x m) n
skip-Agree lo hi p x m n l h ne g = record {
  here = run_op-ne x m p ne ∙ g.here;
  outside = λ q o. run_op-ne x m q (λ e. ground (arith, l, h, o, e)) ∙ g.outside q o;
}

-- At an index that the second thread does not write, only the first one counts.
only_first :
    (a b c d lo hi p : ℕ) (xs ys zs : List Op) (m n : Mem)
    → Interleaves xs ys zs
    → Within a b lo hi xs
    → Within c d lo hi ys
    → lo ≤ a
    → b ≤ hi
    → lo ≤ c
    → d ≤ hi
    → Outside c d p
    → Agree lo hi p m n
    → run zs m p ≡ run xs n p
unfolding run
only_first a b c d lo hi p _ _ _ m n ends v w la bh lc dh o g = g.here
only_first a b c d lo hi p _ _ _ m n (first x xs ys zs i) (l, h, r, v) w la bh lc dh o g =
    only_first a b c d lo hi p xs ys zs (run_op x m) (run_op x n) i v w la bh lc dh o
      (op-Agree lo hi p x m n (omega arith) (omega arith) r g)
only_first a b c d lo hi p _ _ _ m n (second y xs ys zs i) v (l, h, r, w) la bh lc dh o g =
    only_first a b c d lo hi p xs ys zs (run_op y m) n i v w la bh lc dh o
      (skip-Agree lo hi p y m n (omega arith) (omega arith) (λ e. ground (arith, l, h, o, e)) g)

Interleaves-swap : (xs ys zs : List Op) → Interleaves xs ys zs → Interleaves ys xs zs
Interleaves-swap _ _ _ ends = ends
Interleaves-swap _ _ _ (first x xs ys zs i) = second x ys xs zs (Interleaves-swap xs ys zs i)
Interleaves-swap _ _ _ (second y xs ys zs i) = first y ys xs zs (Interleaves-swap xs ys zs i)

-- Any order of the writes of two threads gives the same memory as one thread after the other.
pub run-Interleaves :
    (a b d : ℕ) (xs ys zs : List Op) (m : Mem) (p : ℕ)
    → a ≤ b
    → b ≤ d
    → Within a b a d xs
    → Within b d a d ys
    → Interleaves xs ys zs
    → run zs m p ≡ run ys (run xs m) p
run-Interleaves a b d xs ys zs m p ab bd v w i = elim (side p) [
  | inl h ↦
      only_first a b b d a d p xs ys zs m m i v w (omega arith) bd ab (omega arith) (inl h)
        (record { here = refl; outside = λ q o. refl })
      ∙ sym (run-Outside b d a d ys (run xs m) p w (inl h))
  | inr h ↦
      only_first b d a b a d p ys xs zs m (run xs m) (Interleaves-swap xs ys zs i) w v ab
        (omega arith) (omega arith) bd (inr h)
        (record {
          here = sym (run-Outside a b a d xs m p v (inr h));
          outside = λ q o. sym (run-Outside a b a d xs m q v (ground (arith, o, ab, bd)));
        })
]
  where
    side : (q : ℕ) → (q < b) ⊎ (b ≤ q)
    side q = ground arith

-- ===== src/Barrier/Overtaken.antt =====
-- What goes wrong when a thread enters the same barrier again before another has noticed that the
-- round before is over.
use native.Mathlib.Decide.{dec_lt}
use benchmarks_m3_dsp_unopti.Base.{
  ℕ, zero, suc, ◌<◌, ◌≤◌, ◌≡◌, sym, ap, ◌≢◌, none, some, List, [], ◌∷◌, ◌∙◌, length, get_elem?,
  arith, get_elem?-set_ne,
}
use benchmarks_m3_dsp_unopti.Barrier.{
  Thread, System, Step, enters, leaves, Reach, here, next, enter, leave, start,
}
use benchmarks_m3_dsp_unopti.Barrier.Invariant.{Inv, IsLate, count_entered}
use benchmarks_m3_dsp_unopti.Barrier.Safety.{
  at_i, enter_amid, enter_last, leave_late, Reach-Valid, start-Inv,
}

count_entered-le : (m : ℕ) (ts : List Thread) → count_entered m ts ≤ length ts
count_entered-le m [] = omega arith
count_entered-le m (x ∷ ts) = ground (arith, count_entered-le m ts)

-- A thread that has not entered the open round leaves room in it.
count_entered-lt :
    (m : ℕ) (ts : List Thread) (i : ℕ) (t : Thread)
    → get_elem? ts i ≡ some t
    → t.entered ≢ m
    → count_entered m ts < length ts
count_entered-lt m [] i t e h = absurd (ground arith)
count_entered-lt m (x ∷ ts) zero t e h = ground (arith, count_entered-le m ts)
count_entered-lt m (x ∷ ts) (suc i) t e h = ground (arith, count_entered-lt m ts i t e h)

count_entered-pos :
    (m : ℕ) (ts : List Thread) (i : ℕ) (t : Thread)
    → get_elem? ts i ≡ some t
    → t.entered ≡ m
    → 0 < count_entered m ts
count_entered-pos m [] i t e h = absurd (ground arith)
count_entered-pos m (x ∷ ts) zero t e h = ground arith
count_entered-pos m (x ∷ ts) (suc i) t e h = ground (arith, count_entered-pos m ts i t e h)

-- Thread `i` is still in the round that is over, and the next has begun.
record IsTrapped (n r i : ℕ) (t : Thread) (k : ℕ) (s : System) : Type 0 where
  inv : Inv n r k s
  held : get_elem? s.threads i ≡ some t
  late : IsLate n r t
  begun : 0 < k

module _ {n r i k : ℕ} {t : Thread} {s : System} (h : IsTrapped n r i t k s) where
  blind : t.spins ≢ some s.shared.counter
  blind q = ground (arith, h.inv.shared, h.late, h.begun, h.inv.open_round)

  module _ (j : ℕ) (b : Thread) (e : get_elem? s.threads j ≡ some b) where
    spins_apart : b.spins ≢ t.spins → j ≢ i
    spins_apart q o = q (ground (arith, h.held, ap (get_elem? s.threads) o))

    enter_held : b.spins ≡ none → get_elem? (enter s j b).threads i ≡ some t
    unfolding enter
    enter_held q =
        get_elem?-set_ne s.threads j i _ (spins_apart (λ o. ground (arith, h.late))) ∙ h.held

    leave_held : b.spins ≡ some s.shared.counter → get_elem? (leave s j b).threads i ≡ some t
    unfolding leave
    leave_held q = get_elem?-set_ne s.threads j i _ (spins_apart (λ o. blind (sym o ∙ q))) ∙ h.held

    room : b.spins ≡ none → suc k < n
    room q = elim (dec_lt (suc k) n) [
      | yes p ↦ p
      | no p ↦ absurd (
          ground (
            arith,
            at_i (enter_last h.inv j b e q (omega (arith, h.inv.open_round))) i t (enter_held q),
            h.late,
          ))
    ]

  Step-IsTrapped : {u : System} → Step s u → (k' : ℕ) × IsTrapped n r i t k' u
  Step-IsTrapped (enters j b e q) = (
    suc k,
    record {
      inv = enter_amid h.inv j b e q (room j b e q);
      held = enter_held j b e q;
      late = h.late;
      begun = omega arith;
    },
  )
  Step-IsTrapped (leaves j b e q) = (
    k,
    record {
      inv = leave_late h.inv j b e q;
      held = leave_held j b e q;
      late = h.late;
      begun = h.begun;
    },
  )

Reach-IsTrapped :
    {n r i k : ℕ} {t : Thread} {s u : System}
    → IsTrapped n r i t k s
    → Reach s u
    → (k' : ℕ) × IsTrapped n r i t k' u
Reach-IsTrapped {k = k} h here = (k, h)
Reach-IsTrapped h (next p st) = let (k', h') = Reach-IsTrapped h p in Step-IsTrapped h' st

trapped :
    {n r k : ℕ} {s : System} (i j : ℕ) (t b : Thread)
    → Inv n r k s
    → get_elem? s.threads i ≡ some t
    → get_elem? s.threads j ≡ some b
    → t.spins ≢ none
    → b.entered ≡ suc t.entered
    → IsTrapped n r i t k s
trapped {r = r} {s = s} i j t b v e eb q h = record {
  inv = v;
  held = e;
  late = ground (arith, at_i v i t e, at_i v j b eb);
  begun =
      ground
        (arith, at_i v i t e, at_i v j b eb, count_entered-pos (suc r) s.threads j b eb, v.counted);
}

-- If in a reachable state thread `i` still spins while thread `j` has already entered the barrier once
-- more often than `i`, then from there on, whatever the scheduler does, `i` stays as it is and the
-- counter never has the value that `i` spins for: it never returns.
pub overtaken_spins_forever :
    (n r : ℕ) {s u : System} (i j : ℕ) (t b : Thread)
    → 0 < n
    → Reach (start n r) s
    → get_elem? s.threads i ≡ some t
    → get_elem? s.threads j ≡ some b
    → t.spins ≢ none
    → b.entered ≡ suc t.entered
    → Reach s u
    → (get_elem? u.threads i ≡ some t) × (t.spins ≢ some u.shared.counter)
overtaken_spins_forever n r i j t b pos_n p e eb q h later =
    let (r', k, le, v) = Reach-Valid {n = n} {r = r} (r, 0, omega arith, start-Inv n r pos_n) p in
    let (k', w) = Reach-IsTrapped (trapped i j t b v e eb q h) later in (w.held, blind w)

-- ===== src/Barrier/Tests.antt =====
-- The barrier on concrete inputs: two threads, and the local barrier of m3.c.
use benchmarks_m3_dsp_unopti.Base.{
  ℕ, ◌≤◌, ◌≡◌, refl, pos, negsuc, none, some, get_elem?, get_or, [], ◌∷◌, ◌≢◌, arith,
}
use benchmarks_m3_dsp_unopti.Barrier.{
  Words, Thread, System, Step, enters, leaves, Reach, here, next, arrive, call_barrier, cell, enter,
  leave, start,
}
use benchmarks_m3_dsp_unopti.Barrier.Safety.{left-le-entered, even_round_releases}
use benchmarks_m3_dsp_unopti.Barrier.Overtaken.{overtaken_spins_forever}
use benchmarks_m3_dsp_unopti.Barrier.Memory.{cell-call_barrier}

abbrev outside : ℕ → Thread
outside r = record { entered = r; left = r; spins = none }

abbrev waiting : Thread
waiting = record { entered = 1; left = 0; spins = some (pos 2) }

abbrev one_in : System
one_in = enter (start 2 0) 0 (outside 0)

abbrev both_in : System
both_in = enter one_in 1 (outside 0)

abbrev one_out : System
one_out = leave both_in 1 waiting

abbrev again : System
again = enter one_out 1 (outside 1)

arrive_up :
    arrive (record { counter = pos 0; sense = negsuc 1 })
    ≡ (record { counter = pos 1; sense = negsuc 1 }, pos 2)
unfolding arrive
arrive_up = refl

-- The local barrier of `main`: counter and sense are 2, so the first round counts down.
arrive_local :
    arrive (record { counter = pos 1; sense = pos 2 })
    ≡ (record { counter = pos 0; sense = negsuc 1 }, pos 0)
unfolding arrive
arrive_local = refl

Reach-both_in : Reach (start 2 0) both_in
unfolding enter arrive
Reach-both_in = next (next here (enters 0 (outside 0) refl refl)) (enters 1 (outside 0) refl refl)

Reach-one_out : Reach (start 2 0) one_out
unfolding enter arrive leave
Reach-one_out = next Reach-both_in (leaves 1 waiting refl refl)

Reach-again : Reach (start 2 0) again
unfolding enter arrive leave
Reach-again = next Reach-one_out (enters 1 (outside 1) refl refl)

left-le-entered_example : 1 ≤ waiting.entered
unfolding enter arrive leave
left-le-entered_example =
    left-le-entered 2 0 1 0 (outside 1) waiting (omega arith) Reach-one_out refl refl

even_round_releases_example :
    (waiting.spins ≡ some one_out.shared.counter) × Step one_out (leave one_out 0 waiting)
unfolding enter arrive leave
even_round_releases_example =
    even_round_releases 2 0 1 0 waiting (omega arith) Reach-one_out (omega arith) refl
      (λ e. ground arith)

overtaken_spins_forever_example :
    (get_elem? again.threads 0 ≡ some waiting) × (waiting.spins ≢ some again.shared.counter)
unfolding enter arrive leave
overtaken_spins_forever_example =
    overtaken_spins_forever 2 0 0 1 waiting (record { entered = 2; left = 1; spins = some (pos 0) })
      (omega arith) Reach-again refl refl (λ e. ground arith) refl here

-- Barrier 0 at rest for three threads, barrier 1 with one arrival.
abbrev words : Words
words a = get_or (pos 0 ∷ negsuc 2 ∷ pos 1 ∷ negsuc 2 ∷ []) a (pos 0)

cell-call_barrier_example :
    (cell (call_barrier words 0).0 0 ≡ (arrive (cell words 0)).0)
    × (cell (call_barrier words 0).0 1 ≡ cell words 1)
    × ((call_barrier words 0).1 ≡ (arrive (cell words 0)).1)
cell-call_barrier_example = cell-call_barrier words 0 1 (omega arith) (omega arith) (omega arith)

-- ===== src/HwSpinlock/Tests.antt =====
-- The lock 4 of 32, which the kernels' barriers use.
use benchmarks_m3_dsp_unopti.Base.{
  ℕ, ◌≡◌, refl, none, some, [], ◌∷◌, true, false, pos, update, arith,
}
use benchmarks_m3_dsp_unopti.HwSpinlock.{
  Module, create, delete, success, still_in_use, enter, entered, timed_out, take_at,
}
use benchmarks_m3_dsp_unopti.HwSpinlock.Users.{
  Tracks, no_user, create-Tracks, delete-Tracks, delete-still_in_use, after_retry,
}

abbrev fresh : Module
fresh = record { locks = λ id. none; words = λ id. 0; shared = λ id. false }

abbrev nobody : ℕ → ℕ
nobody id = 0

abbrev one_user : Module
one_user = (create 32 fresh (pos 4) false true).1

created : (create 32 fresh (pos 4) false true).0 ≡ some 4
unfolding create
created = refl

create-Tracks_example : Tracks one_user (update nobody 4 1)
create-Tracks_example =
    create-Tracks 32 fresh (pos 4) false true nobody 4 (λ id. no_user) created (omega arith)

deleted : (delete one_user 4).0 ≡ success
unfolding delete create
deleted = refl

delete-Tracks_example : Tracks (delete one_user 4).1 (update (update nobody 4 1) 4 0)
delete-Tracks_example =
    delete-Tracks one_user 4 (update nobody 4 1)
      (create-Tracks 32 fresh (pos 4) false true nobody 4 (λ id. no_user) created (omega arith))
      deleted

abbrev taken : Module
taken = take_at one_user 4 (one_user.locks 4)

taken_lock : taken.locks 4 ≡ some (record { ref_cnt = 1; taken = true })
unfolding create
taken_lock = refl

delete-still_in_use_example :
    ((delete taken 4).0 ≡ still_in_use) × ((after_retry 32 taken 4).locks 4 ≡ none)
delete-still_in_use_example = delete-still_in_use 32 taken 4 (omega arith) taken_lock

enter_second : enter one_user 4 (some 5) ((1, 2) ∷ (0, 3) ∷ []) ≡ entered taken
unfolding enter create
enter_second = refl

enter_late : enter one_user 4 (some 5) ((1, 2) ∷ (1, 6) ∷ (0, 7) ∷ []) ≡ timed_out
unfolding enter create
enter_late = refl

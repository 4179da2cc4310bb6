-- ===== src/RcmClient/Tests.antt =====
-- A client with two threads, on concrete inputs.
use benchmarks_m3_dsp_unopti.Base.{
  both_branches, ◌==◌, ◌+◌, ◌≤◌, arith, true, ℕ, zero, suc, ◌≡◌, ◌≤◌, refl, none, some, [], ◌∷◌,
  All, true, pos, arith, ◌+◌,
}
use benchmarks_m3_dsp_unopti.RcmServer.Jobs.{Packet}
use benchmarks_m3_dsp_unopti.RcmClient.Mailbox.{
  Phase, mails, has, System, run, wake, arrive, call, arrives, enters, runs, wakes, empty_box,
  Reached, at_first, after, fail, by_thread,
}
use benchmarks_m3_dsp_unopti.RcmClient.Mailbox.Sound.{Sound}
use benchmarks_m3_dsp_unopti.RcmClient.Mailbox.Sound.Steps.{Reached-Sound}
use benchmarks_m3_dsp_unopti.RcmClient.Mailbox.Stall.{Stuck, NotHere, Settled, Stuck-Settled}
use benchmarks_m3_dsp_unopti.RcmClient.Mailbox.Weights.{weight, OneEach}
use benchmarks_m3_dsp_unopti.RcmClient.Mailbox.Weights.Steps.{weight-Moves}
use benchmarks_m3_dsp_unopti.RcmClient.Mailbox.Rest.{Rests, rest-Rests}
use benchmarks_m3_dsp_unopti.RcmClient.Mailbox.Orphans.{stands, Keeps, fail-Keeps}

abbrev reply : ℕ → Packet
reply id = record {
  hdr_type = 5;
  hdr_len = 24;
  desc = 0;
  msg_id = id;
  pool_id = 0x8000;
  job_id = 0;
  fxn_idx = 1;
  result = pos 0;
  data_size = 4;
  word = 9;
  words = [];
}

-- The thread for the message 1 becomes the mailman; the one for 2 waits; its reply comes first.
abbrev first : System
first = record { box = empty_box; threads = [] }

abbrev one_mails : System
one_mails = record { box = record empty_box { queue_lock = true }; threads = mails 1 ∷ [] }

one_runs : run (call first 1) 0 ≡ some one_mails
unfolding run
one_runs = refl

abbrev two_waits : System
two_waits = record {
  box = record empty_box {
    queue_lock = true;
    recipients = record { msg_id = 2; msg = none; event = 0 } ∷ [];
  };
  threads = mails 1 ∷ [];
}

two_runs : run (call one_mails 2) 0 ≡ some two_waits
unfolding run
two_runs = refl

abbrev reply_taken : System
reply_taken = record { box = two_waits.box; threads = Phase.carries 1 (reply 2) ∷ [] }

mailman_runs : run (arrive two_waits (reply 2)) 0 ≡ some reply_taken
unfolding run
mailman_runs = refl

abbrev reply_handed : System
reply_handed = record {
  box = record empty_box {
    queue_lock = true;
    recipients = record { msg_id = 2; msg = some (reply 2); event = 1 } ∷ [];
  };
  threads = mails 1 ∷ [];
}

mailman_hands : run reply_taken 0 ≡ some reply_handed
unfolding run
mailman_hands = refl

abbrev two_has : System
two_has = record {
  box = record empty_box { queue_lock = true };
  threads = has 2 (reply 2) ∷ mails 1 ∷ [];
}

two_wakes : wake reply_handed 0 ≡ some two_has
unfolding wake
two_wakes = refl

one_mails-Reached : Reached one_mails
one_mails-Reached = after _ _ (after _ _ at_first (enters 1)) (runs 0 one_mails one_runs)

two_waits-Reached : Reached two_waits
two_waits-Reached = after _ _ (after _ _ one_mails-Reached (enters 2)) (runs 0 two_waits two_runs)

arrived-Reached : Reached (arrive two_waits (reply 2))
arrived-Reached = after _ _ two_waits-Reached (arrives (reply 2))

two_has-Reached : Reached two_has
two_has-Reached =
    after _ _
      (after _ _ (after _ _ arrived-Reached (runs 0 reply_taken mailman_runs))
        (runs 0 reply_handed mailman_hands))
      (wakes 0 two_has two_wakes)

Reached-Sound_example : Sound two_has
Reached-Sound_example = Reached-Sound two_has two_has-Reached

two_has-Stuck : Stuck two_has
unfolding run wake
two_has-Stuck = record { no_run = cannot_run; no_wake = λ j. refl }
  where
    cannot_run : (i : ℕ) → run two_has i ≡ none
    cannot_run zero = refl
    cannot_run (suc zero) = refl
    cannot_run (suc (suc i)) = refl

Stuck-Settled_example :
    All (Settled two_has.box) two_has.threads
    × All (λ r. NotHere two_has.box r.msg_id) two_has.box.recipients
Stuck-Settled_example = Stuck-Settled two_has two_has-Reached two_has-Stuck

abbrev data_of : Packet → ℕ
data_of p = p.word

one_reply : OneEach (λ f. weight f (arrive two_waits (reply 2)))
one_reply id = both_branches (λ n. n + 0 + 0 ≤ 1) (id == 2) 1 0 (omega arith) (omega arith)

weight-Moves_example : weight data_of reply_taken ≡ weight data_of (arrive two_waits (reply 2))
weight-Moves_example =
    weight-Moves (arrive two_waits (reply 2)) reply_taken data_of arrived-Reached one_reply
      (by_thread 0 reply_taken mailman_runs)

rest-Rests_example : (t : System) × Rests (arrive two_waits (reply 2)) t
rest-Rests_example = rest-Rests (arrive two_waits (reply 2)) arrived-Reached

abbrev orphaned : System
orphaned = record {
  box = record two_waits.box { msg_que = reply 2 ∷ [] };
  threads = Phase.lost 1 ∷ [];
}

mailman_fails : fail (arrive two_waits (reply 2)) 0 ≡ some orphaned
unfolding fail
mailman_fails = refl

fail-Keeps_example : Keeps 1 orphaned
fail-Keeps_example =
    fail-Keeps (arrive two_waits (reply 2)) orphaned orphaned 0 arrived-Reached mailman_fails stands

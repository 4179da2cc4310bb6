-- ===== src/RcmClient/Mailbox/Sound/Steps.antt =====
-- The mailbox in the states that are reached by steps of RcmClient_getReturnMsg_P.
use benchmarks_m3_dsp_unopti.Base.{
  ℕ, ◌+◌, ◌≡◌, refl, sym, ap, ◌∙◌, inl, inr, Option, none, some, List, ◌∷◌, false, arith, ◌==◌,
  Bool-cases, if_true, if_false, ==_iff, subst,
}
use benchmarks_m3_dsp_unopti.RcmServer.Jobs.{Packet}
use benchmarks_m3_dsp_unopti.RcmClient.Mailbox.{
  Recipient, Phase, starts, System, take_at, turn_of, run, woken, wake_of, wake, call, Step,
  arrives, enters, runs, wakes, Reached, at_first, after,
}
use benchmarks_m3_dsp_unopti.RcmClient.Mailbox.Totals.{total, is_for, total-take_at, All-take_at}
use benchmarks_m3_dsp_unopti.RcmClient.Mailbox.Sound.{
  RecipientOk, Waits, PhaseOk, is_mailman, is_waiting, is_signalled, is_candidate, Attended, Sound,
  without, signalled,
}
use benchmarks_m3_dsp_unopti.RcmClient.Mailbox.Sound.Turns.{
  before, SoundIf, turn-Sound, more_candidates,
}

run-Sound : (s : System) (i : ℕ) → Sound s → SoundIf (run s i)
unfolding run
run-Sound s i h = by_thread (take_at s.threads i) refl
  where
    by_thread :
        (o : Option (Phase × List Phase)) → take_at s.threads i ≡ o → SoundIf (turn_of s.box o)
    by_thread none e = tt
    by_thread (some (t, ts)) e = turn-Sound s.box t ts (before s i t ts h e)

-- A recipient that goes on without a message becomes a candidate.
woken-Sound :
    (s : System) (j : ℕ) (r : Recipient) (rs : List Recipient) (m : Option Packet)
    → Sound s
    → take_at s.box.recipients j ≡ some (r, rs)
    → r.msg ≡ m
    → (r.event == 0) ≡ false
    → Sound
        (record { box = record s.box { recipients = rs }; threads = woken r.msg_id m ∷ s.threads })
woken-Sound s j r rs m h e q v =
    let nm = s.box.new_mail in
    let ok = All-take_at (Waits nm) s.box.recipients j r rs h.recipients_ok e in
    let own = subst (λ x. RecipientOk nm r.msg_id x r.event) q ok.0 in
    record {
      recipients_ok = ok.1;
      threads_ok = (phase_ok m own, h.threads_ok);
      one_mailman = not_yet m ∙ h.one_mailman;
      attended = go_on m own (ap without q) (ap (signalled r.event) q) h.attended;
    }
  where
    phase_ok :
        (x : Option Packet)
        → RecipientOk s.box.new_mail r.msg_id x r.event
        → PhaseOk s.box.new_mail (woken r.msg_id x)
    phase_ok none a = tt
    phase_ok (some p) a = a.0

    not_yet :
        (x : Option Packet)
        → is_mailman (woken r.msg_id x) + total is_mailman s.threads ≡ total is_mailman s.threads
    not_yet none = omega arith
    not_yet (some p) = omega arith

    waiting : total is_waiting s.box.recipients ≡ is_waiting r + total is_waiting rs
    waiting = total-take_at is_waiting s.box.recipients j r rs e

    posted : total is_signalled s.box.recipients ≡ is_signalled r + total is_signalled rs
    posted = total-take_at is_signalled s.box.recipients j r rs e

    go_on :
        (x : Option Packet)
        → RecipientOk s.box.new_mail r.msg_id x r.event
        → is_waiting r ≡ without x
        → is_signalled r ≡ signalled r.event x
        → Attended (total (is_candidate s.box.new_mail) s.threads) s.box
        → Attended
            (total (is_candidate s.box.new_mail) (woken r.msg_id x ∷ s.threads))
            (record s.box { recipients = rs })
    go_on x a w y (inl z) = inl (omega (arith, waiting, z))
    go_on (some p) a w y (inr z) = inr (omega (arith, posted, y, z))
    go_on none a w y (inr z) =
        let candidate : is_candidate s.box.new_mail (starts r.msg_id) ≡ 1 =
          if_true (total (is_for r.msg_id) s.box.new_mail == 0) _ _ ((==_iff _ _).1 a) in
        inr (omega (arith, candidate))

wake-Sound : (s : System) (j : ℕ) → Sound s → SoundIf (wake s j)
unfolding wake
wake-Sound s j h = by_recipient (take_at s.box.recipients j) refl
  where
    by_recipient :
        (o : Option (Recipient × List Recipient))
        → take_at s.box.recipients j ≡ o
        → SoundIf (wake_of s o)
    by_recipient none e = tt
    by_recipient (some (r, rs)) e = elim (Bool-cases (r.event == 0)) [
      | inl v ↦ subst SoundIf (sym (if_true (r.event == 0) _ _ v)) tt
      | inr v ↦
          subst SoundIf (sym (if_false (r.event == 0) _ _ v))
            (woken-Sound s j r rs r.msg h e refl v)
    ]

call-Sound : (s : System) (id : ℕ) → Sound s → Sound (call s id)
call-Sound s id h = record {
  recipients_ok = h.recipients_ok;
  threads_ok = (tt, h.threads_ok);
  one_mailman = let q = h.one_mailman in omega (arith, q);
  attended = more_candidates s.box _ _ (omega arith) h.attended;
}

Step-Sound : (s t : System) → Sound s → Step s t → Sound t
Step-Sound s _ h (arrives p) = record {
  recipients_ok = h.recipients_ok;
  threads_ok = h.threads_ok;
  one_mailman = h.one_mailman;
  attended = h.attended;
}
Step-Sound s _ h (enters id) = call-Sound s id h
Step-Sound s _ h (runs i t e) = subst SoundIf e (run-Sound s i h)
Step-Sound s _ h (wakes j t e) = subst SoundIf e (wake-Sound s j h)

-- In every state that is reached: a thread that has returned has the message with its own id, and so
-- has a recipient with a message, who has been signalled; a recipient without one, and the mailman,
-- have no new mail; queueLock is taken exactly while one thread is the mailman; and while recipients
-- wait without a message, there is a mailman, one of them has been signalled, or a thread is about to
-- search the new mail in vain.
pub Reached-Sound : (s : System) → Reached s → Sound s
Reached-Sound _ at_first = record {
  recipients_ok = tt;
  threads_ok = tt;
  one_mailman = refl;
  attended = inl refl;
}
Reached-Sound _ (after s t r e) = Step-Sound s t (Reached-Sound s r) e

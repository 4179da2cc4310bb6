-- ===== src/RcmClient/Mailbox/Orphans.antt =====
-- What becomes of the other threads of RcmClient.c when MessageQ_get fails in the mailman.
use benchmarks_m3_dsp_unopti.Base.{
  ℕ, ◌+◌, ◌≤◌, ◌≡◌, refl, sym, ◌∙◌, Option, none, some, List, [], ◌∷◌, true, arith, ◌==◌, if_true,
  both_branches, subst, length, length-append,
}
use benchmarks_m3_dsp_unopti.RcmServer.Jobs.{Packet}
use benchmarks_m3_dsp_unopti.RcmClient.Mailbox.{
  Recipient, Mailbox, Phase, starts, mails, carries, has, lost, System, take_at, take_mail, look_up,
  turn, turn_of, run, woken, wake_of, wake, Step, arrives, enters, runs, wakes, fail_of, fail,
  Reached,
}
use benchmarks_m3_dsp_unopti.RcmClient.Mailbox.Totals.{total, total-take_at}
use benchmarks_m3_dsp_unopti.RcmClient.Mailbox.Sound.{is_mailman, Sound}
use benchmarks_m3_dsp_unopti.RcmClient.Mailbox.Sound.Turns.{only_mailman}
use benchmarks_m3_dsp_unopti.RcmClient.Mailbox.Sound.Steps.{Reached-Sound}

-- queueLock is taken, and nobody is the mailman.
pub record Orphaned (s : System) : Type 0 where
  pub is_taken : s.box.queue_lock ≡ true
  pub no_mailman : total is_mailman s.threads ≡ 0

-- What the system may do.
pub data Runs (s : System) : System → Type 0 where
  stands : Runs s s
  steps : (t u : System) → Runs s t → Step t u → Runs s u

-- An orphaned system that still has these messages.
pub record Keeps (n : ℕ) (s : System) : Type 0 where
  pub orphaned : Orphaned s
  pub holds : n ≤ length s.box.msg_que

abbrev KeepsIf : ℕ → Option System → Type 0
KeepsIf n none = Unit
KeepsIf n (some t) = Keeps n t

look_up-Keeps :
    (b : Mailbox) (id : ℕ) (ts : List Phase) (o : Option (Packet × List Packet))
    → b.queue_lock ≡ true
    → total is_mailman ts ≡ 0
    → Keeps (length b.msg_que) (look_up b id ts o)
look_up-Keeps b id ts (some (p, ps)) e z = record {
  orphaned = record { is_taken = e; no_mailman = omega (arith, z) };
  holds = omega arith;
}
look_up-Keeps b id ts none e z =
    subst (Keeps (length b.msg_que)) (sym (if_true b.queue_lock _ _ e))
      (record { orphaned = record { is_taken = e; no_mailman = z }; holds = omega arith })

turn-KeepsIf :
    (b : Mailbox) (t : Phase) (ts : List Phase)
    → b.queue_lock ≡ true
    → is_mailman t + total is_mailman ts ≡ 0
    → KeepsIf (length b.msg_que) (turn b t ts)
turn-KeepsIf b (starts id) ts e z =
    look_up-Keeps b id ts (take_mail b.new_mail id) e (omega (arith, z))
turn-KeepsIf b (mails id) ts e z = absurd (omega (arith, z))
turn-KeepsIf b (carries id p) ts e z = absurd (omega (arith, z))
turn-KeepsIf b (has id p) ts e z = tt
turn-KeepsIf b (lost id) ts e z = tt

run-KeepsIf : (s : System) (i : ℕ) → Orphaned s → KeepsIf (length s.box.msg_que) (run s i)
unfolding run
run-KeepsIf s i h = by_thread (take_at s.threads i) refl
  where
    by_thread :
        (o : Option (Phase × List Phase))
        → take_at s.threads i ≡ o
        → KeepsIf (length s.box.msg_que) (turn_of s.box o)
    by_thread none e = tt
    by_thread (some (t, ts)) e =
        turn-KeepsIf s.box t ts h.is_taken
          (sym (total-take_at is_mailman s.threads i t ts e) ∙ h.no_mailman)

wake-KeepsIf : (s : System) (j : ℕ) → Orphaned s → KeepsIf (length s.box.msg_que) (wake s j)
unfolding wake
wake-KeepsIf s j h = by_recipient (take_at s.box.recipients j)
  where
    not_yet : (id : ℕ) (m : Option Packet) → is_mailman (woken id m) ≡ 0
    not_yet id none = refl
    not_yet id (some p) = refl

    by_recipient :
        (o : Option (Recipient × List Recipient)) → KeepsIf (length s.box.msg_que) (wake_of s o)
    by_recipient none = tt
    by_recipient (some (r, rs)) =
        both_branches (KeepsIf (length s.box.msg_que)) (r.event == 0) _ _ tt (record {
          orphaned = record {
            is_taken = h.is_taken;
            no_mailman = let n = h.no_mailman in omega (arith, not_yet r.msg_id r.msg, n);
          };
          holds = omega arith;
        })

Step-Keeps : (n : ℕ) (s t : System) → Keeps n s → Step s t → Keeps n t
Step-Keeps n s _ k (arrives p) = record {
  orphaned = record { is_taken = k.orphaned.is_taken; no_mailman = k.orphaned.no_mailman };
  holds = let h = k.holds in omega (arith, h, length-append s.box.msg_que (p ∷ []));
}
Step-Keeps n s _ k (enters id) = record {
  orphaned = record {
    is_taken = k.orphaned.is_taken;
    no_mailman = let z = k.orphaned.no_mailman in omega (arith, z);
  };
  holds = k.holds;
}
Step-Keeps n s t k (runs i _ e) =
    let q = subst (KeepsIf (length s.box.msg_que)) e (run-KeepsIf s i k.orphaned) in
    let h = k.holds in
    let g = q.holds in record { orphaned = q.orphaned; holds = omega (arith, h, g) }
Step-Keeps n s t k (wakes j _ e) =
    let q = subst (KeepsIf (length s.box.msg_que)) e (wake-KeepsIf s j k.orphaned) in
    let h = k.holds in
    let g = q.holds in record { orphaned = q.orphaned; holds = omega (arith, h, g) }

Runs-Keeps : (n : ℕ) (s t : System) → Keeps n s → Runs s t → Keeps n t
Runs-Keeps n s _ k stands = k
Runs-Keeps n s t k (steps u _ r e) = Step-Keeps n u t (Runs-Keeps n s u k r) e

fail-KeepsIf : (s : System) (i : ℕ) → Sound s → KeepsIf (length s.box.msg_que) (fail s i)
unfolding fail
fail-KeepsIf s i h = by_thread (take_at s.threads i) refl
  where
    by_thread :
        (o : Option (Phase × List Phase))
        → take_at s.threads i ≡ o
        → KeepsIf (length s.box.msg_que) (fail_of s o)
    by_thread none e = tt
    by_thread (some (mails id, ts)) e =
        let alone =
          only_mailman s.box (total is_mailman ts)
            (sym (total-take_at is_mailman s.threads i (mails id) ts e) ∙ h.one_mailman) in
        let z = alone.0 in
        record {
          orphaned = record { is_taken = alone.1; no_mailman = omega (arith, z) };
          holds = omega arith;
        }
    by_thread (some (starts id, ts)) e = tt
    by_thread (some (carries id p, ts)) e = tt
    by_thread (some (has id p, ts)) e = tt
    by_thread (some (lost id, ts)) e = tt

-- When MessageQ_get fails in the mailman of a state that is reached, then whatever the system does from
-- there on, queueLock stays taken, nobody is the mailman, and the queue has as many messages at least
-- as it had.
pub fail-Keeps :
    (s t u : System) (i : ℕ)
    → Reached s
    → fail s i ≡ some t
    → Runs t u
    → Keeps (length s.box.msg_que) u
fail-Keeps s t u i r e v =
    Runs-Keeps (length s.box.msg_que) t u
      (subst (KeepsIf (length s.box.msg_que)) e (fail-KeepsIf s i (Reached-Sound s r))) v

-- ===== src/RcmClient/Mailbox/Weights/Steps.antt =====
-- The weight after a step of the threads of RcmClient.c.
use benchmarks_m3_dsp_unopti.Base.{
  ℕ, ◌+◌, ◌≤◌, ◌≡◌, refl, sym, ap, ◌∙◌, Option, none, some, List, [], ◌∷◌, true, arith, ◌==◌, subst,
  both_branches,
}
use benchmarks_m3_dsp_unopti.RcmServer.Jobs.{Packet}
use benchmarks_m3_dsp_unopti.RcmClient.Mailbox.{
  Recipient, Mailbox, Phase, starts, mails, carries, has, lost, System, take_at, take_mail,
  recipient, without_mail, look_up, get_blocking, turn, turn_of, run, woken, wake_of, wake, Reached,
  Moves, by_thread, by_recipient,
}
use benchmarks_m3_dsp_unopti.RcmClient.Mailbox.Totals.{
  total, total-append, is_for, Found, take_mail-Found, total-take_at,
}
use benchmarks_m3_dsp_unopti.RcmClient.Mailbox.Sound.{Sound}
use benchmarks_m3_dsp_unopti.RcmClient.Mailbox.Sound.Turns.{Before, before, only_mailman}
use benchmarks_m3_dsp_unopti.RcmClient.Mailbox.Sound.Steps.{Reached-Sound}
use benchmarks_m3_dsp_unopti.RcmClient.Mailbox.Weights.{
  of_msg, of_recipient, of_phase, in_box, weight, OneEach, after_sort-sort,
}

-- A turn keeps the weight of a system in which it is made.
abbrev KeepsIf : ((Packet → ℕ) → ℕ) → Option System → Type 0
KeepsIf w none = Unit
KeepsIf w (some t) = (f : Packet → ℕ) → weight f t ≡ w f

-- The weight of a mailbox with a thread and the others.
abbrev of_parts : Mailbox → Phase → List Phase → (Packet → ℕ) → ℕ
of_parts b t ts f = total f b.msg_que + (in_box f b + (of_phase f t + total (of_phase f) ts))

searched :
    (b : Mailbox) (id : ℕ) (ts : List Phase)
    → Before b (starts id) ts
    → Found id b.new_mail none
    → OneEach (of_parts b (starts id) ts)
    → (f : Packet → ℕ) → weight f (without_mail b id ts) ≡ of_parts b (starts id) ts f
searched b id ts h a one f =
    both_branches (λ s. weight f s ≡ of_parts b (starts id) ts f) b.queue_lock _ _
      (omega (arith, total-append (of_recipient f) b.recipients (recipient id ∷ [])))
      (let c : Mailbox = record b { queue_lock = true } in
        let end =
          after_sort-sort f id b.msg_que c
            (record { own_absent = a; is_taken = refl; all_wait = h.recipients_ok })
            (λ k. let u = one k in omega (arith, u)) in
        omega (arith, end))

looked_up :
    (b : Mailbox) (id : ℕ) (ts : List Phase) (o : Option (Packet × List Packet))
    → Before b (starts id) ts
    → Found id b.new_mail o
    → OneEach (of_parts b (starts id) ts)
    → (f : Packet → ℕ) → weight f (look_up b id ts o) ≡ of_parts b (starts id) ts f
looked_up b id ts none h a one = searched b id ts h a one
looked_up b id ts (some (p, rest)) h a one = λ f. let q = a.1 f in omega (arith, q)

turn-KeepsIf :
    (b : Mailbox) (t : Phase) (ts : List Phase)
    → Before b t ts
    → OneEach (of_parts b t ts)
    → KeepsIf (of_parts b t ts) (turn b t ts)
turn-KeepsIf b (starts id) ts h one =
    looked_up b id ts (take_mail b.new_mail id) h (take_mail-Found b.new_mail id) one
turn-KeepsIf b (mails id) ts h one = by_queue b.msg_que refl
  where
    by_queue :
        (q : List Packet)
        → b.msg_que ≡ q
        → KeepsIf (of_parts b (mails id) ts) (get_blocking b id ts q)
    by_queue [] e = tt
    by_queue (p ∷ q) e = λ f. let n = ap (total f) e in omega (arith, n)
turn-KeepsIf b (carries id p) ts h one = λ f.
    let alone = only_mailman b _ h.one_mailman in
    let end =
      after_sort-sort f id (p ∷ b.msg_que) b
        (record { own_absent = h.phase_ok; is_taken = alone.1; all_wait = h.recipients_ok })
        (λ k. let u = one k in omega (arith, u)) in
    omega (arith, end)
turn-KeepsIf b (has id p) ts h one = tt
turn-KeepsIf b (lost id) ts h one = tt

run-KeepsIf :
    (s : System) (i : ℕ) → Sound s → OneEach (λ f. weight f s) → KeepsIf (λ f. weight f s) (run s i)
unfolding run
run-KeepsIf s i ok one = by_thread (take_at s.threads i) refl
  where
    same_weight :
        (t : Phase) (ts : List Phase)
        → take_at s.threads i ≡ some (t, ts)
        → (f : Packet → ℕ) → of_parts s.box t ts f ≡ weight f s
    same_weight t ts e f = omega (arith, total-take_at (of_phase f) s.threads i t ts e)

    moved :
        (t : Phase) (ts : List Phase) (o : Option System)
        → take_at s.threads i ≡ some (t, ts)
        → KeepsIf (of_parts s.box t ts) o
        → KeepsIf (λ f. weight f s) o
    moved t ts none e k = tt
    moved t ts (some u) e k = λ f. k f ∙ same_weight t ts e f

    by_thread :
        (o : Option (Phase × List Phase))
        → take_at s.threads i ≡ o
        → KeepsIf (λ f. weight f s) (turn_of s.box o)
    by_thread none e = tt
    by_thread (some (t, ts)) e = moved t ts (turn s.box t ts) e (
        turn-KeepsIf s.box t ts (before s i t ts ok e)
          (λ k. subst (λ n. n ≤ 1) (sym (same_weight t ts e (is_for k))) (one k)))

wake-KeepsIf : (s : System) (j : ℕ) → KeepsIf (λ f. weight f s) (wake s j)
unfolding wake
wake-KeepsIf s j = by_recipient (take_at s.box.recipients j) refl
  where
    of_woken : (f : Packet → ℕ) (id : ℕ) (m : Option Packet) → of_phase f (woken id m) ≡ of_msg f m
    of_woken f id none = refl
    of_woken f id (some p) = refl

    by_recipient :
        (o : Option (Recipient × List Recipient))
        → take_at s.box.recipients j ≡ o
        → KeepsIf (λ f. weight f s) (wake_of s o)
    by_recipient none e = tt
    by_recipient (some (r, rs)) e =
        both_branches (KeepsIf (λ f. weight f s)) (r.event == 0) _ _ tt λ f.
          let n = of_woken f r.msg_id r.msg in
          omega (arith, n, total-take_at (of_recipient f) s.box.recipients j r rs e)

-- No step of a client's threads loses or doubles a message: with one message at most for each id, the
-- messages in the queue, in the mailbox and with the threads weigh the same before and after it,
-- whatever the weight of a message.
pub weight-Moves :
    (s t : System) (f : Packet → ℕ)
    → Reached s
    → OneEach (λ g. weight g s)
    → Moves s t
    → weight f t ≡ weight f s
weight-Moves s t f r one (by_thread i _ e) =
    subst (KeepsIf (λ g. weight g s)) e (run-KeepsIf s i (Reached-Sound s r) one) f
weight-Moves s t f r one (by_recipient j _ e) =
    subst (KeepsIf (λ g. weight g s)) e (wake-KeepsIf s j) f

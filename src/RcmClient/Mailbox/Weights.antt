-- ===== src/RcmClient/Mailbox/Weights.antt =====
-- The replies on their way through the mailbox of RcmClient.c, weighed by any function of a message.
pub mod Steps
use benchmarks_m3_dsp_unopti.Base.{
  ℕ, ◌+◌, ◌≤◌, ◌≡◌, refl, sym, ap, ◌∙◌, inl, inr, Option, none, some, List, [], ◌∷◌, All, true,
  arith, ◌==◌, Bool-cases, if_true, if_false, ==_iff, ==_refl, subst, both_branches,
}
use benchmarks_m3_dsp_unopti.RcmServer.Jobs.{Packet}
use benchmarks_m3_dsp_unopti.RcmClient.Mailbox.{
  Recipient, Mailbox, Phase, starts, mails, carries, has, lost, System, take_at, take_mail, behind,
  hand_over, keep_or_hand, deliver, signal_or, new_mailman, sort, recipient, without_mail, look_up,
  get_blocking, turn, turn_of, run, woken, wake_of, wake, Reached,
}
use benchmarks_m3_dsp_unopti.RcmClient.Mailbox.Totals.{
  total, total-append, is_for, Found, take_mail-Found, total-take_at,
}
use benchmarks_m3_dsp_unopti.RcmClient.Mailbox.Sound.{
  RecipientOk, Waits, Sound, InHand, deliver-InHand,
}
use benchmarks_m3_dsp_unopti.RcmClient.Mailbox.Sound.Turns.{Before, before, only_mailman}
use benchmarks_m3_dsp_unopti.RcmClient.Mailbox.Sound.Steps.{Reached-Sound}

abbrev pub of_msg : (Packet → ℕ) → Option Packet → ℕ
of_msg f none = 0
of_msg f (some p) = f p

abbrev pub of_recipient : (Packet → ℕ) → Recipient → ℕ
of_recipient f r = of_msg f r.msg

abbrev pub of_phase : (Packet → ℕ) → Phase → ℕ
of_phase f (starts id) = 0
of_phase f (mails id) = 0
of_phase f (carries id p) = f p
of_phase f (has id p) = f p
of_phase f (lost id) = 0

-- The messages in the mailbox, behind the queue.
abbrev pub in_box : (Packet → ℕ) → Mailbox → ℕ
in_box f b = total f b.new_mail + total (of_recipient f) b.recipients

-- All messages of a client: in the queue, in the mailbox and with its threads.
abbrev pub weight : (Packet → ℕ) → System → ℕ
weight f s = total f s.box.msg_que + (in_box f s.box + total (of_phase f) s.threads)

-- What the search for a message's owner does to the weight.
abbrev Handed : (Packet → ℕ) → Packet → List Recipient → Option (List Recipient) → Type 0
Handed f p rs none = Unit
Handed f p rs (some qs) = total (of_recipient f) qs ≡ f p + total (of_recipient f) rs

behind-Handed :
    (f : Packet → ℕ) (p : Packet) (r : Recipient) (rs : List Recipient)
    (o : Option (List Recipient))
    → Handed f p rs o
    → Handed f p (r ∷ rs) (behind r o)
behind-Handed f p r rs none h = tt
behind-Handed f p r rs (some qs) h = omega (arith, h)

-- An owner that has no message with its id yet has none at all.
no_message :
    (nm : List Packet) (p : Packet) (r : Recipient)
    → r.msg_id ≡ p.msg_id
    → Waits nm r
    → of_recipient (is_for p.msg_id) r ≡ 0
    → (f : Packet → ℕ) → of_recipient f r ≡ 0
no_message nm p r e w z f = by_msg r.msg w z
  where
    by_msg :
        (m : Option Packet)
        → RecipientOk nm r.msg_id m r.event
        → of_msg (is_for p.msg_id) m ≡ 0
        → of_msg f m ≡ 0
    by_msg none k n = refl
    by_msg (some q) k n =
        let one : is_for p.msg_id q ≡ 1 =
          if_true (p.msg_id == q.msg_id) _ _ ((==_iff _ _).1 (sym (k.0 ∙ e))) in
        absurd (omega (arith, one, n))

hand_over-Handed :
    (f : Packet → ℕ) (nm : List Packet) (p : Packet) (rs : List Recipient)
    → All (Waits nm) rs
    → total (of_recipient (is_for p.msg_id)) rs ≡ 0
    → Handed f p rs (hand_over rs p)
hand_over-Handed f nm p [] w z = tt
hand_over-Handed f nm p (r ∷ rs) w z = elim (Bool-cases (r.msg_id == p.msg_id)) [
  | inl e ↦ subst (Handed f p (r ∷ rs)) (sym (if_true (r.msg_id == p.msg_id) _ _ e)) (
      let was = no_message nm p r ((==_iff _ _).0 e) w.0 (omega (arith, z)) f in omega (arith, was))
  | inr e ↦
      subst (Handed f p (r ∷ rs)) (sym (if_false (r.msg_id == p.msg_id) _ _ e)) (
        behind-Handed f p r rs (hand_over rs p) (hand_over-Handed f nm p rs w.1 (omega (arith, z))))
]

in_box-deliver :
    (f : Packet → ℕ) (b : Mailbox) (p : Packet)
    → All (Waits b.new_mail) b.recipients
    → in_box (is_for p.msg_id) b ≡ 0
    → in_box f (deliver b p) ≡ f p + in_box f b
in_box-deliver f b p w z =
    by_owner (hand_over b.recipients p)
      (hand_over-Handed f b.new_mail p b.recipients w (omega (arith, z)))
  where
    by_owner :
        (o : Option (List Recipient))
        → Handed f p b.recipients o
        → in_box f (keep_or_hand b p o) ≡ f p + in_box f b
    by_owner none h = omega (arith, total-append f b.new_mail (p ∷ []))
    by_owner (some rs) h = omega (arith, h)

total-signal_or :
    (f : Packet → ℕ) (m : Option Packet) (r : Recipient) (rs rest : List Recipient)
    → total (of_recipient f) rest ≡ total (of_recipient f) rs
    → total (of_recipient f) (signal_or m r rs rest) ≡ total (of_recipient f) (r ∷ rs)
total-signal_or f none r rs rest e = refl
total-signal_or f (some p) r rs rest e = ap (λ n. of_recipient f r + n) e

total-new_mailman :
    (f : Packet → ℕ) (rs : List Recipient)
    → total (of_recipient f) (new_mailman rs) ≡ total (of_recipient f) rs
total-new_mailman f [] = refl
total-new_mailman f (r ∷ rs) =
    total-signal_or f r.msg r rs (new_mailman rs) (total-new_mailman f rs)

-- A mailman's turn as a whole.
abbrev pub after_sort : (Packet → ℕ) → Phase × Mailbox → ℕ
after_sort f r = of_phase f r.0 + (total f r.1.msg_que + in_box f r.1)

-- Each id is that of one message at most.
abbrev pub OneEach : ((Packet → ℕ) → ℕ) → Type 0
OneEach w = (id : ℕ) → w (is_for id) ≤ 1

own : (p : Packet) → is_for p.msg_id p ≡ 1
own p = if_true (p.msg_id == p.msg_id) _ _ (==_refl p.msg_id)

pub after_sort-sort :
    (f : Packet → ℕ) (id : ℕ) (q : List Packet) (b : Mailbox)
    → InHand id b
    → OneEach (λ g. in_box g b + total g q)
    → after_sort f (sort id q b) ≡ in_box f b + total f q
after_sort-sort f id [] b h one = omega arith
after_sort-sort f id (p ∷ q) b h one = elim (Bool-cases (id == p.msg_id)) [
  | inl e ↦
      subst (λ r. after_sort f r ≡ in_box f b + total f (p ∷ q))
        (sym (if_true (id == p.msg_id) _ _ e)) (omega (arith, total-new_mailman f b.recipients))
  | inr e ↦
      subst (λ r. after_sort f r ≡ in_box f b + total f (p ∷ q))
        (sym (if_false (id == p.msg_id) _ _ e))
        (let given = in_box-deliver f b p h.all_wait new_id in
          let rest = after_sort-sort f id q (deliver b p) (deliver-InHand id b p e h) still in
          omega (arith, given, rest))
]
  where
    new_id : in_box (is_for p.msg_id) b ≡ 0
    new_id = omega (arith, one p.msg_id, own p)

    still : OneEach (λ g. in_box g (deliver b p) + total g q)
    still k = omega (arith, in_box-deliver (is_for k) b p h.all_wait new_id, one k)

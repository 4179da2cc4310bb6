-- ===== src/RcmClient/Mailbox/Energy.antt =====
-- A measure of the steps that the threads of RcmClient.c have left.
use benchmarks_m3_dsp_unopti.Base.{
  ℕ, suc, ◌+◌, ◌*◌, ◌≤◌, ◌<◌, ◌≡◌, refl, sym, ap, ◌∙◌, inl, inr, if◌then◌else◌, Option, none, some,
  List, [], ◌∷◌, true, false, arith, ◌==◌, Bool-cases, if_true, if_false, both_branches, subst,
  length,
}
use benchmarks_m3_dsp_unopti.RcmServer.Jobs.{Packet}
use benchmarks_m3_dsp_unopti.RcmClient.Mailbox.{
  Moves, by_thread, by_recipient, Recipient, Mailbox, Phase, starts, mails, carries, has, lost,
  System, take_at, take_mail, behind, hand_over, keep_or_hand, deliver, signal_or, new_mailman,
  sort, recipient, as_thread, look_up, get_blocking, turn, turn_of, run, woken, wake_of, wake,
}
use benchmarks_m3_dsp_unopti.RcmClient.Mailbox.Totals.{total, total-append, total-take_at}

abbrev pub of_event : Option Packet → ℕ → ℕ
of_event (some p) n = 1
of_event none n = if n == 0 then 3 else 5

abbrev pub left_of : Recipient → ℕ
left_of r = of_event r.msg r.event

abbrev pub left_in : Phase → ℕ
left_in (starts id) = 4
left_in (mails id) = 3
left_in (carries id p) = 5
left_in (has id p) = 0
left_in (lost id) = 0

abbrev pub left_box : Mailbox → ℕ
left_box b = 3 * length b.msg_que + total left_of b.recipients

-- A bound of the steps that the threads still make.
abbrev pub energy : System → ℕ
energy s = left_box s.box + total left_in s.threads

of_event-bound : (m : Option Packet) (n : ℕ) → (1 ≤ of_event m n) × (of_event m n ≤ 5)
of_event-bound (some p) n = (omega arith, omega arith)
of_event-bound none n =
    both_branches (λ k. (1 ≤ k) × (k ≤ 5)) (n == 0) 3 5 (omega arith, omega arith)
      (omega arith, omega arith)

abbrev NoMore : List Recipient → Option (List Recipient) → Type 0
NoMore rs none = Unit
NoMore rs (some qs) = total left_of qs ≤ total left_of rs

behind-NoMore :
    (r : Recipient) (rs : List Recipient) (o : Option (List Recipient))
    → NoMore rs o
    → NoMore (r ∷ rs) (behind r o)
behind-NoMore r rs none h = tt
behind-NoMore r rs (some qs) h = omega (arith, h)

hand_over-NoMore : (rs : List Recipient) (p : Packet) → NoMore rs (hand_over rs p)
hand_over-NoMore [] p = tt
hand_over-NoMore (r ∷ rs) p =
    both_branches (NoMore (r ∷ rs)) (r.msg_id == p.msg_id) _ _
      (omega (arith, (of_event-bound r.msg r.event).0))
      (behind-NoMore r rs (hand_over rs p) (hand_over-NoMore rs p))

deliver-NoMore :
    (b : Mailbox) (p : Packet) → total left_of (deliver b p).recipients ≤ total left_of b.recipients
deliver-NoMore b p = by_owner (hand_over b.recipients p) (hand_over-NoMore b.recipients p)
  where
    by_owner :
        (o : Option (List Recipient))
        → NoMore b.recipients o
        → total left_of (keep_or_hand b p o).recipients ≤ total left_of b.recipients
    by_owner none h = omega arith
    by_owner (some rs) h = h

-- The signal to a new mailman costs two.
signal_or-left :
    (m : Option Packet) (r : Recipient) (rs rest : List Recipient)
    → r.msg ≡ m
    → total left_of rest ≤ total left_of rs + 2
    → total left_of (signal_or m r rs rest) ≤ total left_of (r ∷ rs) + 2
signal_or-left (some p) r rs rest e h = omega (arith, h)
signal_or-left none r rs rest e h =
    let now : left_of (record r { event = suc r.event }) ≡ 5 =
      ap (λ m. of_event m (suc r.event)) e ∙ if_false (suc r.event == 0) _ _ (ground arith) in
    let was : left_of r ≡ (if r.event == 0 then 3 else 5) = ap (λ m. of_event m r.event) e in
    let least : 3 ≤ (if r.event == 0 then 3 else 5) =
      both_branches (λ k. 3 ≤ k) (r.event == 0) 3 5 (omega arith) (omega arith) in
    omega (arith, now, was, least)

new_mailman-left : (rs : List Recipient) → total left_of (new_mailman rs) ≤ total left_of rs + 2
new_mailman-left [] = omega arith
new_mailman-left (r ∷ rs) = signal_or-left r.msg r rs (new_mailman rs) refl (new_mailman-left rs)

abbrev spent : Phase × Mailbox → ℕ
spent r = left_in r.0 + left_box r.1

abbrev bound : List Packet → Mailbox → ℕ
bound q b = 3 + (3 * length q + total left_of b.recipients)

-- The first message is off the queue.
first_off :
    (id : ℕ) (p : Packet) (q : List Packet) (b : Mailbox)
    → spent (sort id q (deliver b p)) ≤ bound q (deliver b p)
    → spent (sort id (p ∷ q) b) ≤ bound q b
first_off id p q b h =
    both_branches (λ r. spent r ≤ bound q b) (id == p.msg_id) _ _
      (omega (arith, new_mailman-left b.recipients)) (omega (arith, h, deliver-NoMore b p))

sort-spent : (id : ℕ) (q : List Packet) (b : Mailbox) → spent (sort id q b) ≤ bound q b
sort-spent id [] b = omega arith
sort-spent id (p ∷ q) b =
    let less = first_off id p q b (sort-spent id q (deliver b p)) in omega (arith, less)

-- What a step leaves is less than what it starts from.
abbrev Lower : ℕ → Option System → Type 0
Lower n none = Unit
Lower n (some t) = energy t < n

look_up-lower :
    (b : Mailbox) (id : ℕ) (ts : List Phase) (o : Option (Packet × List Packet))
    → energy (look_up b id ts o) < left_box b + (4 + total left_in ts)
look_up-lower b id ts (some (p, ps)) = omega arith
look_up-lower b id ts none =
    both_branches (λ s. energy s < left_box b + (4 + total left_in ts)) b.queue_lock _ _
      (let more = total-append left_of b.recipients (recipient id ∷ []) in omega (arith, more))
      (let end = sort-spent id b.msg_que (record b { queue_lock = true }) in omega (arith, end))

as_thread-energy :
    (r : Phase × Mailbox) (ts : List Phase)
    → energy (as_thread r ts) ≡ left_box r.1 + (left_in r.0 + total left_in ts)
as_thread-energy (t, b) ts = refl

turn-Lower :
    (b : Mailbox) (t : Phase) (ts : List Phase)
    → Lower (left_box b + (left_in t + total left_in ts)) (turn b t ts)
turn-Lower b (starts id) ts = look_up-lower b id ts (take_mail b.new_mail id)
turn-Lower b (mails id) ts = by_queue b.msg_que refl
  where
    by_queue :
        (q : List Packet)
        → b.msg_que ≡ q
        → Lower (left_box b + (3 + total left_in ts)) (get_blocking b id ts q)
    by_queue [] e = tt
    by_queue (p ∷ q) e = let n = ap length e in omega (arith, n)
turn-Lower b (carries id p) ts =
    let end = first_off id p b.msg_que b (sort-spent id b.msg_que (deliver b p)) in
    subst (λ n. n < left_box b + (5 + total left_in ts))
      (sym (as_thread-energy (sort id (p ∷ b.msg_que) b) ts)) (omega (arith, end))
turn-Lower b (has id p) ts = tt
turn-Lower b (lost id) ts = tt

run-Lower : (s : System) (i : ℕ) → Lower (energy s) (run s i)
unfolding run
run-Lower s i = by_place (take_at s.threads i) refl
  where
    by_place :
        (o : Option (Phase × List Phase))
        → take_at s.threads i ≡ o
        → Lower (energy s) (turn_of s.box o)
    by_place none e = tt
    by_place (some (t, ts)) e =
        subst (λ n. Lower (left_box s.box + n) (turn s.box t ts))
          (sym (total-take_at left_in s.threads i t ts e)) (turn-Lower s.box t ts)

wake-Lower : (s : System) (j : ℕ) → Lower (energy s) (wake s j)
unfolding wake
wake-Lower s j = by_place (take_at s.box.recipients j) refl
  where
    less : (n id : ℕ) (m : Option Packet) → (n == 0) ≡ false → left_in (woken id m) < of_event m n
    less n id none e = rw (e) (omega arith)
    less n id (some p) e = omega arith

    by_place :
        (o : Option (Recipient × List Recipient))
        → take_at s.box.recipients j ≡ o
        → Lower (energy s) (wake_of s o)
    by_place none e = tt
    by_place (some (r, rs)) e = elim (Bool-cases (r.event == 0)) [
      | inl v ↦ subst (Lower (energy s)) (sym (if_true (r.event == 0) _ _ v)) tt
      | inr v ↦ subst (Lower (energy s)) (sym (if_false (r.event == 0) _ _ v)) (
          let was = total-take_at left_of s.box.recipients j r rs e in
          let now = less r.event r.msg_id r.msg v in omega (arith, was, now))
    ]

-- Each step of a client's threads lowers the energy of the client: without new replies and calls the
-- threads come to rest, after as many steps at most as the energy says.
pub energy-Moves : (s t : System) → Moves s t → energy t < energy s
energy-Moves s t (by_thread i _ e) = subst (Lower (energy s)) e (run-Lower s i)
energy-Moves s t (by_recipient j _ e) = subst (Lower (energy s)) e (wake-Lower s j)

-- ===== src/RcmClient/Mailbox/Sound.antt =====
-- What holds of a client's mailbox between the steps of its threads.
pub mod Turns
pub mod Steps
use benchmarks_m3_dsp_unopti.Base.{
  ℕ, suc, ◌+◌, ◌<◌, ◌≡◌, refl, sym, ap, ◌∙◌, ◌⊎◌, inl, inr, if◌then◌else◌, Option, none, some, List,
  [], ◌∷◌, ◌++◌, All, Bool, true, false, arith, ◌==◌, Bool-cases, if_true, if_false, ==_iff, subst,
}
use benchmarks_m3_dsp_unopti.RcmServer.Jobs.{Packet}
use benchmarks_m3_dsp_unopti.RcmClient.Mailbox.{
  Recipient, Mailbox, Phase, starts, mails, carries, has, lost, System, behind, hand_over,
  keep_or_hand, deliver, signal_or, new_mailman, resign, sort,
}
use benchmarks_m3_dsp_unopti.RcmClient.Mailbox.Totals.{total, total-append, is_for}

-- No message of a list has this id.
abbrev pub Absent : ℕ → List Packet → Type 0
Absent id ps = total (is_for id) ps ≡ 0

-- A recipient without a message has none among the new mail; one with a message has its own, and has
-- been signalled.
abbrev pub RecipientOk : List Packet → ℕ → Option Packet → ℕ → Type 0
RecipientOk nm id none n = Absent id nm
RecipientOk nm id (some p) n = (p.msg_id ≡ id) × (0 < n)

abbrev pub Waits : List Packet → Recipient → Type 0
Waits nm r = RecipientOk nm r.msg_id r.msg r.event

-- The mailman has no new mail, and a thread that has returned has its own message.
abbrev pub PhaseOk : List Packet → Phase → Type 0
PhaseOk nm (starts id) = Unit
PhaseOk nm (mails id) = Absent id nm
PhaseOk nm (carries id p) = Absent id nm
PhaseOk nm (has id p) = p.msg_id ≡ id
PhaseOk nm (lost id) = Unit

abbrev pub is_mailman : Phase → ℕ
is_mailman (starts id) = 0
is_mailman (mails id) = 1
is_mailman (carries id p) = 1
is_mailman (has id p) = 0
is_mailman (lost id) = 0

abbrev pub of_lock : Bool → ℕ
of_lock true = 1
of_lock false = 0

-- A recipient without a message; one of them that has been signalled; a thread that is going to search
-- the new mail in vain.
abbrev pub without : Option Packet → ℕ
without none = 1
without (some p) = 0

abbrev pub is_waiting : Recipient → ℕ
is_waiting r = without r.msg

abbrev pub signalled : ℕ → Option Packet → ℕ
signalled n (some p) = 0
signalled n none = if n == 0 then 0 else 1

abbrev pub is_signalled : Recipient → ℕ
is_signalled r = signalled r.event r.msg

abbrev pub if_absent : ℕ → ℕ
if_absent n = if n == 0 then 1 else 0

abbrev pub is_candidate : List Packet → Phase → ℕ
is_candidate nm (starts id) = if_absent (total (is_for id) nm)
is_candidate nm (mails id) = 0
is_candidate nm (carries id p) = 0
is_candidate nm (has id p) = 0
is_candidate nm (lost id) = 0

-- Recipients without a message wait only while there is a mailman, or somebody on the way to be one.
abbrev pub Attended : ℕ → Mailbox → Type 0
Attended n b =
    (total is_waiting b.recipients ≡ 0)
    ⊎ (0 < of_lock b.queue_lock + (total is_signalled b.recipients + n))

pub record Sound (s : System) : Type 0 where
  pub recipients_ok : All (Waits s.box.new_mail) s.box.recipients
  pub threads_ok : All (PhaseOk s.box.new_mail) s.threads
  pub one_mailman : total is_mailman s.threads ≡ of_lock s.box.queue_lock
  pub attended : Attended (total (is_candidate s.box.new_mail) s.threads) s.box

Absent-append :
    (id : ℕ) (nm : List Packet) (p : Packet)
    → (id == p.msg_id) ≡ false
    → Absent id nm
    → Absent id (nm ++ p ∷ [])
Absent-append id nm p n a =
    let alone : is_for id p ≡ 0 = rw (n) refl in
    omega (arith, total-append (is_for id) nm (p ∷ []), alone, a)

-- What the search for a message's owner ends with.
abbrev Handed : List Packet → Packet → List Recipient → Option (List Recipient) → Type 0
Handed nm p rs none = All (Waits (nm ++ p ∷ [])) rs
Handed nm p rs (some qs) = All (Waits nm) qs

behind-Handed :
    (nm : List Packet) (p : Packet) (r : Recipient) (rs : List Recipient)
    (o : Option (List Recipient))
    → (r.msg_id == p.msg_id) ≡ false
    → Waits nm r
    → Handed nm p rs o
    → Handed nm p (r ∷ rs) (behind r o)
behind-Handed nm p r rs (some qs) n w h = (w, h)
behind-Handed nm p r rs none n w h = (still r.msg w, h)
  where
    still :
        (m : Option Packet)
        → RecipientOk nm r.msg_id m r.event
        → RecipientOk (nm ++ p ∷ []) r.msg_id m r.event
    still none a = Absent-append r.msg_id nm p n a
    still (some q) a = a

hand_over-Handed :
    (nm : List Packet) (p : Packet) (rs : List Recipient)
    → All (Waits nm) rs
    → Handed nm p rs (hand_over rs p)
hand_over-Handed nm p [] w = tt
hand_over-Handed nm p (r ∷ rs) w = elim (Bool-cases (r.msg_id == p.msg_id)) [
  | inl e ↦
      subst (Handed nm p (r ∷ rs)) (sym (if_true (r.msg_id == p.msg_id) _ _ e))
        ((sym ((==_iff _ _).0 e), omega arith), w.1)
  | inr e ↦
      subst (Handed nm p (r ∷ rs)) (sym (if_false (r.msg_id == p.msg_id) _ _ e))
        (behind-Handed nm p r rs (hand_over rs p) e w.0 (hand_over-Handed nm p rs w.1))
]

-- A mailbox in the hands of the mailman who looks for this id.
pub record InHand (id : ℕ) (b : Mailbox) : Type 0 where
  pub own_absent : Absent id b.new_mail
  pub is_taken : b.queue_lock ≡ true
  pub all_wait : All (Waits b.new_mail) b.recipients

pub deliver-InHand :
    (id : ℕ) (b : Mailbox) (p : Packet)
    → (id == p.msg_id) ≡ false
    → InHand id b
    → InHand id (deliver b p)
deliver-InHand id b p n h =
    by_owner (hand_over b.recipients p) (hand_over-Handed b.new_mail p b.recipients h.all_wait)
  where
    by_owner :
        (o : Option (List Recipient))
        → Handed b.new_mail p b.recipients o
        → InHand id (keep_or_hand b p o)
    by_owner none w = record {
      own_absent = Absent-append id b.new_mail p n h.own_absent;
      is_taken = h.is_taken;
      all_wait = w;
    }
    by_owner (some rs) w = record { own_absent = h.own_absent; is_taken = h.is_taken; all_wait = w }

signal_or-Waits :
    (nm : List Packet) (m : Option Packet) (r : Recipient) (rs rest : List Recipient)
    → r.msg ≡ m
    → Waits nm r
    → All (Waits nm) rs
    → All (Waits nm) rest
    → All (Waits nm) (signal_or m r rs rest)
signal_or-Waits nm (some p) r rs rest e w a b = (w, b)
signal_or-Waits nm none r rs rest e w a b = (
  subst (λ m. RecipientOk nm r.msg_id m (suc r.event)) (sym e)
      (subst (λ m. RecipientOk nm r.msg_id m r.event) e w),
  a,
)

new_mailman-Waits :
    (nm : List Packet) (rs : List Recipient) → All (Waits nm) rs → All (Waits nm) (new_mailman rs)
new_mailman-Waits nm [] w = tt
new_mailman-Waits nm (r ∷ rs) w =
    signal_or-Waits nm r.msg r rs (new_mailman rs) refl w.0 w.1 (new_mailman-Waits nm rs w.1)

-- Either nobody waits, or somebody is signalled.
abbrev pub Signals : List Recipient → Type 0
Signals rs = (total is_waiting rs ≡ 0) ⊎ (0 < total is_signalled rs)

signal_or-Signals :
    (m : Option Packet) (r : Recipient) (rs rest : List Recipient)
    → r.msg ≡ m
    → Signals rest
    → Signals (signal_or m r rs rest)
signal_or-Signals (some p) r rs rest e (inl z) =
    let none_here : is_waiting r ≡ 0 = ap without e in inl (omega (arith, none_here, z))
signal_or-Signals (some p) r rs rest e (inr z) = inr (omega (arith, z))
signal_or-Signals none r rs rest e s =
    let here : is_signalled (record r { event = suc r.event }) ≡ 1 =
      ap (signalled (suc r.event)) e ∙ if_false (suc r.event == 0) _ _ (ground arith) in
    inr (omega (arith, here))

pub new_mailman-Signals : (rs : List Recipient) → Signals (new_mailman rs)
new_mailman-Signals [] = inl refl
new_mailman-Signals (r ∷ rs) =
    signal_or-Signals r.msg r rs (new_mailman rs) refl (new_mailman-Signals rs)

-- What a mailman's turn ends with: its phase and the mailbox.
pub record Ends (r : Phase × Mailbox) : Type 0 where
  pub phase_ok : PhaseOk r.1.new_mail r.0
  pub waits_ok : All (Waits r.1.new_mail) r.1.recipients
  pub keeps_lock : is_mailman r.0 ≡ of_lock r.1.queue_lock
  pub attends : Attended 0 r.1

resign-Ends :
    (id : ℕ) (p : Packet) (q : List Packet) (b : Mailbox)
    → id ≡ p.msg_id
    → InHand id b
    → Ends (resign id p q b)
resign-Ends id p q b e h = record {
  phase_ok = sym e;
  waits_ok = new_mailman-Waits b.new_mail b.recipients h.all_wait;
  keeps_lock = refl;
  attends = leaves (new_mailman-Signals b.recipients);
}
  where
    leaves : Signals (new_mailman b.recipients) → Attended 0 (resign id p q b).1
    leaves (inl z) = inl z
    leaves (inr z) = inr (omega (arith, z))

pub sort-Ends : (id : ℕ) (q : List Packet) (b : Mailbox) → InHand id b → Ends (sort id q b)
sort-Ends id [] b h =
    let one : of_lock b.queue_lock ≡ 1 = ap of_lock h.is_taken in
    record {
      phase_ok = h.own_absent;
      waits_ok = h.all_wait;
      keeps_lock = sym one;
      attends = inr (omega (arith, one));
    }
sort-Ends id (p ∷ q) b h = elim (Bool-cases (id == p.msg_id)) [
  | inl e ↦
      subst Ends (sym (if_true (id == p.msg_id) _ _ e)) (resign-Ends id p q b ((==_iff _ _).0 e) h)
  | inr e ↦
      subst Ends (sym (if_false (id == p.msg_id) _ _ e))
        (sort-Ends id q (deliver b p) (deliver-InHand id b p e h))
]

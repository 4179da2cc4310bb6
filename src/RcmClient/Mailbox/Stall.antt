-- ===== src/RcmClient/Mailbox/Stall.antt =====
-- The states of a client of RcmClient.c in which no thread can move.
use benchmarks_m3_dsp_unopti.Base.{
  ℕ, suc, ◌<◌, ◌≡◌, refl, sym, ap, ◌∙◌, inl, inr, Option, none, some, List, [], ◌∷◌, ◌++◌, All,
  arith, ◌==◌, Bool-cases, if_true, if_false, none-some, ==_iff, subst,
}
use benchmarks_m3_dsp_unopti.RcmServer.Jobs.{Packet}
use benchmarks_m3_dsp_unopti.RcmClient.Mailbox.{
  Recipient, Mailbox, Phase, starts, mails, carries, has, lost, System, kept, take_at, get_blocking,
  turn, turn_of, run, wake_of, wake, Reached,
}
use benchmarks_m3_dsp_unopti.RcmClient.Mailbox.Totals.{total}
use benchmarks_m3_dsp_unopti.RcmClient.Mailbox.Sound.{
  Absent, RecipientOk, Waits, PhaseOk, is_mailman, is_waiting, is_signalled, is_candidate, Attended,
  Sound, without, signalled,
}
use benchmarks_m3_dsp_unopti.RcmClient.Mailbox.Sound.Steps.{Reached-Sound}

-- No thread can make a step of its own.
pub record Stuck (s : System) : Type 0 where
  pub no_run : (i : ℕ) → run s i ≡ none
  pub no_wake : (j : ℕ) → wake s j ≡ none

-- No message with this id is in the queue or among the new mail.
abbrev pub NotHere : Mailbox → ℕ → Type 0
NotHere b id = Absent id (b.msg_que ++ b.new_mail)

-- A thread that has returned, or the mailman without a message.
pub data Settled (b : Mailbox) : Phase → Type 0 where
  returned : (id : ℕ) (p : Packet) → p.msg_id ≡ id → Settled b (has id p)
  gave_up : (id : ℕ) → Settled b (lost id)
  awaits : (id : ℕ) → NotHere b id → Settled b (mails id)

All-of_take_at {ℓ κ} :
    {A : Type ℓ} (P : A → Type κ) (xs : List A)
    → ((i : ℕ) (a : A) (l : List A) → take_at xs i ≡ some (a, l) → P a)
    → All P xs
All-of_take_at P [] h = tt
All-of_take_at P (x ∷ xs) h =
    (h 0 x xs refl, All-of_take_at P xs (λ i a l e. h (suc i) a (x ∷ l) (ap (kept x) e)))

-- What is known of a thread that cannot move.
abbrev Stopped : Mailbox → Phase → Type 0
Stopped b (starts id) = ⊥
Stopped b (mails id) = b.msg_que ≡ []
Stopped b (carries id p) = ⊥
Stopped b (has id p) = Unit
Stopped b (lost id) = Unit

some-none {ℓ} : {A : Type ℓ} (a : A) → some a ≡ none → ⊥
some-none a e = none-some a (sym e)

blocked :
    (b : Mailbox) (id : ℕ) (ts : List Phase) (q : List Packet)
    → get_blocking b id ts q ≡ none
    → q ≡ []
blocked b id ts [] e = refl
blocked b id ts (p ∷ q) e = absurd (some-none _ e)

turn-Stopped : (b : Mailbox) (t : Phase) (ts : List Phase) → turn b t ts ≡ none → Stopped b t
turn-Stopped b (starts id) ts e = some-none _ e
turn-Stopped b (mails id) ts e = blocked b id ts b.msg_que e
turn-Stopped b (carries id p) ts e = some-none _ e
turn-Stopped b (has id p) ts e = tt
turn-Stopped b (lost id) ts e = tt

all-Stopped : (s : System) → ((i : ℕ) → run s i ≡ none) → All (Stopped s.box) s.threads
unfolding run
all-Stopped s h =
    All-of_take_at _ s.threads
      λ i t ts e. turn-Stopped s.box t ts (sym (ap (turn_of s.box) e) ∙ h i)

-- A recipient that cannot go on has not been signalled.
not_woken :
    (s : System) (r : Recipient) (rs : List Recipient)
    → wake_of s (some (r, rs)) ≡ none
    → r.event ≡ 0
not_woken s r rs e = elim (Bool-cases (r.event == 0)) [
  | inl v ↦ (==_iff _ _).0 v
  | inr v ↦ absurd (some-none _ (sym (if_false (r.event == 0) _ _ v) ∙ e))
]

-- Such a recipient has no message.
record Left (nm : List Packet) (r : Recipient) : Type 0 where
  no_mail : Absent r.msg_id nm
  waits : is_waiting r ≡ 1
  silent : is_signalled r ≡ 0

event-Left : (nm : List Packet) (r : Recipient) → Waits nm r → r.event ≡ 0 → Left nm r
event-Left nm r w z = by_msg r.msg refl w
  where
    by_msg : (m : Option Packet) → r.msg ≡ m → RecipientOk nm r.msg_id m r.event → Left nm r
    by_msg (some p) e k = absurd (omega (arith, k.1, z))
    by_msg none e a = record {
      no_mail = a;
      waits = ap without e;
      silent = ap (signalled r.event) e ∙ if_true (r.event == 0) _ _ ((==_iff _ _).1 z);
    }

all-Left :
    (nm : List Packet) (rs : List Recipient)
    → All (Waits nm) rs
    → All (λ r. r.event ≡ 0) rs
    → All (Left nm) rs
all-Left nm [] w z = tt
all-Left nm (r ∷ rs) w z = (event-Left nm r w.0 z.0, all-Left nm rs w.1 z.1)

none_signalled :
    (nm : List Packet) (rs : List Recipient) → All (Left nm) rs → total is_signalled rs ≡ 0
none_signalled nm [] h = refl
none_signalled nm (r ∷ rs) h = omega (arith, h.0.silent, none_signalled nm rs h.1)

no_candidate :
    (b : Mailbox) (ts : List Phase) → All (Stopped b) ts → total (is_candidate b.new_mail) ts ≡ 0
no_candidate b [] h = refl
no_candidate b (starts id ∷ ts) h = absurd h.0
no_candidate b (mails id ∷ ts) h = omega (arith, no_candidate b ts h.1)
no_candidate b (carries id p ∷ ts) h = absurd h.0
no_candidate b (has id p ∷ ts) h = omega (arith, no_candidate b ts h.1)
no_candidate b (lost id ∷ ts) h = omega (arith, no_candidate b ts h.1)

-- A mailman that cannot move waits for the queue.
empty_queue :
    (b : Mailbox) (ts : List Phase) → All (Stopped b) ts → 0 < total is_mailman ts → b.msg_que ≡ []
empty_queue b [] h l = absurd (omega (arith, l))
empty_queue b (starts id ∷ ts) h l = absurd h.0
empty_queue b (mails id ∷ ts) h l = h.0
empty_queue b (carries id p ∷ ts) h l = absurd h.0
empty_queue b (has id p ∷ ts) h l = empty_queue b ts h.1 (omega (arith, l))
empty_queue b (lost id ∷ ts) h l = empty_queue b ts h.1 (omega (arith, l))

not_here : (b : Mailbox) (id : ℕ) → b.msg_que ≡ [] → Absent id b.new_mail → NotHere b id
not_here b id e a = subst (λ q. Absent id (q ++ b.new_mail)) (sym e) a

settled :
    (b : Mailbox) (ts : List Phase)
    → All (PhaseOk b.new_mail) ts
    → All (Stopped b) ts
    → All (Settled b) ts
settled b [] ok h = tt
settled b (starts id ∷ ts) ok h = absurd h.0
settled b (mails id ∷ ts) ok h = (awaits id (not_here b id h.0 ok.0), settled b ts ok.1 h.1)
settled b (carries id p ∷ ts) ok h = absurd h.0
settled b (has id p ∷ ts) ok h = (returned id p ok.0, settled b ts ok.1 h.1)
settled b (lost id ∷ ts) ok h = (gave_up id, settled b ts ok.1 h.1)

nobody :
    (b : Mailbox) (rs : List Recipient)
    → All (Left b.new_mail) rs
    → total is_waiting rs ≡ 0
    → All (λ r. NotHere b r.msg_id) rs
nobody b [] h z = tt
nobody b (r ∷ rs) h z = absurd (let one = h.0.waits in omega (arith, one, z))

none_here :
    (b : Mailbox) (rs : List Recipient)
    → b.msg_que ≡ []
    → All (Left b.new_mail) rs
    → All (λ r. NotHere b r.msg_id) rs
none_here b [] e h = tt
none_here b (r ∷ rs) e h = (not_here b r.msg_id e h.0.no_mail, none_here b rs e h.1)

left_alone :
    (s : System)
    → Sound s
    → All (Stopped s.box) s.threads
    → All (Left s.box.new_mail) s.box.recipients
    → All (λ r. NotHere s.box r.msg_id) s.box.recipients
left_alone s ok st le = by_case ok.attended
  where
    by_case :
        Attended (total (is_candidate s.box.new_mail) s.threads) s.box
        → All (λ r. NotHere s.box r.msg_id) s.box.recipients
    by_case (inl z) = nobody s.box s.box.recipients le z
    by_case (inr l) =
        let silent = none_signalled s.box.new_mail s.box.recipients le in
        let none_comes = no_candidate s.box s.threads st in
        let one = ok.one_mailman in
        none_here s.box s.box.recipients
          (empty_queue s.box s.threads st (omega (arith, silent, none_comes, one, l))) le

all-silent : (s : System) → ((j : ℕ) → wake s j ≡ none) → All (λ r. r.event ≡ 0) s.box.recipients
unfolding wake
all-silent s h =
    All-of_take_at _ s.box.recipients λ j r rs e. not_woken s r rs (sym (ap (wake_of s) e) ∙ h j)

-- The delivery of replies does not stall: in a state that is reached in which no thread can make a step
-- of its own, each thread has returned, with its own message or an error, or its message is neither in
-- the queue nor among the new mail.
pub Stuck-Settled :
    (s : System)
    → Reached s
    → Stuck s
    → All (Settled s.box) s.threads × All (λ r. NotHere s.box r.msg_id) s.box.recipients
Stuck-Settled s r k =
    let ok = Reached-Sound s r in
    let st = all-Stopped s k.no_run in
    (
      settled s.box s.threads ok.threads_ok st,
      left_alone s ok st
          (all-Left s.box.new_mail s.box.recipients ok.recipients_ok (all-silent s k.no_wake)),
    )

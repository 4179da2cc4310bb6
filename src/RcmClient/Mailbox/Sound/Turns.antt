-- ===== src/RcmClient/Mailbox/Sound/Turns.antt =====
-- The mailbox after a turn of a thread of RcmClient_getReturnMsg_P.
use benchmarks_m3_dsp_unopti.Base.{
  ℕ, ◌+◌, ◌≤◌, ◌≡◌, refl, sym, ap, ◌∙◌, inl, inr, Option, none, some, List, [], ◌∷◌, ◌++◌, All,
  All-mono, Bool, true, false, arith, ◌==◌, Bool-cases, if_true, if_false, ==_iff, subst,
}
use benchmarks_m3_dsp_unopti.RcmServer.Jobs.{Packet}
use benchmarks_m3_dsp_unopti.RcmClient.Mailbox.{
  Recipient, Mailbox, Phase, starts, mails, carries, has, lost, System, take_mail, take_at, sort,
  recipient, as_thread, without_mail, look_up, get_blocking, turn,
}
use benchmarks_m3_dsp_unopti.RcmClient.Mailbox.Totals.{
  total, total_mono, All-append, is_for, Found, take_mail-Found, total-take_at, All-take_at,
}
use benchmarks_m3_dsp_unopti.RcmClient.Mailbox.Sound.{
  Absent, RecipientOk, Waits, PhaseOk, is_mailman, of_lock, is_candidate, Attended, Sound, InHand,
  Ends, sort-Ends,
}

-- A mailbox is sound for a thread and the others: what a turn starts from.
pub record Before (b : Mailbox) (t : Phase) (ts : List Phase) : Type 0 where
  pub recipients_ok : All (Waits b.new_mail) b.recipients
  pub phase_ok : PhaseOk b.new_mail t
  pub others_ok : All (PhaseOk b.new_mail) ts
  pub one_mailman : is_mailman t + total is_mailman ts ≡ of_lock b.queue_lock
  pub attended : Attended (is_candidate b.new_mail t + total (is_candidate b.new_mail) ts) b

-- The threads that are not the mailman do not depend on the new mail.
not_mailman : (nm nn : List Packet) (t : Phase) → is_mailman t ≡ 0 → PhaseOk nm t → PhaseOk nn t
not_mailman nm nn (starts id) e h = tt
not_mailman nm nn (mails id) e h = absurd (omega (arith, e))
not_mailman nm nn (carries id p) e h = absurd (omega (arith, e))
not_mailman nm nn (has id p) e h = h
not_mailman nm nn (lost id) e h = tt

no_mailman :
    (nm nn : List Packet) (ts : List Phase)
    → total is_mailman ts ≡ 0
    → All (PhaseOk nm) ts
    → All (PhaseOk nn) ts
no_mailman nm nn [] e h = tt
no_mailman nm nn (t ∷ ts) e h =
    (not_mailman nm nn t (omega (arith, e)) h.0, no_mailman nm nn ts (omega (arith, e)) h.1)

-- The mailman's turn.
sorted :
    (id : ℕ) (q : List Packet) (b : Mailbox) (ts : List Phase) (nm : List Packet)
    → InHand id b
    → total is_mailman ts ≡ 0
    → All (PhaseOk nm) ts
    → Sound (as_thread (sort id q b) ts)
sorted id q b ts nm h none_else ok = with_end (sort id q b) (sort-Ends id q b h)
  where
    with_end : (r : Phase × Mailbox) → Ends r → Sound (as_thread r ts)
    with_end (t, c) e = record {
      recipients_ok = e.waits_ok;
      threads_ok = (e.phase_ok, no_mailman nm c.new_mail ts none_else ok);
      one_mailman = omega (arith, none_else, e.keeps_lock);
      attended = more e.attends;
    }
      where
        more : Attended 0 c → Attended (total (is_candidate c.new_mail) (t ∷ ts)) c
        more (inl z) = inl z
        more (inr z) = inr (omega (arith, z))

-- Mail that is taken out of the new mail.
module _ (nm rest : List Packet) (p : Packet)
    (parts : (f : Packet → ℕ) → total f nm ≡ f p + total f rest) where
  fewer : (id : ℕ) → Absent id nm → Absent id rest
  fewer id a = omega (arith, parts (is_for id), a)

  fewer-Waits : (r : Recipient) → Waits nm r → Waits rest r
  fewer-Waits r w = by_msg r.msg w
    where
      by_msg :
          (m : Option Packet)
          → RecipientOk nm r.msg_id m r.event
          → RecipientOk rest r.msg_id m r.event
      by_msg none a = fewer r.msg_id a
      by_msg (some q) a = a

  fewer-PhaseOk : (t : Phase) → PhaseOk nm t → PhaseOk rest t
  fewer-PhaseOk (starts id) h = tt
  fewer-PhaseOk (mails id) h = fewer id h
  fewer-PhaseOk (carries id q) h = fewer id h
  fewer-PhaseOk (has id q) h = h
  fewer-PhaseOk (lost id) h = tt

  fewer-candidates : (t : Phase) → is_candidate nm t ≤ is_candidate rest t
  fewer-candidates (starts id) = let q = parts (is_for id) in ground (arith, q)
  fewer-candidates (mails id) = omega arith
  fewer-candidates (carries id q) = omega arith
  fewer-candidates (has id q) = omega arith
  fewer-candidates (lost id) = omega arith

pub more_candidates : (b : Mailbox) (n m : ℕ) → n ≤ m → Attended n b → Attended m b
more_candidates b n m h (inl z) = inl z
more_candidates b n m h (inr z) = inr (omega (arith, h, z))

picked_up :
    (b : Mailbox) (id : ℕ) (ts : List Phase) (p : Packet) (rest : List Packet)
    → Before b (starts id) ts
    → Found id b.new_mail (some (p, rest))
    → Sound (look_up b id ts (some (p, rest)))
picked_up b id ts p rest h f =
    let nm = b.new_mail in
    let gone : is_candidate nm (starts id) ≡ 0 = if_false (total (is_for id) nm == 0) _ _ present in
    record {
      recipients_ok = All-mono _ _ (fewer-Waits nm rest p f.1) b.recipients h.recipients_ok;
      threads_ok = (f.0, All-mono _ _ (fewer-PhaseOk nm rest p f.1) ts h.others_ok);
      one_mailman = h.one_mailman;
      attended =
          more_candidates b _ (0 + total (is_candidate rest) ts)
            (omega (arith, gone, total_mono _ _ ts (fewer-candidates nm rest p f.1))) h.attended;
    }
  where
    own : is_for id p ≡ 1
    own = if_true (id == p.msg_id) _ _ ((==_iff _ _).1 (sym f.0))

    present : (total (is_for id) b.new_mail == 0) ≡ false
    present = let q = f.1 (is_for id) in ground (arith, q, own)

joined :
    (b : Mailbox) (id : ℕ) (ts : List Phase)
    → b.queue_lock ≡ true
    → Before b (starts id) ts
    → Absent id b.new_mail
    → Sound
        (record { box = record b { recipients = b.recipients ++ recipient id ∷ [] }; threads = ts })
joined b id ts held h a =
    let one : of_lock b.queue_lock ≡ 1 = ap of_lock held in
    record {
      recipients_ok = All-append _ b.recipients (recipient id ∷ []) h.recipients_ok (a, tt);
      threads_ok = h.others_ok;
      one_mailman = let q = h.one_mailman in omega (arith, q);
      attended = inr (omega (arith, one));
    }

searched :
    (b : Mailbox) (id : ℕ) (ts : List Phase)
    → Before b (starts id) ts
    → Absent id b.new_mail
    → Sound (without_mail b id ts)
searched b id ts h a = elim (Bool-cases b.queue_lock) [
  | inl e ↦ subst Sound (sym (if_true b.queue_lock _ _ e)) (joined b id ts e h a)
  | inr e ↦ subst Sound (sym (if_false b.queue_lock _ _ e)) (
      sorted id b.msg_que (record b { queue_lock = true }) ts b.new_mail
        (record { own_absent = a; is_taken = refl; all_wait = h.recipients_ok })
        (let free : of_lock b.queue_lock ≡ 0 = ap of_lock e in omega (arith, h.one_mailman, free))
        h.others_ok)
]

looked_up :
    (b : Mailbox) (id : ℕ) (ts : List Phase) (o : Option (Packet × List Packet))
    → Before b (starts id) ts
    → Found id b.new_mail o
    → Sound (look_up b id ts o)
looked_up b id ts none h f = searched b id ts h f
looked_up b id ts (some (p, rest)) h f = picked_up b id ts p rest h f

abbrev pub SoundIf : Option System → Type 0
SoundIf none = Unit
SoundIf (some t) = Sound t

received :
    (b : Mailbox) (id : ℕ) (ts : List Phase) (q : List Packet)
    → Before b (mails id) ts
    → SoundIf (get_blocking b id ts q)
received b id ts [] h = tt
received b id ts (p ∷ q) h = record {
  recipients_ok = h.recipients_ok;
  threads_ok = (h.phase_ok, h.others_ok);
  one_mailman = h.one_mailman;
  attended = h.attended;
}

pub only_mailman :
    (b : Mailbox) (n : ℕ) → 1 + n ≡ of_lock b.queue_lock → (n ≡ 0) × (b.queue_lock ≡ true)
only_mailman b n e = by_lock b.queue_lock e
  where
    by_lock : (l : Bool) → 1 + n ≡ of_lock l → (n ≡ 0) × (l ≡ true)
    by_lock true q = (omega (arith, q), refl)
    by_lock false q = absurd (omega (arith, q))

pub turn-Sound : (b : Mailbox) (t : Phase) (ts : List Phase) → Before b t ts → SoundIf (turn b t ts)
turn-Sound b (starts id) ts h =
    looked_up b id ts (take_mail b.new_mail id) h (take_mail-Found b.new_mail id)
turn-Sound b (mails id) ts h = received b id ts b.msg_que h
turn-Sound b (carries id p) ts h =
    let alone = only_mailman b (total is_mailman ts) h.one_mailman in
    sorted id (p ∷ b.msg_que) b ts b.new_mail
      (record { own_absent = h.phase_ok; is_taken = alone.1; all_wait = h.recipients_ok }) alone.0
      h.others_ok
turn-Sound b (has id p) ts h = tt
turn-Sound b (lost id) ts h = tt

pub before :
    (s : System) (i : ℕ) (t : Phase) (ts : List Phase)
    → Sound s
    → take_at s.threads i ≡ some (t, ts)
    → Before s.box t ts
before s i t ts h e =
    let nm = s.box.new_mail in
    let ok = All-take_at (PhaseOk nm) s.threads i t ts h.threads_ok e in
    record {
      recipients_ok = h.recipients_ok;
      phase_ok = ok.0;
      others_ok = ok.1;
      one_mailman = sym (total-take_at is_mailman s.threads i t ts e) ∙ h.one_mailman;
      attended =
          subst (λ n. Attended n s.box) (total-take_at (is_candidate nm) s.threads i t ts e)
            h.attended;
    }

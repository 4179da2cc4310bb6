-- ===== src/RcmClient/Mailbox.antt =====
-- `RcmClient_getReturnMsg_P`, by which several threads get their replies from one queue. A step is what
-- a thread does between two of its waits: the part under `mbxLock`, or a blocking `MessageQ_get`. That
-- function is taken to fail only when it blocks.
pub mod Totals
pub mod Sound
pub mod Stall
pub mod Weights
pub mod Energy
pub mod Rest
pub mod Orphans
use benchmarks_m3_dsp_unopti.Base.{
  ℕ, zero, suc, ◌==◌, if◌then◌else◌, Option, none, some, List, [], ◌∷◌, ◌++◌, Bool, true, false,
  ◌≡◌,
}
use benchmarks_m3_dsp_unopti.RcmServer.Jobs.{Packet}

-- `Recipient`: a thread that waits, and what its event counts.
pub record Recipient : Type 0 where
  pub msg_id : ℕ
  pub msg : Option Packet
  pub event : ℕ

-- The part of `RcmClient_Object` that the function uses; `queue_lock` tells whether it is taken.
pub record Mailbox : Type 0 where
  pub msg_que : List Packet
  pub queue_lock : Bool
  pub recipients : List Recipient
  pub new_mail : List Packet

-- Where a thread that does not wait as a recipient stands, with the id of its message: about to take
-- `mbxLock`, in the blocking `MessageQ_get`, behind it with a message, returned with its message, or
-- returned with RcmClient_E_LOSTMSG.
pub data Phase : Type 0 where
  starts mails : ℕ → Phase
  carries has : ℕ → Packet → Phase
  lost : ℕ → Phase

-- A client with its threads, the one that ran last in front.
pub record System : Type 0 where
  pub box : Mailbox
  pub threads : List Phase

abbrev pub kept {ℓ} : {A : Type ℓ} → A → Option (A × List A) → Option (A × List A)
kept a none = none
kept a (some (b, bs)) = some (b, a ∷ bs)

-- `List_remove` of the element at a place.
abbrev pub take_at {ℓ} : {A : Type ℓ} → List A → ℕ → Option (A × List A)
take_at [] i = none
take_at (a ∷ l) zero = some (a, l)
take_at (a ∷ l) (suc i) = kept a (take_at l i)

-- The search of `newMail`: the first message with the id, which is removed.
abbrev pub take_mail : List Packet → ℕ → Option (Packet × List Packet)
take_mail [] id = none
take_mail (p ∷ ps) id =
    let rest = take_mail ps id in if id == p.msg_id then some (p, ps) else kept p rest

abbrev pub behind : Recipient → Option (List Recipient) → Option (List Recipient)
behind r none = none
behind r (some rs) = some (r ∷ rs)

-- The search for a message's owner, who gets it and is signalled.
abbrev pub hand_over : List Recipient → Packet → Option (List Recipient)
hand_over [] p = none
hand_over (r ∷ rs) p =
    let rest = hand_over rs p in
    if r.msg_id == p.msg_id
    then some (record r { msg = some p; event = suc r.event } ∷ rs)
    else behind r rest

abbrev pub keep_or_hand : Mailbox → Packet → Option (List Recipient) → Mailbox
keep_or_hand b p none = record b { new_mail = b.new_mail ++ p ∷ [] }
keep_or_hand b p (some rs) = record b { recipients = rs }

-- A message that is not the mailman's own.
abbrev pub deliver : Mailbox → Packet → Mailbox
deliver b p = keep_or_hand b p (hand_over b.recipients p)

abbrev pub signal_or : Option Packet → Recipient → List Recipient → List Recipient → List Recipient
signal_or none r rs rest = record r { event = suc r.event } ∷ rs
signal_or (some p) r rs rest = r ∷ rest

-- The search for a new mailman: the first recipient without a message is signalled.
abbrev pub new_mailman : List Recipient → List Recipient
new_mailman [] = []
new_mailman (r ∷ rs) = signal_or r.msg r rs (new_mailman rs)

-- The mailman's own message is found.
abbrev pub resign : ℕ → Packet → List Packet → Mailbox → Phase × Mailbox
resign id p q b =
    (has id p, record b { msg_que = q; queue_lock = false; recipients = new_mailman b.recipients })

-- The mailman's inner loop over the messages that have come, up to its own.
abbrev pub sort : ℕ → List Packet → Mailbox → Phase × Mailbox
sort id [] b = (mails id, record b { msg_que = [] })
sort id (p ∷ q) b =
    let rest = sort id q (deliver b p) in if id == p.msg_id then resign id p q b else rest

abbrev pub recipient : ℕ → Recipient
recipient id = record { msg_id = id; msg = none; event = 0 }

abbrev pub as_thread : Phase × Mailbox → List Phase → System
as_thread (t, b) ts = record { box = b; threads = t ∷ ts }

-- The outer loop up to a wait, without mail: as a recipient, or as the mailman.
abbrev pub without_mail : Mailbox → ℕ → List Phase → System
without_mail b id ts =
    if b.queue_lock
    then record { box = record b { recipients = b.recipients ++ recipient id ∷ [] }; threads = ts }
    else as_thread (sort id b.msg_que (record b { queue_lock = true })) ts

abbrev pub look_up : Mailbox → ℕ → List Phase → Option (Packet × List Packet) → System
look_up b id ts (some (p, ps)) = record {
  box = record b { new_mail = ps };
  threads = has id p ∷ ts;
}
look_up b id ts none = without_mail b id ts

abbrev pub get_blocking : Mailbox → ℕ → List Phase → List Packet → Option System
get_blocking b id ts [] = none
get_blocking b id ts (p ∷ q) =
    some (record { box = record b { msg_que = q }; threads = carries id p ∷ ts })

-- A step of a thread, with the others; none when it cannot move.
abbrev pub turn : Mailbox → Phase → List Phase → Option System
turn b (starts id) ts = some (look_up b id ts (take_mail b.new_mail id))
turn b (mails id) ts = get_blocking b id ts b.msg_que
turn b (carries id p) ts = some (as_thread (sort id (p ∷ b.msg_que) b) ts)
turn b (has id p) ts = none
turn b (lost id) ts = none

abbrev pub turn_of : Mailbox → Option (Phase × List Phase) → Option System
turn_of b none = none
turn_of b (some (t, ts)) = turn b t ts

-- The thread at a place makes a step.
unfoldable pub run : System → ℕ → Option System
run s i = turn_of s.box (take_at s.threads i)

-- A recipient that has been signalled takes its message, or starts again.
abbrev pub woken : ℕ → Option Packet → Phase
woken id none = starts id
woken id (some p) = has id p

abbrev pub wake_of : System → Option (Recipient × List Recipient) → Option System
wake_of s none = none
wake_of s (some (r, rs)) =
    if r.event == 0
    then none
    else some (record {
      box = record s.box { recipients = rs };
      threads = woken r.msg_id r.msg ∷ s.threads;
    })

-- The recipient at a place comes out of `SemThread_pend`.
unfoldable pub wake : System → ℕ → Option System
wake s j = wake_of s (take_at s.box.recipients j)

abbrev pub arrive : System → Packet → System
arrive s p = record s { box = record s.box { msg_que = s.box.msg_que ++ p ∷ [] } }

abbrev pub call : System → ℕ → System
call s id = record s { threads = starts id ∷ s.threads }

-- A step of the system: a reply comes from the server, a thread calls the function, one makes a step
-- of its own, or a recipient goes on.
pub data Step (s : System) : System → Type 0 where
  arrives : (p : Packet) → Step s (arrive s p)
  enters : (id : ℕ) → Step s (call s id)
  runs : (i : ℕ) (t : System) → run s i ≡ some t → Step s t
  wakes : (j : ℕ) (t : System) → wake s j ≡ some t → Step s t

-- Steps that the client's threads make on their own.
pub data Moves (s : System) : System → Type 0 where
  by_thread : (i : ℕ) (t : System) → run s i ≡ some t → Moves s t
  by_recipient : (j : ℕ) (t : System) → wake s j ≡ some t → Moves s t

-- `RcmClient_Instance_init`: both locks are free and both lists empty.
abbrev pub empty_box : Mailbox
empty_box = record { msg_que = []; queue_lock = false; recipients = []; new_mail = [] }

pub data Reached : System → Type 0 where
  at_first : Reached (record { box = empty_box; threads = [] })
  after : (s t : System) → Reached s → Step s t → Reached t

abbrev pub fail_of : System → Option (Phase × List Phase) → Option System
fail_of s none = none
fail_of s (some (mails id, ts)) = some (record s { threads = lost id ∷ ts })
fail_of s (some (starts id, ts)) = none
fail_of s (some (carries id p, ts)) = none
fail_of s (some (has id p, ts)) = none
fail_of s (some (lost id, ts)) = none

-- The blocking `MessageQ_get` of the thread at a place fails: the function returns, and leaves
-- `queueLock` as it is.
unfoldable pub fail : System → ℕ → Option System
fail s i = fail_of s (take_at s.threads i)

-- ===== src/VirtQueue/Isr.antt =====
-- `VirtQueue_isr`: what a core does with a mailbox message, in the build with two M3 cores (SMP and
-- M3_ONLY as given).
use benchmarks_m3_dsp_unopti.Base.{
  ℕ, ◌/◌, ◌^◌, ◌<◌, ◌≤◌, ◌≡◌, List, [], ◌∷◌, ◌++◌, Option, none, some, get_or, Bool, false, ◌&&◌,
  ◌||◌, arith, ◌==◌, ltb, leb, if◌then◌else◌, ◌⊎◌, inl, inr, Bool-cases,
}
use benchmarks_m3_dsp_unopti.VirtQueue.{VirtQueue}
use benchmarks_m3_dsp_unopti.VirtQueue.Create.{
  Procs, Registry, num_queues, id_appm3_to_a9, id_a9_to_appm3,
}

-- What the handler does, in order.
pub data Action : Type 0 where
  sends : ℕ → ℕ → Action
  calls_back : VirtQueue → Action
  flushes_cache suspends crashes : Action
  reports_invalid : ℕ → Action

-- RP_MSG_MBOX_READY and the other predefined messages.
abbrev pub mbox_ready : ℕ
mbox_ready = 0xffffff00

abbrev pub echo_request : ℕ
echo_request = 0xffffff03

abbrev pub echo_reply : ℕ
echo_reply = 0xffffff04

abbrev pub abort_request : ℕ
abort_request = 0xffffff05

abbrev pub flush_cache : ℕ
flush_cache = 0xffffff06

abbrev pub hibernation : ℕ
hibernation = 0xffffff10

abbrev pub hibernation_force : ℕ
hibernation_force = 0xffffff11

abbrev pub hibernation_ack : ℕ
hibernation_ack = 0xffffff12

abbrev pub hibernation_cancel : ℕ
hibernation_cancel = 0xffffff13

-- What the handler asks of other modules: `IpcPower_canHibernate` at this time, and, in a build with
-- M3_ONLY, whether `OffloadM3_processSysM3Tasks` has dealt with the message.
pub record Hooks : Type 0 where
  pub can_hibernate : Bool
  pub offloaded : ℕ → Bool

abbrev pub hibernate : Procs → List Action
hibernate p =
    (if p.self == p.sysm3 then sends p.appm3 hibernation ∷ [] else [])
    ++ (sends p.host hibernation_ack ∷ suspends ∷ [])

-- The switch of SysM3 and the DSP: `none` where it breaks, and the handler goes on.
unfoldable pub predefined : Procs → Hooks → ℕ → Option (List Action)
predefined p k msg =
    if msg == mbox_ready
    then some []
    else if msg == echo_request
    then some (sends p.host echo_reply ∷ [])
    else if msg == abort_request
    then some (crashes ∷ [])
    else if msg == flush_cache
    then some (flushes_cache ∷ [])
    else if msg == hibernation
    then some (if k.can_hibernate then hibernate p else sends p.host hibernation_cancel ∷ [])
    else if msg == hibernation_force
    then some (hibernate p)
    else if k.offloaded msg
    then some []
    else none

-- Another core takes the messages with high bits set: it only suspends on RP_MSG_HIBERNATION.
unfoldable pub high_message : ℕ → Option (List Action)
high_message msg =
    if ltb 0 (msg / 2 ^ 16) then some (if msg == hibernation then suspends ∷ [] else []) else none

unfoldable pub dispatch : Procs → Registry → ℕ → List Action
dispatch p reg msg =
    if p.self == p.sysm3 && (msg == id_a9_to_appm3 || msg == id_appm3_to_a9)
    then sends p.appm3 msg ∷ []
    else if leb num_queues msg
    then reports_invalid msg ∷ []
    else elim (get_or reg msg none) [ none ↦ [] | some vq ↦ calls_back vq ∷ [] ]

unfoldable pub isr : Procs → Registry → Hooks → ℕ → List Action
isr p reg k msg =
    let first =
      if p.self == p.sysm3 || p.self == p.dsp then predefined p k msg else high_message msg in
    elim first [ some acts ↦ acts | none ↦ dispatch p reg msg ]

-- The actions hold no callback.
abbrev pub NoCallback : List Action → Type 0
NoCallback [] = Unit {0}
NoCallback (sends q m ∷ rest) = NoCallback rest
NoCallback (calls_back v ∷ rest) = ⊥
NoCallback (flushes_cache ∷ rest) = NoCallback rest
NoCallback (suspends ∷ rest) = NoCallback rest
NoCallback (crashes ∷ rest) = NoCallback rest
NoCallback (reports_invalid m ∷ rest) = NoCallback rest

-- The queue of a registered index is called back for its number, on every core, and nothing else is
-- done, unless an M3_ONLY build has offloaded the message.
pub isr_calls_back :
    (p : Procs) (reg : Registry) (k : Hooks) (msg : ℕ) (vq : VirtQueue)
    → msg < num_queues
    → k.offloaded msg ≡ false
    → get_or reg msg none ≡ some vq
    → isr p reg k msg ≡ calls_back vq ∷ []
unfolding isr predefined high_message dispatch
isr_calls_back p reg k msg vq lt off e = ground (arith, off, e)

-- On SysM3 and the DSP the host's request to hibernate is refused with one message while a task needs
-- the core, and otherwise, as always when it is forced, the core first passes it on to AppM3, if it is
-- SysM3, then acknowledges it to the host, and suspends last.
pub isr-hibernation :
    (p : Procs) (reg : Registry) (k : Hooks)
    → (p.self ≡ p.sysm3) ⊎ (p.self ≡ p.dsp)
    → (isr p reg k hibernation
        ≡ (if k.can_hibernate then hibernate p else sends p.host hibernation_cancel ∷ []))
      × (isr p reg k hibernation_force ≡ hibernate p)
unfolding isr predefined
isr-hibernation p reg k (inl e) = (ground arith, ground arith)
isr-hibernation p reg k (inr e) = (ground arith, ground arith)

abbrev QuietOption : Option (List Action) → Type 0
QuietOption none = Unit {0}
QuietOption (some acts) = NoCallback acts

hibernate_quiet : (p : Procs) → NoCallback (hibernate p)
hibernate_quiet p = ground arith

predefined_quiet : (p : Procs) (k : Hooks) (msg : ℕ) → QuietOption (predefined p k msg)
unfolding predefined
predefined_quiet p k msg = ground (arith, hibernate_quiet p)

high_message_quiet : (msg : ℕ) → QuietOption (high_message msg)
unfolding high_message
high_message_quiet msg = ground arith

dispatch_quiet :
    (p : Procs) (reg : Registry) (msg : ℕ) → num_queues ≤ msg → NoCallback (dispatch p reg msg)
unfolding dispatch
dispatch_quiet p reg msg h = ground arith

first_quiet :
    (p : Procs) (reg : Registry) (msg : ℕ) (first : Option (List Action))
    → num_queues ≤ msg
    → QuietOption first
    → NoCallback (elim first [ some acts ↦ acts | none ↦ dispatch p reg msg ])
first_quiet p reg msg none h q = dispatch_quiet p reg msg h
first_quiet p reg msg (some acts) h q = q

-- Only numbers below NUM_QUEUES ever lead to a callback: the registry is not read behind its end, and
-- so the numbers 200 and 201 of AppM3's queues reach no queue on any core, AppM3 included.
pub isr_without_callback :
    (p : Procs) (reg : Registry) (k : Hooks) (msg : ℕ)
    → num_queues ≤ msg
    → NoCallback (isr p reg k msg)
unfolding isr
isr_without_callback p reg k msg h = elim (Bool-cases (p.self == p.sysm3 || p.self == p.dsp)) [
  | inl e ↦ rw (e, isr) (first_quiet p reg msg (predefined p k msg) h (predefined_quiet p k msg))
  | inr e ↦ rw (e, isr) (first_quiet p reg msg (high_message msg) h (high_message_quiet msg))
]

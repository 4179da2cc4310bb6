-- ===== src/IpcResource/Channels.antt =====
-- What connecting and disconnecting take from the operating system and give back.
use benchmarks_m3_dsp_unopti.Base.{
  ℕ, zero, suc, ◌≡◌, refl, inl, inr, Option, none, some, List, [], ◌∷◌, Bool, true, false,
  Bool-cases, Option-cases,
}
use benchmarks_m3_dsp_unopti.IpcResource.{
  s_success, Channel, Reply, Action, allocs, frees, sem_creates, sem_deletes, msgq_creates,
  msgq_deletes, registers, unregisters, inits, pends, posts, sends, receives, Resources, accepts,
  connect, disconnect,
}

-- How many objects, semaphores, queues and announced names are in use.
pub record Use : Type 0 where
  pub objects : ℕ
  pub sems : ℕ
  pub queues : ℕ
  pub announced : ℕ

abbrev pub pred : ℕ → ℕ
pred zero = 0
pred (suc n) = n

abbrev pub act : Use → Action → Use
act u allocs = record u { objects = suc u.objects }
act u frees = record u { objects = pred u.objects }
act u (sem_creates s) = record u { sems = suc u.sems }
act u (sem_deletes s) = record u { sems = pred u.sems }
act u (msgq_creates q) = record u { queues = suc u.queues }
act u (msgq_deletes q) = record u { queues = pred u.queues }
act u (registers e) = record u { announced = suc u.announced }
act u (unregisters e) = record u { announced = pred u.announced }
act u inits = u
act u (pends s) = u
act u (posts s) = u
act u (sends r e q n) = u
act u (receives q t) = u

abbrev pub use_after : Use → List Action → Use
use_after u [] = u
use_after u (a ∷ l) = use_after (act u a) l

-- What a connection leaves in use, by its result and by whether there was memory for the object.
abbrev pub connected : Use → Bool → Option Channel → Use
connected u m (some c) = record {
  objects = suc u.objects;
  sems = suc u.sems;
  queues = suc u.queues;
  announced = suc u.announced;
}
connected u true none = record u { sems = suc u.sems }
connected u false none = u

-- `IpcResource_connect` takes an object, a semaphore, a queue and an announced name if it returns a
-- channel. If it returns NULL it has given all of them back except the semaphore, which is lost
-- whenever the object could be allocated.
pub use_after-connect :
    (o : Resources) (r : Reply) (t : ℕ) (u : Use)
    → use_after u (connect o r t).1 ≡ connected u o.has_memory (connect o r t).0
unfolding connect
use_after-connect o r t u = elim (Bool-cases o.has_memory) [
  | inr m ↦ rw (m) refl
  | inl m ↦ rw (m) (elim (Option-cases o.new_queue) [
    | inl q ↦ rw (q) refl
    | inr (p, q) ↦
        rw (q) (elim (Bool-cases (accepts r)) [ inl a ↦ rw (a) refl | inr a ↦ rw (a) refl ])
  ])
]

-- Disconnecting a channel that a connection returned gives back all that the connection took, if
-- MessageQCopy_delete succeeds.
pub use_after-disconnect :
    (o : Resources) (r : Reply) (t : ℕ) (c : Channel) (u : Use)
    → (connect o r t).0 ≡ some c
    → use_after (use_after u (connect o r t).1) (disconnect (some c) s_success).1 ≡ u
unfolding disconnect
use_after-disconnect o r t c u e = rw (use_after-connect o r t u, e) refl

-- ===== src/MessageQCopy.antt =====
-- common/src/ti/ipc/rpmsg/MessageQCopy.c: endpoints with queues of copied messages, on one core. A
-- handle is the index of its endpoint.
pub mod Invariant
pub mod Receive
pub mod Delivery
pub mod Blocks
pub mod Endpoints
pub mod Transport
pub mod Drain
pub mod RemoteSend
mod Tests
use benchmarks_m3_dsp_unopti.Base.{
  ℕ, zero, suc, ◌+◌, ◌-◌, ◌%◌, ◌^◌, ◌≡◌, ltb, leb, ◌==◌, if◌then◌else◌, Option, none, some, List,
  [], ◌∷◌, Bool, true, false, get_elem?, set, replicate,
}
use benchmarks_m3_dsp_unopti.Bios.{Bios}

-- `Queue_elem`: the sender's endpoint and the payload, whose length is `len`.
pub record Elem : Type 0 where
  pub len : ℕ
  pub src : ℕ
  pub payload : List ℕ

-- The first `n` bytes from an address on, as memcpy copies them.
abbrev pub bytes : (ℕ → ℕ) → ℕ → List ℕ
bytes data_at zero = []
bytes data_at (suc n) = data_at 0 ∷ bytes (λ i. data_at (suc i)) n

-- The results; MessageQCopy_S_SUCCESS is 0, the errors are negative.
pub data Status : Type 0 where
  success fail no_memory timed_out no_endpoint unblocked : Status

-- How a call ends: it returns, it ends the program (a failed assertion, System_abort), or it reads
-- `msgqObjects` behind its end.
pub data Outcome {ℓ} (A : Type ℓ) : Type ℓ where
  returns : A → Outcome A
  aborts : Outcome A
  reads_outside : Outcome A

abbrev pub max_objects : ℕ
max_objects = 256

abbrev pub max_reserved_endpoint : ℕ
max_reserved_endpoint = 100

abbrev pub assign_any : ℕ
assign_any = 0xffffffff

-- sizeof(Queue_elem): a list element of two pointers, the length and the source.
abbrev pub elem_size : ℕ
elem_size = 16

-- What `MessageQCopy_recv` hands over: the status and, on success, the message.
pub record Received : Type 0 where
  pub status : Status
  pub message : Option Elem

module _ (b : Bios Elem) where
  open b use {
    Sem, Heap, Fifo, sem_create, sem_post, sem_pend, heap_alloc, heap_free, fifo_create, fifo_put,
    fifo_get,
  }

  -- `MessageQCopy_Object`
  pub record Endpoint : Type 0 where
    pub queue_id : ℕ
    pub sem : Sem
    pub queue : Fifo
    pub is_unblocked : Bool

  -- `MessageQCopy_Module` and `curInit`
  pub record Module : Type 0 where
    pub cur_init : ℕ
    pub objects : List (Option Endpoint)
    pub heap : Heap

  abbrev pub put_object : Module → ℕ → Option Endpoint → Module
  put_object m i o = record m { objects = set m.objects i o }

  -- The part of `MessageQCopy_init` and of `MessageQCopy_finalize` that concerns this state. The heap
  -- is the one that HeapBuf_create has made.
  unfoldable pub init : Module → Heap → Module
  init m h =
      if m.cur_init == 0
      then record { cur_init = 1; objects = replicate max_objects none; heap = h }
      else record m { cur_init = suc m.cur_init }

  -- Whether the module is torn down, and the new state.
  unfoldable pub finalize : Module → Bool × Module
  finalize m =
      if m.cur_init == 0
      then (false, m)
      else (m.cur_init == 1, record m { cur_init = m.cur_init - 1 })

  -- The search of `MessageQCopy_create`: the first free slot among `n` from `i` on.
  unfoldable pub free_from : ℕ → ℕ → List (Option Endpoint) → Option ℕ
  free_from zero i objs = none
  free_from (suc n) i objs = elim (get_elem? objs i) [
    | some o ↦ elim o [ none ↦ some i | some e ↦ free_from n (i + 1) objs ]
    | none ↦ none
  ]

  -- A reserved endpoint is given if its slot is free.
  abbrev pub reserved_slot : Option (Option Endpoint) → ℕ → Option ℕ
  reserved_slot none i = none
  reserved_slot (some none) i = some i
  reserved_slot (some (some e)) i = none

  -- The slot that `MessageQCopy_create` chooses; `queueIndex` is a UInt16.
  unfoldable pub choose_slot : Module → ℕ → Option ℕ
  choose_slot m reserved =
      if reserved == assign_any
      then free_from (max_objects - (max_reserved_endpoint + 1)) (max_reserved_endpoint + 1)
          m.objects
      else if leb (reserved % 2 ^ 16) max_reserved_endpoint
      then reserved_slot (get_elem? m.objects (reserved % 2 ^ 16)) (reserved % 2 ^ 16)
      else none

  abbrev pub new_endpoint : ℕ → Endpoint
  new_endpoint i = record {
    queue_id = i;
    sem = sem_create 0;
    queue = fifo_create;
    is_unblocked = false;
  }

  -- The object for the slot, if there is one and Memory_alloc returns it.
  abbrev pub give_slot : Module → Option ℕ → Bool → Option ℕ × Module
  give_slot m none has_memory = (none, m)
  give_slot m (some i) true = (some i, put_object m i (some (new_endpoint i)))
  give_slot m (some i) false = (none, m)

  -- `MessageQCopy_create`: the endpoint, none for NULL. `has_memory` says whether Memory_alloc
  -- returns an object.
  unfoldable pub create : Module → ℕ → Bool → Outcome (Option ℕ × Module)
  create m reserved has_memory =
      if m.cur_init == 0 then aborts else returns (give_slot m (choose_slot m reserved) has_memory)

  -- The loop of `MessageQCopy_delete`: every queued buffer goes back to the heap. The fuel bounds the
  -- rounds.
  unfoldable pub discard : ℕ → Fifo → Heap → Heap
  discard zero q h = h
  discard (suc n) q h = elim (fifo_get q) [ none ↦ h | some (e, r) ↦ discard n r (heap_free h) ]

  -- `MessageQCopy_delete` of the object that a handle leads to, none for NULL.
  unfoldable pub delete : Module → ℕ → Option Endpoint → Outcome (Status × Module)
  delete m fuel o = if m.cur_init == 0 then aborts else elim o [
    | none ↦ returns (success, m)
    | some e ↦ returns (
      success,
      record m { objects = set m.objects e.queue_id none; heap = discard fuel e.queue m.heap },
    )
  ]

  -- The second half of `MessageQCopy_send`: the message is put on a queue of this core.
  unfoldable pub deliver : Module → ℕ → ℕ → (ℕ → ℕ) → ℕ → Endpoint → Status × Module
  deliver m dst src data_at len e = elim (heap_alloc m.heap (len + elem_size)) [
    | none ↦ (no_memory, m)
    | some h ↦ (
      success,
      record m {
        heap = h;
        objects = set m.objects dst (
            some (record e {
              queue =
                  fifo_put e.queue (record { len = len; src = src; payload = bytes data_at len });
              sem = sem_post e.sem;
            }));
      },
    )
  ]

  unfoldable pub send_local : Module → ℕ → ℕ → (ℕ → ℕ) → ℕ → Outcome (Status × Module)
  send_local m dst src data_at len =
      if m.cur_init == 0 then aborts else elim (get_elem? m.objects dst) [
        | none ↦ reads_outside
        | some o ↦ elim o [
          | none ↦ returns (no_endpoint, m)
          | some e ↦ returns (deliver m dst src data_at len e)
        ]
      ]

  -- The queue's part of `MessageQCopy_recv`, after the semaphore.
  unfoldable pub take_message : Module → ℕ → Endpoint → Outcome (Received × Module)
  take_message m i e = elim (fifo_get e.queue) [
    | none ↦ aborts
    | some (x, r) ↦ returns (
      record { status = success; message = some x },
      record m {
        heap = heap_free m.heap;
        objects = set m.objects i (some (record e { queue = r }));
      },
    )
  ]

  -- `MessageQCopy_recv` on endpoint `i`, whose object is `e`, from where Semaphore_pend returns.
  unfoldable pub recv : Module → ℕ → Endpoint → Outcome (Received × Module)
  recv m i e = if m.cur_init == 0 then aborts else elim (sem_pend e.sem) [
    | none ↦ returns (record { status = timed_out; message = none }, m)
    | some s ↦
        if e.is_unblocked
        then returns (
          record { status = unblocked; message = none },
          put_object m i (some (record e { sem = s })),
        )
        else take_message m i (record e { sem = s })
  ]

  -- `MessageQCopy_unblock`
  unfoldable pub unblock : Module → ℕ → Endpoint → Module
  unblock m i e = put_object m i (some (record e { is_unblocked = true; sem = sem_post e.sem }))

  -- What holds of the state that a call returns with; nothing is said of one that does not return.
  abbrev pub OnReturn {ℓ} : {A : Type ℓ} → (Module → Type 0) → Outcome (A × Module) → Type 0
  OnReturn P (returns (a, n)) = P n
  OnReturn P aborts = Unit
  OnReturn P reads_outside = Unit

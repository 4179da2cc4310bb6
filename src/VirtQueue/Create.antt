-- ===== src/VirtQueue/Create.antt =====
-- `VirtQueue_create` in the build with two M3 cores (SMP not defined), and the registry of queues.
use benchmarks_m3_dsp_unopti.Base.{
  ℕ, zero, suc, ◌+◌, ◌-◌, ◌%◌, ◌^◌, ◌<◌, ◌≡◌, ◌≢◌, refl, ap, List, Option, none, some, set, length,
  get_elem?, arith, ◌==◌, ltb, if◌then◌else◌, get_elem?-set_self, Bool-cases, inl, inr,
}
use benchmarks_m3_dsp_unopti.VirtQueue.{VirtQueue, Vring}
use benchmarks_m3_dsp_unopti.VirtQueue.Layout.{ipc_mem_vring, rp_msg_num_bufs}

-- The processor numbers that `VirtQueue_startup` looks up, and that of this core
-- (`MultiProc_self`).
pub record Procs : Type 0 where
  pub self : ℕ
  pub host : ℕ
  pub dsp : ℕ
  pub sysm3 : ℕ
  pub appm3 : ℕ

-- `queueRegistry`, with NUM_QUEUES entries.
abbrev pub Registry : Type 0
Registry = List (Option VirtQueue)

abbrev pub num_queues : ℕ
num_queues = 4

abbrev pub id_appm3_to_a9 : ℕ
id_appm3_to_a9 = 200

abbrev pub id_a9_to_appm3 : ℕ
id_a9_to_appm3 = 201

-- The address that the switch on the id chooses; for any other id the pointer stays unset.
abbrev pub vring_addr : ℕ → Option ℕ
vring_addr id =
    if id == 0
    then some (ipc_mem_vring 0)
    else if id == 1
    then some (ipc_mem_vring 1)
    else if id == id_appm3_to_a9
    then some (ipc_mem_vring 2)
    else if id == id_a9_to_appm3
    then some (ipc_mem_vring 3)
    else none

-- How a call ends: NULL, with the pointer to the vring unset, with the queue entered in the registry,
-- or with a write behind the end of the registry, at the index that is given.
pub data Creation : Type 0 where
  no_memory : Creation
  unset_vring : Creation
  created : VirtQueue → Registry → Creation
  wild_write : VirtQueue → ℕ → Creation

-- VRING_USED_F_NO_NOTIFY set in the flags.
abbrev pub set_no_notify : Vring → Vring
set_no_notify r = record r {
  used = record (r.used) { flags = r.used.flags + 1 - r.used.flags % 2 };
}

abbrev pub enter_registry : VirtQueue → Registry → Creation
enter_registry q reg =
    if ltb q.id num_queues then created q (set reg q.id (some q)) else wild_write q q.id

-- The id: `vqId`, plus 200 on AppM3.
unfoldable pub queue_id : Procs → ℕ → ℕ
queue_id p vq_id = (if p.self == p.appm3 then vq_id + 200 else vq_id) % 2 ^ 16

-- The object that `vringAddr` leads to, with the fields that `VirtQueue_create` sets. `o` is the
-- memory that `Memory_alloc` returned, `m` what lies in the shared memory at an address.
abbrev pub new_queue : Procs → VirtQueue → Vring → ℕ → ℕ → VirtQueue
new_queue p o r remote id = record o {
  id = id;
  proc_id = remote;
  last_avail_idx = 0;
  vring =
      (let v = record r { num = rp_msg_num_bufs } in
        if remote == p.host then set_no_notify v else v);
}

unfoldable pub create_at : Procs → Registry → VirtQueue → (ℕ → Vring) → ℕ → ℕ → Creation
create_at p reg o m remote id = elim (vring_addr id) [
  | none ↦ unset_vring
  | some a ↦ enter_registry (new_queue p o (m a) remote id) reg
]

unfoldable pub create : Procs → Registry → Option VirtQueue → (ℕ → Vring) → ℕ → ℕ → Creation
unfolding create_at
create p reg none m remote vq_id = no_memory
create p reg (some o) m remote vq_id = create_at p reg o m remote (queue_id p vq_id)

queue_id_self : (p : Procs) (vq_id : ℕ) → p.self ≢ p.appm3 → vq_id < 2 → queue_id p vq_id ≡ vq_id
unfolding queue_id
queue_id_self p vq_id ne lt = ground (arith, ne)

queue_id_appm3 :
    (p : Procs) (vq_id : ℕ) → p.self ≡ p.appm3 → vq_id < 2 → queue_id p vq_id ≡ vq_id + 200
unfolding queue_id
queue_id_appm3 p vq_id e lt = ground (arith, e)

num-new_queue :
    (p : Procs) (o : VirtQueue) (r : Vring) (remote id : ℕ)
    → ((new_queue p o r remote id).vring.num ≡ 256)
      × ((new_queue p o r remote id).vring.avail ≡ r.avail)
num-new_queue p o r remote id = elim (Bool-cases (remote == p.host)) [
  | inl e ↦ rw e (refl, refl)
  | inr e ↦ rw e (refl, refl)
]

-- On the DSP or SysM3 core the queues 0 and 1 are entered in the registry under their numbers, over
-- the vring at their own address with 256 buffers and nothing yet taken. The number of free buffers
-- and the last used index stay what the allocated memory happens to hold.
pub create_registers :
    (p : Procs) (reg : Registry) (o : VirtQueue) (m : ℕ → Vring) (remote vq_id : ℕ)
    → p.self ≢ p.appm3
    → vq_id < 2
    → length reg ≡ num_queues
    → (q : VirtQueue) × (create p reg (some o) m remote vq_id ≡ created q (set reg vq_id (some q)))
      × (get_elem? (set reg vq_id (some q)) vq_id ≡ some (some q))
      × (q.vring.num ≡ 256)
      × (q.vring.avail ≡ (m (ipc_mem_vring vq_id)).avail)
      × (q.last_avail_idx ≡ 0)
      × (q.num_free ≡ o.num_free)
      × (q.last_used_idx ≡ o.last_used_idx)
unfolding create
create_registers p reg o m remote zero ne lt len =
    let n = num-new_queue p o (m (ipc_mem_vring 0)) remote 0 in
    (
      new_queue p o (m (ipc_mem_vring 0)) remote 0,
      ap (create_at p reg o m remote) (queue_id_self p 0 ne lt),
      get_elem?-set_self reg 0 _ (omega (arith, len)),
      n.0,
      n.1,
      refl,
      refl,
      refl,
    )
create_registers p reg o m remote (suc zero) ne lt len =
    let n = num-new_queue p o (m (ipc_mem_vring 1)) remote 1 in
    (
      new_queue p o (m (ipc_mem_vring 1)) remote 1,
      ap (create_at p reg o m remote) (queue_id_self p 1 ne lt),
      get_elem?-set_self reg 1 _ (omega (arith, len)),
      n.0,
      n.1,
      refl,
      refl,
      refl,
    )
create_registers p reg o m remote (suc (suc k)) ne lt len = absurd (omega arith)

-- On AppM3 the queues 0 and 1 get the ids 200 and 201, and the registry, which has four entries, is
-- written at that index.
pub create_on_appm3 :
    (p : Procs) (reg : Registry) (o : VirtQueue) (m : ℕ → Vring) (remote vq_id : ℕ)
    → p.self ≡ p.appm3
    → vq_id < 2
    → (q : VirtQueue) × (create p reg (some o) m remote vq_id ≡ wild_write q (vq_id + 200))
unfolding create
create_on_appm3 p reg o m remote zero e lt = (
  new_queue p o (m (ipc_mem_vring 2)) remote 200,
  ap (create_at p reg o m remote) (queue_id_appm3 p 0 e lt),
)
create_on_appm3 p reg o m remote (suc zero) e lt = (
  new_queue p o (m (ipc_mem_vring 3)) remote 201,
  ap (create_at p reg o m remote) (queue_id_appm3 p 1 e lt),
)
create_on_appm3 p reg o m remote (suc (suc k)) e lt = absurd (omega arith)

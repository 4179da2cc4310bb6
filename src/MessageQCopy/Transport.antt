-- ===== src/MessageQCopy/Transport.antt =====
-- The transport of MessageQCopy.c over the two VirtQueues: the software interrupt that takes the
-- host's messages, and the remote half of `MessageQCopy_send`.
use benchmarks_m3_dsp_unopti.Base.{
  ℕ, zero, suc, ℤ, pos, negsuc, update, ltb, ◌==◌, if◌then◌else◌, Option, none, some, List, [], ◌∷◌,
  Bool, true, false,
}
use benchmarks_m3_dsp_unopti.Bios.{Bios}
use benchmarks_m3_dsp_unopti.MessageQCopy.{
  Elem, Status, success, Outcome, returns, aborts, reads_outside, Module, send_local,
}
use benchmarks_m3_dsp_unopti.VirtQueue.{
  VirtQueue, Avail, Taken, done, raised, get_avail_buf, add_used_buf, kick, rp_msg_buf_size,
}
use benchmarks_m3_dsp_unopti.VirtQueue.Fifo.{with_avail}

-- `MessageQCopy_MsgHeader` with what follows it.
pub record Msg : Type 0 where
  pub src_addr : ℕ
  pub dst_addr : ℕ
  pub reserved : ℕ
  pub data_len : ℕ
  pub flags : ℕ
  pub payload : ℕ → ℕ

module _ (b : Bios Elem) where
  -- The module, its two queues (`MessageQCopy_Transport`), and the shared buffers by address.
  pub record Link : Type 0 where
    pub state : Module b
    pub from_host : VirtQueue
    pub to_host : VirtQueue
    pub buffers : ℕ → Msg

  -- Behind a local send whose status is dropped: the buffer is given back to the host.
  abbrev pub give_back : Link → VirtQueue → ℤ → Outcome (Status × Module b) → Outcome Link
  give_back l q token aborts = aborts
  give_back l q token reads_outside = reads_outside
  give_back l q token (returns (s, m)) = elim (add_used_buf q token rp_msg_buf_size) [
    | done r ↦ returns (record l { state = m; from_host = r })
    | raised ↦ aborts
  ]

  abbrev pub pass_on : Module b → Msg → Outcome (Status × Module b)
  pass_on m x = send_local b m x.dst_addr x.src_addr x.payload x.data_len

  -- The loop of `MessageQCopy_swiFxn`. The fuel bounds the rounds, and `none` means that it ran out;
  -- the flag is `usedBufAdded`.
  abbrev pub Drained : Type 0
  Drained = Option (Outcome (Bool × Link))

  abbrev pub continue : (Link → Drained) → Outcome Link → Drained
  continue next (returns l) = next l
  continue next aborts = some aborts
  continue next reads_outside = some reads_outside

  abbrev pub round : (Link → Drained) → Link → Bool → Taken × VirtQueue → Drained
  round next l added (x, q) = elim x.token [
    | negsuc k ↦ some (returns (added, record l { from_host = q }))
    | pos h ↦ elim x.buf [
      | none ↦ some (returns (added, record l { from_host = q }))
      | some a ↦ continue next (give_back l q (pos h) (pass_on l.state (l.buffers a.0)))
    ]
  ]

  unfoldable pub swi_loop : ℕ → Link → Bool → Drained
  swi_loop zero l added = none
  swi_loop (suc n) l added = round (λ k. swi_loop n k true) l added (get_avail_buf l.from_host)

  -- `MessageQCopy_swiFxn`: the loop, and the interrupt to the host if it has got a buffer back.
  unfoldable pub swi_fxn : ℕ → Link → Option (Outcome (Option (ℕ × ℕ) × Link))
  swi_fxn fuel l = elim (swi_loop fuel l false) [
    | none ↦ none
    | some r ↦ some (elim r [
      | returns p ↦ returns ((if p.0 then kick p.1.from_host else none), p.1)
      | aborts ↦ aborts
      | reads_outside ↦ reads_outside
    ])
  ]

  -- The remote half of `MessageQCopy_send`. The message as it is written over what the buffer holds:
  abbrev pub write_msg : Msg → ℕ → ℕ → (ℕ → ℕ) → ℕ → Msg
  write_msg old dst src data_at len = record {
    src_addr = src;
    dst_addr = dst;
    reserved = 0;
    data_len = len;
    flags = 0;
    payload = λ i. if ltb i len then data_at i else old.payload i;
  }

  pub record Sent : Type 0 where
    pub status : Status
    pub interrupt : Option (ℕ × ℕ)
    pub link : Link

  abbrev pub hand_over : Link → VirtQueue → ℤ → ℕ → Msg → Outcome Sent
  hand_over l q token addr x = elim (add_used_buf q token rp_msg_buf_size) [
    | raised ↦ aborts
    | done r ↦ returns (record {
      status = success;
      interrupt = kick r;
      link = record l { to_host = r; buffers = update l.buffers addr x };
    })
  ]

  abbrev pub fill : Link → ℕ → ℕ → (ℕ → ℕ) → ℕ → Taken → VirtQueue → ℕ → Outcome Sent
  fill l dst src data_at len x q h = elim x.buf [
    | none ↦ aborts
    | some a ↦ hand_over l q (pos h) a.0 (write_msg (l.buffers a.0) dst src data_at len)
  ]

  -- With a buffer the message is sent; without one the call waits, and tries again.
  abbrev pub try_send :
      (VirtQueue → Option (Outcome Sent))
      → (Taken → VirtQueue → ℕ → Outcome Sent)
      → Taken × VirtQueue
      → Option (Outcome Sent)
  try_send again use_it (x, q) = elim x.token [ negsuc k ↦ again q | pos h ↦ some (use_it x q h) ]

  -- The list holds what the host makes of its ring before it posts the semaphore for each further try;
  -- `none`: the caller still waits.
  unfoldable pub send_remote : List Avail → Link → ℕ → ℕ → (ℕ → ℕ) → ℕ → Option (Outcome Sent)
  send_remote [] l dst src data_at len =
      try_send (λ q. none) (fill l dst src data_at len) (get_avail_buf l.to_host)
  send_remote (a ∷ events) l dst src data_at len =
      try_send (λ q. send_remote events (record l { to_host = with_avail q a }) dst src data_at len)
        (fill l dst src data_at len) (get_avail_buf l.to_host)

  -- `MessageQCopy_send`, on processor `self`.
  abbrev pub keep_link : Link → Outcome (Status × Module b) → Outcome Sent
  keep_link l aborts = aborts
  keep_link l reads_outside = reads_outside
  keep_link l (returns (s, m)) =
      returns (record { status = s; interrupt = none; link = record l { state = m } })

  unfoldable pub send : ℕ → List Avail → Link → ℕ → ℕ → ℕ → (ℕ → ℕ) → ℕ → Option (Outcome Sent)
  send self events l dst_proc dst src data_at len =
      if l.state.cur_init == 0
      then some aborts
      else if dst_proc == self
      then some (keep_link l (send_local b l.state dst src data_at len))
      else send_remote events l dst src data_at len

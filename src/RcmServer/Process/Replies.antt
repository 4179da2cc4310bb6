-- ===== src/RcmServer/Process/Replies.antt =====
-- What the client is sent for a message.
use benchmarks_m3_dsp_unopti.Base.{
  ℕ, subst, ◌+◌, ◌-◌, ◌/◌, ◌%◌, ◌^◌, ◌<◌, ◌≡◌, ◌≢◌, refl, sym, ap, ◌∙◌, ◌==◌, if◌then◌else◌, Option,
  none, some, List, [], ◌∷◌, ◌++◌, Bool, true, false, ◌⊎◌, inl, inr, ℤ, pos, is_neg, arith,
  Bool-cases, ==_iff,
}
use benchmarks_m3_dsp_unopti.RcmServer.{
  Target, calls, creates, unset, invalid, reads_outside, get_fxn_addr, get_sym_idx,
}
use benchmarks_m3_dsp_unopti.RcmServer.Jobs.{
  Packet, Streams, Error, e_fail, e_no_memory, job_id_not_found, pool_id_not_found, set_status,
  sent_back, raw_msg, acq_job_id, rel_job_id,
}
use benchmarks_m3_dsp_unopti.RcmServer.Process.{
  rcm_msg, dpc, sym_idx, cmd, job_acq, job_rel, type_field, with_status, c_string, Instance,
  Executed, executed, refused, wild_call, Processed, done, wild, run_at, run_target, exec_msg,
  msg_reply, cmd_reply, dpc_reply, sym_reply, acq_reply, rel_reply, rel_status, process,
}

-- A packet that answers another: the client finds its message, and a status.
pub record Answers (p q : Packet) : Type 0 where
  pub same_msg : q.msg_id ≡ p.msg_id
  pub same_job : q.job_id ≡ p.job_id
  pub same_pool : q.pool_id ≡ p.pool_id
  pub same_fxn : q.fxn_idx ≡ p.fxn_idx
  pub is_raw : q.hdr_type ≡ raw_msg
  pub fits : q.hdr_len ≡ 20 + p.data_size

-- An index with which a function is called through a pointer that was not set, or through NULL.
pub data Wild (t : Target) : Type 0 where
  first_slot : t ≡ unset → Wild t
  behind_table : t ≡ reads_outside → Wild t
  no_function : (t ≡ calls 0) ⊎ (t ≡ creates 0) → Wild t

pub set_status_field : (d c : ℕ) → c < 2 ^ 4 → (set_status d c / 2 ^ 8) % 2 ^ 4 ≡ c
set_status_field d c h = omega arith

Answers-sent_back : (p : Packet) (c : ℕ) → Answers p (sent_back (with_status p c))
Answers-sent_back p c = record {
  same_msg = refl;
  same_job = refl;
  same_pool = refl;
  same_fxn = refl;
  is_raw = refl;
  fits = refl;
}

module _ (call : ℕ → ℕ → ℕ × List ℕ → ℤ × (ℕ × List ℕ)) where
  -- How it went, for a reply: the instance and the packets of a released stream that are sent back
  -- before it, the status in its type field, and the first word of its data. The two results of the
  -- stream functions are those for the message. A deferred call has status 2, the one for a symbol that
  -- is not found, whether its index is good or not.
  pub data Coded (i : Instance) (packet_at : ℕ → Packet) (has_memory : Bool) (p : Packet)
      : Instance → List Packet → ℕ → ℕ → Type 0 where
    ran_well :
        (q : Packet)
        → type_field p ≡ rcm_msg
        → exec_msg call i p ≡ executed q
        → is_neg q.result ≡ false
        → Coded i packet_at has_memory p i [] 0 q.word
    ran_badly :
        (q : Packet)
        → (type_field p ≡ rcm_msg) ⊎ (type_field p ≡ cmd)
        → exec_msg call i p ≡ executed q
        → is_neg q.result ≡ true
        → Coded i packet_at has_memory p i [] 4 q.word
    was_refused :
        (type_field p ≡ rcm_msg) ⊎ (type_field p ≡ cmd)
        → exec_msg call i p ≡ refused
        → Coded i packet_at has_memory p i [] 1 p.word
    is_deferred : type_field p ≡ dpc → Coded i packet_at has_memory p i [] 2 p.word
    has_symbol :
        (idx : ℕ)
        → type_field p ≡ sym_idx
        → get_sym_idx i.syms (c_string (p.word ∷ p.words)) ≡ some idx
        → Coded i packet_at has_memory p i [] 0 idx
    no_symbol :
        type_field p ≡ sym_idx
        → get_sym_idx i.syms (c_string (p.word ∷ p.words)) ≡ none
        → Coded i packet_at has_memory p i [] 2 p.word
    has_id :
        (k : ℕ) (s : Streams)
        → type_field p ≡ job_acq
        → acq_job_id i.streams has_memory ≡ (inr k, s)
        → Coded i packet_at has_memory p
            (record i { streams = s })
            []
            0
            (p.word - p.word % 2 ^ 16 + k)
    no_id :
        (e : Error) (s : Streams)
        → type_field p ≡ job_acq
        → acq_job_id i.streams has_memory ≡ (inl e, s)
        → Coded i packet_at has_memory p (record i { streams = s }) [] 5 p.word
    has_released :
        (ps : List Packet) (s : Streams)
        → type_field p ≡ job_rel
        → rel_job_id i.streams packet_at (p.word % 2 ^ 16) ≡ ((none, ps), s)
        → Coded i packet_at has_memory p (record i { streams = s }) ps 0 p.word
    no_stream :
        (e : Error) (ps : List Packet) (s : Streams)
        → type_field p ≡ job_rel
        → rel_job_id i.streams packet_at (p.word % 2 ^ 16) ≡ ((some e, ps), s)
        → Coded i packet_at has_memory p (record i { streams = s }) ps (rel_status call e) p.word

  -- What becomes of a message, by its type.
  pub data Replied (i : Instance) (packet_at : ℕ → Packet) (has_memory : Bool) (p : Packet)
      : Processed → Type 0 where
    answered :
        (j : Instance) (released : List Packet) (q : Packet)
        → Answers p q
        → Coded i packet_at has_memory p j released (type_field q) q.word
        → Replied i packet_at has_memory p (done j (released ++ q ∷ []))
    is_command :
        (q : Packet)
        → type_field p ≡ cmd
        → exec_msg call i p ≡ executed q
        → is_neg q.result ≡ false
        → Replied i packet_at has_memory p (done i [])
    is_ignored :
        type_field p ≢ rcm_msg
        → type_field p ≢ cmd
        → type_field p ≢ dpc
        → type_field p ≢ sym_idx
        → type_field p ≢ job_acq
        → type_field p ≢ job_rel
        → Replied i packet_at has_memory p (done i [])
    crashes :
        (ps : List Packet)
        → Wild (get_fxn_addr i.syms p.fxn_idx)
        → Replied i packet_at has_memory p (wild ps)
    deferred_crash :
        (ps : List Packet)
        → type_field p ≡ dpc
        → get_fxn_addr i.syms p.fxn_idx ≡ invalid
        → Replied i packet_at has_memory p (wild ps)

  -- A reply to the packet with the data and the result that it has come to have.
  abbrev left_as : Packet → ℤ → ℕ → List ℕ → Packet
  left_as p z w ws = record p { result = z; word = w; words = ws }

  pub rel_status-lt : (e : Error) → rel_status call e < 2 ^ 4
  rel_status-lt e_fail = omega arith
  rel_status-lt e_no_memory = omega arith
  rel_status-lt job_id_not_found = omega arith
  rel_status-lt pool_id_not_found = omega arith

  -- How an execution ends, by the function that the index leads to.
  data Ran (p : Packet) (t : Target) : Executed → Type 0 where
    ran : (z : ℤ) (w : ℕ) (ws : List ℕ) → Ran p t (executed (left_as p z w ws))
    not_run : t ≡ invalid → Ran p t refused
    ran_wild : Wild t → Ran p t wild_call

  run_at-Ran : (p : Packet) (t : Target) (a : ℕ) → (a ≡ 0 → Wild t) → Ran p t (run_at call p a)
  run_at-Ran p t a w = elim (Bool-cases (a == 0)) [
    | inl e ↦ rw (e, run_at) (ran_wild (w ((==_iff _ _).0 e)))
    | inr e ↦ rw (e, run_at) (ran _ _ _)
  ]

  run_target-Ran : (p : Packet) (t : Target) → Ran p t (run_target call p t)
  run_target-Ran p (calls a) = run_at-Ran p (calls a) a (λ e. no_function (inl (ap calls e)))
  run_target-Ran p (creates a) = run_at-Ran p (creates a) a (λ e. no_function (inr (ap creates e)))
  run_target-Ran p unset = ran_wild (first_slot refl)
  run_target-Ran p invalid = not_run refl
  run_target-Ran p reads_outside = ran_wild (behind_table refl)

  module _ (packet_at : ℕ → Packet) (has_memory : Bool) where
    coded :
        (i : Instance) (p : Packet) (j : Instance) (released : List Packet) (c : ℕ) (w : ℕ)
        (ws : List ℕ) (z : ℤ)
        → c < 2 ^ 4
        → Coded i packet_at has_memory p j released c w
        → Replied i packet_at has_memory p
            (done j (released ++ sent_back (with_status (left_as p z w ws) c) ∷ []))
    coded i p j released c w ws z h k =
        answered j released (sent_back (with_status (left_as p z w ws) c))
          (record {
            same_msg = refl;
            same_job = refl;
            same_pool = refl;
            same_fxn = refl;
            is_raw = refl;
            fits = refl;
          })
          (subst (λ n. Coded i packet_at has_memory p j released n w)
            (sym (set_status_field p.desc c h)) k)

    msg_reply-Replied :
        (i : Instance) (p : Packet) (x : Executed)
        → Ran p (get_fxn_addr i.syms p.fxn_idx) x
        → exec_msg call i p ≡ x
        → type_field p ≡ rcm_msg
        → Replied i packet_at has_memory p (msg_reply call i p x)
    msg_reply-Replied i p _ (ran z w ws) e t = elim (Bool-cases (is_neg z)) [
      | inl n ↦ rw (n, msg_reply) (coded i p i [] 4 w ws z (omega arith) (ran_badly _ (inl t) e n))
      | inr n ↦ rw (n, msg_reply) (coded i p i [] 0 w ws z (omega arith) (ran_well _ t e n))
    ]
    msg_reply-Replied i p _ (not_run v) e t =
        coded i p i [] 1 p.word p.words p.result (omega arith) (was_refused (inl t) e)
    msg_reply-Replied i p _ (ran_wild v) e t = crashes [] v

    cmd_reply-Replied :
        (i : Instance) (p : Packet) (x : Executed)
        → Ran p (get_fxn_addr i.syms p.fxn_idx) x
        → exec_msg call i p ≡ x
        → type_field p ≡ cmd
        → Replied i packet_at has_memory p (cmd_reply call i p x)
    cmd_reply-Replied i p _ (ran z w ws) e t = elim (Bool-cases (is_neg z)) [
      | inl n ↦ rw (n, cmd_reply) (coded i p i [] 4 w ws z (omega arith) (ran_badly _ (inr t) e n))
      | inr n ↦ rw (n, cmd_reply) (is_command _ t e n)
    ]
    cmd_reply-Replied i p _ (not_run v) e t =
        coded i p i [] 1 p.word p.words p.result (omega arith) (was_refused (inr t) e)
    cmd_reply-Replied i p _ (ran_wild v) e t = crashes [] v

    deferred :
        (i : Instance) (p : Packet)
        → type_field p ≡ dpc
        → Replied i packet_at has_memory p (done i (sent_back p ∷ []))
    deferred i p t =
        answered i [] (sent_back p)
          (record {
            same_msg = refl;
            same_job = refl;
            same_pool = refl;
            same_fxn = refl;
            is_raw = refl;
            fits = refl;
          })
          (subst (λ n. Coded i packet_at has_memory p i [] n p.word) (sym t) (is_deferred t))

    dpc_run :
        (i : Instance) (p : Packet) (a : ℕ)
        → type_field p ≡ dpc
        → (a ≡ 0 → Wild (get_fxn_addr i.syms p.fxn_idx))
        → Replied i packet_at has_memory p
            (if a == 0 then wild (sent_back p ∷ []) else done i (sent_back p ∷ []))
    dpc_run i p a t w = elim (Bool-cases (a == 0)) [
      | inl e ↦ rw (e) (crashes _ (w ((==_iff _ _).0 e)))
      | inr e ↦ rw (e) (deferred i p t)
    ]

    dpc_reply-Replied :
        (i : Instance) (p : Packet) (g : Target)
        → get_fxn_addr i.syms p.fxn_idx ≡ g
        → type_field p ≡ dpc
        → Replied i packet_at has_memory p (dpc_reply call i p g)
    dpc_reply-Replied i p (calls a) e t = dpc_run i p a t (λ z. no_function (inl (e ∙ ap calls z)))
    dpc_reply-Replied i p (creates a) e t =
        dpc_run i p a t (λ z. no_function (inr (e ∙ ap creates z)))
    dpc_reply-Replied i p unset e t = crashes _ (first_slot e)
    dpc_reply-Replied i p invalid e t = deferred_crash _ t e
    dpc_reply-Replied i p reads_outside e t = crashes _ (behind_table e)

    sym_reply-Replied :
        (i : Instance) (p : Packet) (o : Option ℕ)
        → get_sym_idx i.syms (c_string (p.word ∷ p.words)) ≡ o
        → type_field p ≡ sym_idx
        → Replied i packet_at has_memory p (sym_reply call i p o)
    sym_reply-Replied i p none e t =
        coded i p i [] 2 p.word p.words p.result (omega arith) (no_symbol t e)
    sym_reply-Replied i p (some idx) e t =
        coded i p i [] 0 idx p.words (pos 0) (omega arith) (has_symbol idx t e)

    acq_reply-Replied :
        (i : Instance) (p : Packet) (r : (Error ⊎ ℕ) × Streams)
        → acq_job_id i.streams has_memory ≡ r
        → type_field p ≡ job_acq
        → Replied i packet_at has_memory p (acq_reply call i p r)
    acq_reply-Replied i p (inl e, s) q t =
        coded i p _ [] 5 p.word p.words p.result (omega arith) (no_id e s t q)
    acq_reply-Replied i p (inr k, s) q t =
        coded i p _ [] 0 _ p.words (pos 0) (omega arith) (has_id k s t q)

    rel_reply-Replied :
        (i : Instance) (p : Packet) (r : (Option Error × List Packet) × Streams)
        → rel_job_id i.streams packet_at (p.word % 2 ^ 16) ≡ r
        → type_field p ≡ job_rel
        → Replied i packet_at has_memory p (rel_reply call i p r)
    rel_reply-Replied i p ((some e, ps), s) q t =
        coded i p _ ps (rel_status call e) p.word p.words _ (rel_status-lt e) (no_stream e ps s t q)
    rel_reply-Replied i p ((none, ps), s) q t =
        coded i p _ ps 0 p.word p.words (pos 0) (omega arith) (has_released ps s t q)

    -- One test on the type of a message.
    by_type :
        (i : Instance) (p : Packet) (k : ℕ) (x y : Processed)
        → (type_field p ≡ k → Replied i packet_at has_memory p x)
        → (type_field p ≢ k → Replied i packet_at has_memory p y)
        → Replied i packet_at has_memory p (if type_field p == k then x else y)
    by_type i p k x y f g = elim (Bool-cases (type_field p == k)) [
      | inl e ↦ rw (e) (f ((==_iff _ _).0 e))
      | inr e ↦ rw (e) (g (λ q. absurd (ground (arith, e, q))))
    ]

    -- RcmServer_process_P sends exactly one answer to a message, with the message's ids and a status that
    -- tells how it went, after the packets that the release of a stream sends back; none to a command
    -- that has succeeded and none to a message of another type. It calls a pointer that was not set, or
    -- NULL, only for an index of the first slot of a dynamic table, of a slot behind the end of a table
    -- or of no function, and for a deferred call with an index that is refused.
    pub process-Replied :
        (i : Instance) (p : Packet)
        → Replied i packet_at has_memory p (process call i packet_at has_memory p)
    unfolding process exec_msg
    process-Replied i p =
        by_type i p rcm_msg _ _ (msg_reply-Replied i p _ (run_target-Ran p _) refl) λ a.
          by_type i p cmd _ _ (cmd_reply-Replied i p _ (run_target-Ran p _) refl) λ b.
            by_type i p dpc _ _ (dpc_reply-Replied i p _ refl) λ c.
              by_type i p sym_idx _ _ (sym_reply-Replied i p _ refl) λ d.
                by_type i p job_acq _ _ (acq_reply-Replied i p _ refl) λ e.
                  by_type i p job_rel _ _ (rel_reply-Replied i p _ refl) λ f. is_ignored a b c d e f

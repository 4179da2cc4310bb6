-- ===== src/RcmServer/Workers/Idle.antt =====
-- No packet waits in a stream that is marked as idle.
use benchmarks_m3_dsp_unopti.Base.{
  ℕ, ◌%◌, ◌^◌, ◌≡◌, refl, sym, ◌∙◌, subst, ◌⊎◌, inl, inr, ◌==◌, Option, none, some, List, [], ◌∷◌,
  ◌++◌, Bool, true, false, not, ◌&&◌, ◌||◌, ltb, ℤ, is_neg, Bool-cases, if_true, if_false,
  none-some, arith, both_branches,
}
use mathlib.Core.Option.{some-injective}
use benchmarks_m3_dsp_unopti.RcmServer.{
  Target, calls, creates, unset, invalid, reads_outside, get_fxn_addr, get_sym_idx,
}
use benchmarks_m3_dsp_unopti.RcmServer.Jobs as Jobs
use benchmarks_m3_dsp_unopti.RcmServer.Jobs.{
  Packet, Job, Pool, found, not_found, Error, discrete_job_id, acq_job_id, rel_job_id, admit,
  drop_job, new_job, search_id, take_job, passed, put_job, get_pool, Dispatched, dispatched, failed,
  wild_pool, dispatch, to_pool, to_stream,
}
use benchmarks_m3_dsp_unopti.RcmServer.Process.{
  Instance, Thread, Executed, executed, refused, wild_call, Processed, done, wild, process,
  exec_msg, msg_reply, cmd_reply, dpc_reply, sym_reply, acq_reply, rel_reply, type_field, rcm_msg,
  cmd, dpc, sym_idx, job_acq, job_rel, c_string, Round, goes_on, leaves, asserts, breaks, round,
  after_process, after_dispatch, default_pool_id,
}

abbrev pub IdleJob : Job → Type 0
IdleJob j = j.is_empty ≡ true → j.msg_que ≡ []

abbrev pub Idle : List Job → Type 0
Idle [] = Unit
Idle (j ∷ js) = IdleJob j × Idle js

Idle-append : (js : List Job) (k : ℕ) → Idle js → Idle (js ++ new_job k ∷ [])
Idle-append [] k v = (λ e. refl, tt)
Idle-append (j ∷ js) k (h, v) = (h, Idle-append js k v)

pub take_job-Idle :
    (js : List Job) (k : ℕ) (j : Job) (is : List Job)
    → Idle js
    → take_job js k ≡ some (j, is)
    → IdleJob j × Idle is
unfolding take_job
take_job-Idle [] k j is v e = absurd (none-some _ e)
take_job-Idle (l ∷ js) k j is (h, v) e = elim (Bool-cases (l.job_id == k)) [
  | inl y ↦
      subst (λ (x : Job × List Job). IdleJob x.0 × Idle x.1)
        (some-injective _ _ (sym (if_true (l.job_id == k) _ _ y) ∙ e)) (h, v)
  | inr y ↦
      behind (take_job js k) refl (sym (if_false (l.job_id == k) _ _ y) ∙ e)
        (λ i ms. take_job-Idle js k i ms v)
]
  where
    behind :
        (o : Option (Job × List Job))
        → take_job js k ≡ o
        → passed l o ≡ some (j, is)
        → ((i : Job) (ms : List Job) → take_job js k ≡ some (i, ms) → IdleJob i × Idle ms)
        → IdleJob j × Idle is
    behind none g q ih = absurd (none-some _ q)
    behind (some (i, ms)) g q ih =
        let (a, b) = ih i ms g in
        subst (λ (x : Job × List Job). IdleJob x.0 × Idle x.1) (some-injective _ _ q) (a, (h, b))

pub put_job-Idle : (js : List Job) (k : ℕ) (i : Job) → Idle js → IdleJob i → Idle (put_job js k i)
unfolding put_job
put_job-Idle [] k i v h = tt
put_job-Idle (j ∷ js) k i (g, v) h = elim (Bool-cases (j.job_id == k)) [
  | inl y ↦ rw (y) (h, v)
  | inr y ↦ rw (y) (g, put_job-Idle js k i v h)
]

acq_job_id-Idle : (s : Jobs.Streams) (b : Bool) → Idle s.jobs → Idle (acq_job_id s b).1.jobs
unfolding acq_job_id
acq_job_id-Idle s b v = admitted (search_id 0xFFFF s.last_id s.jobs) b
  where
    admitted : (r : Option ℕ × ℕ) (m : Bool) → Idle (admit s r m).1.jobs
    admitted (none, l) m = v
    admitted (some k, l) false = v
    admitted (some k, l) true = Idle-append s.jobs k v

rel_job_id-Idle :
    (s : Jobs.Streams) (packet_at : ℕ → Packet) (k : ℕ)
    → Idle s.jobs
    → Idle (rel_job_id s packet_at k).1.jobs
unfolding rel_job_id
rel_job_id-Idle s packet_at k v = dropped (take_job s.jobs k) refl
  where
    dropped :
        (o : Option (Job × List Job)) → take_job s.jobs k ≡ o → Idle (drop_job s packet_at o).1.jobs
    dropped none e = v
    dropped (some (j, js)) e = (take_job-Idle s.jobs k j js v e).1

abbrev Dispatches : Dispatched → Type 0
Dispatches (dispatched s) = Idle s.jobs
Dispatches (failed e) = Unit
Dispatches wild_pool = Unit

dispatch-Idle :
    (s : Jobs.Streams) (packet_at : ℕ → Packet) (a : ℕ)
    → Idle s.jobs
    → Dispatches (dispatch s packet_at a)
unfolding dispatch
dispatch-Idle s packet_at a v = by_pool (packet_at a).job_id (get_pool s (packet_at a).pool_id)
  where
    by_stream :
        (k q : ℕ) (o : Option (Job × List Job))
        → take_job s.jobs k ≡ o
        → Dispatches (to_stream s q a k o)
    by_stream k q none e = tt
    by_stream k q (some (j, js)) e = elim (Bool-cases j.is_empty) [
      | inl y ↦ rw (y, to_stream) (put_job-Idle s.jobs k _ v (λ f. absurd (ground (arith, f))))
      | inr y ↦ rw (y, to_stream) (put_job-Idle s.jobs k _ v (λ f. absurd (ground (arith, f, y))))
    ]

    by_pool : (k : ℕ) (o : Pool) → Dispatches (to_pool s a k o)
    by_pool k (found q) = elim (Bool-cases (k == discrete_job_id)) [
      | inl y ↦ rw (y, to_pool) v
      | inr y ↦ rw (y, to_pool) (by_stream k q (take_job s.jobs k) refl)
    ]
    by_pool k not_found = tt
    by_pool k Jobs.unset = tt

module _ (call : ℕ → ℕ → ℕ × List ℕ → ℤ × (ℕ × List ℕ)) where
  abbrev pub Processes : Processed → Type 0
  Processes (done i ps) = Idle i.streams.jobs
  Processes (wild ps) = Unit

  pub process-Idle :
      (i : Instance) (packet_at : ℕ → Packet) (m : Bool) (p : Packet)
      → Idle i.streams.jobs
      → Processes (process call i packet_at m p)
  unfolding process
  process-Idle i packet_at m p v =
      both_branches Processes (type_field p == rcm_msg) _ _ (by_msg (exec_msg call i p)) (
        both_branches Processes (type_field p == cmd) _ _ (by_cmd (exec_msg call i p)) (
          both_branches Processes (type_field p == dpc) _ _ (by_dpc (get_fxn_addr i.syms p.fxn_idx))
            (both_branches Processes (type_field p == sym_idx) _ _
              (by_sym (get_sym_idx i.syms (c_string (p.word ∷ p.words))))
              (both_branches Processes (type_field p == job_acq) _ _
                (by_acq (acq_job_id i.streams m) (acq_job_id-Idle i.streams m v))
                (both_branches Processes (type_field p == job_rel) _ _
                  (by_rel (rel_job_id i.streams packet_at (p.word % 2 ^ 16))
                    (rel_job_id-Idle i.streams packet_at (p.word % 2 ^ 16) v))
                  v)))))
    where
      by_msg : (x : Executed) → Processes (msg_reply call i p x)
      by_msg (executed q) = v
      by_msg refused = v
      by_msg wild_call = tt

      by_cmd : (x : Executed) → Processes (cmd_reply call i p x)
      by_cmd (executed q) = both_branches Processes (is_neg q.result) _ _ v v
      by_cmd refused = v
      by_cmd wild_call = tt

      by_dpc : (x : Target) → Processes (dpc_reply call i p x)
      by_dpc (calls a) = both_branches Processes (a == 0) _ _ tt v
      by_dpc (creates a) = both_branches Processes (a == 0) _ _ tt v
      by_dpc unset = tt
      by_dpc invalid = tt
      by_dpc reads_outside = tt

      by_sym : (x : Option ℕ) → Processes (sym_reply call i p x)
      by_sym none = v
      by_sym (some k) = v

      by_acq : (r : (Error ⊎ ℕ) × Jobs.Streams) → Idle r.1.jobs → Processes (acq_reply call i p r)
      by_acq (inl e, s) w = w
      by_acq (inr k, s) w = w

      by_rel :
          (r : (Option Error × List Packet) × Jobs.Streams)
          → Idle r.1.jobs
          → Processes (rel_reply call i p r)
      by_rel ((some e, ps), s) w = w
      by_rel ((none, ps), s) w = w

  abbrev pub Rounds : Round → Type 0
  Rounds (goes_on i ps) = Idle i.streams.jobs
  Rounds leaves = Unit
  Rounds asserts = Unit
  Rounds breaks = Unit

  pub round-Idle :
      (t : Thread) (i : Instance) (packet_at : ℕ → Packet) (m : Bool) (len : ℕ)
      → Idle i.streams.jobs
      → Rounds (round call t i packet_at m len)
  unfolding round
  round-Idle t i packet_at m len v = both_branches Rounds (ltb 512 len) _ _ tt (
      both_branches Rounds (not ((p.hdr_type == 5) || (p.hdr_type == 4))) _ _ tt (
        both_branches Rounds (t.shutdown || (p.hdr_type == 4)) _ _ tt (
          both_branches Rounds ((p.pool_id == default_pool_id) && t.in_band) _ _
            (processed (process call i packet_at m p) (process-Idle i packet_at m p v))
            (sent (dispatch i.streams packet_at t.buffer)
              (dispatch-Idle i.streams packet_at t.buffer v)))))
    where
      p : Packet
      p = packet_at t.buffer

      processed : (x : Processed) → Processes x → Rounds (after_process x)
      processed (done j ps) w = w
      processed (wild ps) w = tt

      sent : (x : Dispatched) → Dispatches x → Rounds (after_dispatch i p x)
      sent (dispatched s) w = w
      sent (failed e) w = v
      sent wild_pool w = tt

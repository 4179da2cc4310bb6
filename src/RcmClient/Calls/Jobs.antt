-- ===== src/RcmClient/Calls/Jobs.antt =====
-- The job ids that a client of RcmClient.c acquires from the server of RcmServer.c.
use benchmarks_m3_dsp_unopti.Base.{
  ℕ, ◌%◌, ◌^◌, ◌<◌, ◌≡◌, refl, sym, ap, ◌∙◌, Option, none, some, List, [], ◌∷◌, ◌++◌, Bool, true,
  ◌⊎◌, inl, inr, ℤ, arith,
}
use benchmarks_m3_dsp_unopti.RcmServer.Jobs.{
  Packet, Streams, Error, e_fail, e_no_memory, job_id_not_found, pool_id_not_found, acq_job_id,
  rel_job_id,
}
use benchmarks_m3_dsp_unopti.RcmServer.Process.{
  Instance, Processed, done, wild, acq_reply, rel_reply, rel_status, job_acq, job_rel, type_field,
  process,
}
use benchmarks_m3_dsp_unopti.RcmServer.Process.Replies.{set_status_field, rel_status-lt}
use benchmarks_m3_dsp_unopti.RcmServer.Jobs.Ids.{
  Sound, Acquires, acquires, no_id, no_memory, acq_job_id-Acquires,
}
use benchmarks_m3_dsp_unopti.RcmClient.Calls.{
  Status, success, e_server_error, e_job_id_not_found, Freed, frees, gen_msg_id, classify,
  new_packet, with_memory, acquire_status, release_status, with_own, for_job,
}
use benchmarks_m3_dsp_unopti.RcmClient.Calls.Send.{
  acquire_job_id, ask_id, release_job_id, give_back,
}
use benchmarks_m3_dsp_unopti.RcmClient.Calls.Remote.{type_field-classify, first_sent}

-- What the client returns for what the server's functions return.
abbrev pub as_acquired : Error ⊎ ℕ → Packet → (Status × Option ℕ) × Freed
as_acquired (inl e) q = ((e_server_error, none), frees q)
as_acquired (inr id) q = ((success, some id), frees q)

abbrev pub as_released : Option Error → Status
as_released none = success
as_released (some e_fail) = e_server_error
as_released (some e_no_memory) = e_server_error
as_released (some job_id_not_found) = e_job_id_not_found
as_released (some pool_id_not_found) = e_server_error

-- The messages that the two calls send, with the memory's words.
abbrev pub acquisition : ℕ → ℕ → List ℕ → Packet
acquisition k w ws = classify job_acq (new_packet (gen_msg_id k) 2 w ws)

abbrev pub release : ℕ → ℕ → ℕ → List ℕ → Packet
release id k w ws = for_job id (classify job_rel (new_packet (gen_msg_id k) 2 w ws))

abbrev streams_of : Processed → Streams → Streams
streams_of (done j ps) s = j.streams
streams_of (wild ps) s = s

-- An id of the server fits the half of a word that it is sent in.
abbrev Fits : (Error ⊎ ℕ) × Streams → Type 0
Fits (inl e, s) = Unit
Fits (inr id, s) = id < 2 ^ 16

abbrev pub last_packet : List Packet → Packet → Packet
last_packet [] d = d
last_packet (p ∷ ps) d = last_packet ps p

abbrev last_sent : Processed → Packet → Packet
last_sent (done j ps) d = last_packet ps d
last_sent (wild ps) d = d

last_packet-append : (ps : List Packet) (q d : Packet) → last_packet (ps ++ q ∷ []) d ≡ q
last_packet-append [] q d = refl
last_packet-append (p ∷ ps) q d = last_packet-append ps q p

same_last :
    (ps qs : List Packet) (r q : Packet) (i j : Instance)
    → done i (ps ++ r ∷ []) ≡ done j (qs ++ q ∷ [])
    → q ≡ r
same_last ps qs r q i j e =
    sym (last_packet-append qs q q) ∙ sym (ap (λ p. last_sent p q) e) ∙ last_packet-append ps r q

module _ (call : ℕ → ℕ → ℕ × List ℕ → ℤ × (ℕ × List ℕ)) (i : Instance) where
  process-job_acq :
      (packet_at : ℕ → Packet) (has_memory : Bool) (m : Packet)
      → type_field m ≡ job_acq
      → process call i packet_at has_memory m ≡ acq_reply call i m (acq_job_id i.streams has_memory)
  unfolding process
  process-job_acq packet_at has_memory m e = rw (e) refl

  process-job_rel :
      (packet_at : ℕ → Packet) (has_memory : Bool) (m : Packet)
      → type_field m ≡ job_rel
      → process call i packet_at has_memory m
        ≡ rel_reply call i m (rel_job_id i.streams packet_at (m.word % 2 ^ 16))
  unfolding process
  process-job_rel packet_at has_memory m e = rw (e) refl

  acquired :
      (m q : Packet) (j : Instance) (r : (Error ⊎ ℕ) × Streams)
      → Fits r
      → acq_reply call i m r ≡ done j (q ∷ [])
      → (with_own acquire_status (λ p. p.word % 2 ^ 16) (inr q) ≡ as_acquired r.0 q)
        × (j.streams ≡ r.1)
  acquired m q j (inl x, s) f e =
      let t : type_field q ≡ 5 =
        sym (ap (λ p. type_field (first_sent p q)) e) ∙ set_status_field m.desc 5 (omega arith) in
      (rw (t) refl, sym (ap (λ p. streams_of p s) e))
  acquired m q j (inr id, s) f e =
      let t : type_field q ≡ 0 =
        sym (ap (λ p. type_field (first_sent p q)) e) ∙ set_status_field m.desc 0 (omega arith) in
      let word : q.word % 2 ^ 16 ≡ id =
        sym (ap (λ p. (first_sent p q).word % 2 ^ 16) e) ∙ omega (arith, f) in
      (rw (t, word) refl, sym (ap (λ p. streams_of p s) e))

  released :
      (m q : Packet) (id : ℕ) (j : Instance) (qs : List Packet)
      (r : (Option Error × List Packet) × Streams)
      → rel_reply call i m r ≡ done j (qs ++ q ∷ [])
      → ((with_own release_status (λ p. id) (inr q)).0.0 ≡ as_released r.0.0) × (j.streams ≡ r.1)
  released m q id j qs ((none, ps), s) e =
      let t : type_field q ≡ 0 =
        ap type_field (same_last ps qs _ q _ j e) ∙ set_status_field m.desc 0 (omega arith) in
      (rw (t) refl, sym (ap (λ p. streams_of p s) e))
  released m q id j qs ((some x, ps), s) e =
      let t : type_field q ≡ rel_status call x =
        ap type_field (same_last ps qs _ q _ j e)
        ∙ set_status_field m.desc (rel_status call x) (rel_status-lt call x) in
      (by_error x t, sym (ap (λ p. streams_of p s) e))
    where
      by_error :
          (y : Error) → type_field q ≡ rel_status call y → release_status q ≡ as_released (some y)
      by_error e_fail t = rw (t) refl
      by_error e_no_memory t = rw (t) refl
      by_error job_id_not_found t = rw (t) refl
      by_error pool_id_not_found t = rw (t) refl

  -- RcmClient_acquireJobId with the server behind it, whose job ids are distinct: with memory for the
  -- message, the call returns the id that RcmServer_acqJobId_P returns to the server, or the code for a
  -- server error when that function fails, and frees the server's answer; the server's streams are
  -- then those that the function leaves.
  pub acquire_job_id-acq_job_id :
      (packet_at : ℕ → Packet) (has_memory : Bool) (heap : ℕ → Option (ℕ × List ℕ)) (k w : ℕ)
      (ws : List ℕ) (q : Packet) (j : Instance)
      → heap 56 ≡ some (w, ws)
      → Sound i.streams
      → process call i packet_at has_memory (acquisition k w ws) ≡ done j (q ∷ [])
      → (acquire_job_id (λ m. true) (λ id. inr q) heap k
          ≡ as_acquired (acq_job_id i.streams has_memory).0 q)
        × (j.streams ≡ (acq_job_id i.streams has_memory).1)
  unfolding acquire_job_id
  acquire_job_id-acq_job_id packet_at has_memory heap k w ws q j has v e =
      let m = acquisition k w ws in
      let asked =
        type_field-classify (new_packet (gen_msg_id k) 2 w ws) 0 job_acq job_acq refl refl
          (omega arith) in
      let end =
        acquired m q j (acq_job_id i.streams has_memory)
          (fits (acq_job_id i.streams has_memory) (acq_job_id-Acquires i.streams has_memory v).0)
          (sym (process-job_acq packet_at has_memory m asked) ∙ e) in
      (ap (λ o. ask_id (λ m. true) (λ id. inr q) (with_memory k 2 o).0) has ∙ end.0, end.1)
    where
      fits : (r : (Error ⊎ ℕ) × Streams) → Acquires i.streams has_memory r → Fits r
      fits _ (acquires id u l h b) = omega (arith, h)
      fits _ (no_id l h) = tt
      fits _ (no_memory l u b) = tt

  -- RcmClient_releaseJobId with the server behind it: with memory for the message, and for an id of 16
  -- bits, the call returns what RcmServer_relJobId_P returns for this id, in the client's codes; the
  -- server's streams are then those that the function leaves.
  pub release_job_id-rel_job_id :
      (packet_at : ℕ → Packet) (has_memory : Bool) (heap : ℕ → Option (ℕ × List ℕ)) (id k w : ℕ)
      (ws : List ℕ) (q : Packet) (qs : List Packet) (j : Instance)
      → heap 56 ≡ some (w, ws)
      → id < 2 ^ 16
      → process call i packet_at has_memory (release id k w ws) ≡ done j (qs ++ q ∷ [])
      → ((release_job_id (λ m. true) (λ n. inr q) heap k id).0.0
          ≡ as_released (rel_job_id i.streams packet_at id).0.0)
        × (j.streams ≡ (rel_job_id i.streams packet_at id).1)
  unfolding release_job_id
  release_job_id-rel_job_id packet_at has_memory heap id k w ws q qs j has h e =
      let p = new_packet (gen_msg_id k) 2 w ws in
      let m = release id k w ws in
      let asked = type_field-classify p 0 job_rel job_rel refl refl (omega arith) in
      let sent : m.word % 2 ^ 16 ≡ id = omega (arith, h) in
      let end = released m q id j qs (rel_job_id i.streams packet_at id) (
        ap (λ n. rel_reply call i m (rel_job_id i.streams packet_at n)) (sym sent)
        ∙ sym (process-job_rel packet_at has_memory m asked)
        ∙ e) in
      (
        ap (λ o. (give_back (λ m. true) (λ n. inr q) id (with_memory k 2 o).0).0.0) has ∙ end.0,
        end.1,
      )

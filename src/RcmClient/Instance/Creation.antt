-- ===== src/RcmClient/Instance/Creation.antt =====
-- What the creation of a client of RcmClient.c ends with.
use benchmarks_m3_dsp_unopti.Base.{
  ◌≡◌, ◌≢◌, arith, ==_iff, refl, sym, inl, inr, ◌==◌, none, some, Bool, true, false, Bool-cases,
  if_true, if_false, subst,
}
use benchmarks_m3_dsp_unopti.RcmClient.Calls.{
  Status, success, e_fail, e_invalid_heap_id, e_list_create_failed, e_msgq_create_failed,
  e_server_not_found, e_no_memory,
}
use benchmarks_m3_dsp_unopti.RcmClient.Instance.{
  Params, Object, Outcomes, Opened, opened, not_found, not_opened, made, no_parts, invalid_heap_id,
  init_mailbox, init_heap, init_server, instance_init, deleted, instance_finalize, Created,
  is_success, init_or_finalize, create,
}

-- A client that can be used: all parts are there.
abbrev pub all_parts : Object
all_parts = record {
  gate = true;
  msg_que = true;
  error_msg_que = true;
  sync = true;
  server_msg_q = true;
  mbx_lock = true;
  queue_lock = true;
  recipients = true;
  new_mail = true;
}

-- The parts up to the server's queue.
abbrev pub without_mailbox : Bool → Object
without_mailbox b = record all_parts {
  server_msg_q = b;
  mbx_lock = false;
  queue_lock = false;
  recipients = false;
  new_mail = false;
}

-- The calls before `MessageQ_open` succeed.
pub record HasQueues (x : Outcomes) : Type 0 where
  pub gate : x.makes_gate ≡ true
  pub sync : x.makes_sync ≡ true
  pub msg_que : x.makes_msg_que ≡ true
  pub error_msg_que : x.makes_error_msg_que ≡ true

-- The calls that make the mailbox succeed, and the parameters let them be made.
pub record HasMailbox (ps : Params) (x : Outcomes) : Type 0 where
  pub no_callback : ps.callback_notification ≡ false
  pub heap : ps.heap_id ≢ invalid_heap_id
  pub mbx_lock : x.makes_mbx_lock ≡ true
  pub queue_lock : x.makes_queue_lock ≡ true
  pub recipients : x.makes_recipients ≡ true
  pub new_mail : x.makes_new_mail ≡ true

-- What `MessageQ_open` returns when the server's queue is there, and when the creation goes on without
-- it.
abbrev pub opening : Bool → Opened
opening true = opened
opening false = not_opened

-- What a code for a failure says of the calls and the parameters.
pub data Fault (ps : Params) (x : Outcomes) : Status → Type 0 where
  no_gate : x.makes_gate ≡ false → Fault ps x e_fail
  no_sync : x.makes_sync ≡ false → Fault ps x e_fail
  no_msg_que : x.makes_msg_que ≡ false → Fault ps x e_msgq_create_failed
  no_error_msg_que : x.makes_error_msg_que ≡ false → Fault ps x e_msgq_create_failed
  no_server : HasQueues x → x.opens ≡ not_found → Fault ps x e_server_not_found
  no_heap :
      HasQueues x
      → ps.callback_notification ≡ false
      → ps.heap_id ≡ invalid_heap_id
      → Fault ps x e_invalid_heap_id
  no_mbx_lock : HasQueues x → x.makes_mbx_lock ≡ false → Fault ps x e_fail
  no_queue_lock : HasQueues x → x.makes_queue_lock ≡ false → Fault ps x e_fail
  no_recipients : HasQueues x → x.makes_recipients ≡ false → Fault ps x e_list_create_failed
  no_new_mail : HasQueues x → x.makes_new_mail ≡ false → Fault ps x e_list_create_failed

-- How a creation may end.
pub data Creates (ps : Params) (x : Outcomes) (has_memory : Bool) : Created → Type 0 where
  whole :
      (b : Bool)
      → has_memory ≡ true
      → HasQueues x
      → x.opens ≡ opening b
      → HasMailbox ps x
      → Creates ps x has_memory (record {
        status = success;
        handle = some (record all_parts { server_msg_q = b });
        left = no_parts;
      })
  unlocked :
      (b : Bool)
      → has_memory ≡ true
      → HasQueues x
      → x.opens ≡ opening b
      → ps.callback_notification ≡ true
      → Creates ps x has_memory
          (record { status = success; handle = some (without_mailbox b); left = no_parts })
  fails :
      (s : Status)
      → is_success s ≡ false
      → has_memory ≡ true
      → Fault ps x s
      → Creates ps x has_memory (record { status = s; handle = none; left = no_parts })
  no_memory :
      has_memory ≡ false
      → Creates ps x has_memory (record { status = e_no_memory; handle = none; left = no_parts })

deleted-false : (b : Bool) → deleted b ≡ false
deleted-false true = refl
deleted-false false = refl

-- Nothing is left of an object that is finalized.
pub instance_finalize-no_parts : (o : Object) → instance_finalize o ≡ no_parts
unfolding instance_finalize
instance_finalize-no_parts o =
    rw
      (
        deleted-false o.new_mail,
        deleted-false o.recipients,
        deleted-false o.queue_lock,
        deleted-false o.mbx_lock,
        deleted-false o.server_msg_q,
        deleted-false o.error_msg_que,
        deleted-false o.msg_que,
        deleted-false o.sync,
      )
      refl

module _ (ps : Params) (x : Outcomes) where
  -- A result of the initialization that a creation may end with.
  abbrev Ends : Status × Object → Type 0
  Ends r = Creates ps x true (init_or_finalize r)

  failed : (s : Status) (o : Object) → is_success s ≡ false → Fault ps x s → Ends (s, o)
  failed s o e f = subst (Creates ps x true) (sym (if_false (is_success s) _ _ e)) (
      subst (λ p. Creates ps x true (record { status = s; handle = none; left = p }))
        (sym (instance_finalize-no_parts o)) (fails s e refl f))

  after_call :
      (b : Bool) (s : Status) (o : Object) (r : Status × Object)
      → is_success s ≡ false
      → (b ≡ false → Fault ps x s)
      → (b ≡ true → Ends r)
      → Ends (made b s o r)
  after_call true s o r e f h = h refl
  after_call false s o r e f h = failed s o e (f refl)

  -- The parts before the mailbox, as the calls leave them.
  abbrev before_mailbox : Bool → Object
  before_mailbox b = record no_parts {
    gate = x.makes_gate;
    sync = x.makes_sync;
    msg_que = x.makes_msg_que;
    error_msg_que = x.makes_error_msg_que;
    server_msg_q = b;
  }

  queue_parts : (b : Bool) → HasQueues x → before_mailbox b ≡ without_mailbox b
  queue_parts b q = rw (q.gate, q.sync, q.msg_que, q.error_msg_que) refl

  mailbox_parts :
      (b : Bool)
      → HasQueues x
      → x.makes_mbx_lock ≡ true
      → x.makes_queue_lock ≡ true
      → x.makes_recipients ≡ true
      → x.makes_new_mail ≡ true
      → record (before_mailbox b) {
        mbx_lock = x.makes_mbx_lock;
        queue_lock = x.makes_queue_lock;
        recipients = x.makes_recipients;
        new_mail = x.makes_new_mail;
      }
        ≡ record all_parts { server_msg_q = b }
  mailbox_parts b q m l r n = rw (q.gate, q.sync, q.msg_que, q.error_msg_que, m, l, r, n) refl

  abbrev Finishes : Object → Type 0
  Finishes o = Ends (success, o)

  mailbox :
      (b : Bool)
      → HasQueues x
      → x.opens ≡ opening b
      → ps.callback_notification ≡ false
      → ps.heap_id ≢ invalid_heap_id
      → Ends (init_mailbox x (before_mailbox b))
  mailbox b q o c h = after_call x.makes_mbx_lock e_fail _ _ refl (no_mbx_lock q) λ m.
      after_call x.makes_queue_lock e_fail _ _ refl (no_queue_lock q) λ l.
        after_call x.makes_recipients e_list_create_failed _ _ refl (no_recipients q) λ r.
          after_call x.makes_new_mail e_list_create_failed _ _ refl (no_new_mail q) λ n.
            subst Finishes (sym (mailbox_parts b q m l r n)) (
              whole b refl q o (record {
                no_callback = c;
                heap = h;
                mbx_lock = m;
                queue_lock = l;
                recipients = r;
                new_mail = n;
              }))

  heap : (b : Bool) → HasQueues x → x.opens ≡ opening b → Ends (init_heap ps x (before_mailbox b))
  heap b q o = elim (Bool-cases ps.callback_notification) [
    | inl e ↦
        subst Ends (sym (if_true ps.callback_notification _ _ e))
          (subst Finishes (sym (queue_parts b q)) (unlocked b refl q o e))
    | inr e ↦
        subst Ends (sym (if_false ps.callback_notification _ _ e))
          (elim (Bool-cases (ps.heap_id == invalid_heap_id)) [
            | inl h ↦
                subst Ends (sym (if_true (ps.heap_id == invalid_heap_id) _ _ h))
                  (failed e_invalid_heap_id _ refl (no_heap q e ((==_iff _ _).0 h)))
            | inr h ↦
                subst Ends (sym (if_false (ps.heap_id == invalid_heap_id) _ _ h))
                  (mailbox b q o e (λ z. absurd (ground (arith, h, z))))
          ])
  ]

  server :
      (o : Opened) → HasQueues x → x.opens ≡ o → Ends (init_server ps x o (before_mailbox false))
  server opened q e = heap true q e
  server not_found q e = failed e_server_not_found _ refl (no_server q e)
  server not_opened q e = heap false q e

  -- RcmClient_create ends in one of four ways. It makes all parts of a client, if every call that makes
  -- one succeeds, callbacks are not asked for and the heap's id is valid. It fails with the code of a
  -- call that has failed or of a bad heap id, and nothing is left of what it has made. When
  -- MessageQ_open fails with another error than MessageQ_E_NOTFOUND it goes on without the server's
  -- queue. When the parameters ask for callbacks it succeeds without the locks and the lists.
  pub create-Creates : (has_memory : Bool) → Creates ps x has_memory (create ps x has_memory)
  unfolding create instance_init
  create-Creates false = no_memory refl
  create-Creates true = after_call x.makes_gate e_fail _ _ refl no_gate λ g.
      after_call x.makes_sync e_fail _ _ refl no_sync λ s.
        after_call x.makes_msg_que e_msgq_create_failed _ _ refl no_msg_que λ m.
          after_call x.makes_error_msg_que e_msgq_create_failed _ _ refl no_error_msg_que
            λ n. server x.opens (record { gate = g; sync = s; msg_que = m; error_msg_que = n }) refl

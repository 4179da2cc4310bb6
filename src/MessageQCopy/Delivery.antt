-- ===== src/MessageQCopy/Delivery.antt =====
-- What a local `MessageQCopy_send` does, by what it finds.
use benchmarks_m3_dsp_unopti.Base.{
  ℕ, ◌+◌, ◌≡◌, ◌≢◌, refl, sym, ap, ◌∙◌, inl, inr, ◌==◌, Option, none, some, List, [], ◌∷◌, ◌++◌,
  get_elem?, get_elem?-set_self, get_elem?-set_ne, get_elem?-lt, Bool-cases, Option-cases, ==_iff,
}
use benchmarks_m3_dsp_unopti.Bios.{Bios}
use benchmarks_m3_dsp_unopti.MessageQCopy.{
  Elem, bytes, Status, success, no_memory, no_endpoint, Outcome, returns, reads_outside, elem_size,
  Endpoint, Module, deliver, send_local,
}

module _ (b : Bios Elem) where
  open b use {Heap, heap_alloc, entries, entries-put, sem_post, fifo_put}

  -- The messages that wait at an endpoint.
  abbrev pub waiting_at : Option (Option (Endpoint b)) → List Elem
  waiting_at none = []
  waiting_at (some none) = []
  waiting_at (some (some e)) = entries e.queue

  abbrev pub waiting : Module b → ℕ → List Elem
  waiting m i = waiting_at (get_elem? m.objects i)

  pub data Sends (m : Module b) (dst : ℕ) (x : Elem) : Outcome (Status × Module b) → Type 0 where
    finds_nothing : get_elem? m.objects dst ≡ none → Sends m dst x reads_outside
    finds_no_endpoint :
        get_elem? m.objects dst ≡ some none → Sends m dst x (returns (no_endpoint, m))
    finds_no_block :
        (e : Endpoint b)
        → get_elem? m.objects dst ≡ some (some e)
        → heap_alloc m.heap (x.len + elem_size) ≡ none
        → Sends m dst x (returns (no_memory, m))
    queues :
        (n : Module b) (e : Endpoint b)
        → get_elem? m.objects dst ≡ some (some e)
        → heap_alloc m.heap (x.len + elem_size) ≡ some n.heap
        → waiting n dst ≡ waiting m dst ++ x ∷ []
        → ((j : ℕ) → dst ≢ j → waiting n j ≡ waiting m j)
        → Sends m dst x (returns (success, n))

  module _ (m : Module b) (dst src len : ℕ) (data_at : ℕ → ℕ) where
    abbrev message : Elem
    message = record { len = len; src = src; payload = bytes data_at len }

    deliver-Sends :
        (e : Endpoint b)
        → get_elem? m.objects dst ≡ some (some e)
        → Sends m dst message (returns (deliver b m dst src data_at len e))
    unfolding deliver
    deliver-Sends e h = elim (Option-cases (heap_alloc m.heap (len + elem_size))) [
      | inl n ↦ rw (n, deliver) (finds_no_block e h n)
      | inr (g, n) ↦
          rw (n, deliver)
            (queues _ e h n
              (ap waiting_at
                  (get_elem?-set_self m.objects dst _ (get_elem?-lt m.objects dst (some e) h))
                ∙ entries-put e.queue _
                ∙ ap (λ l. l ++ message ∷ []) (ap waiting_at (sym h)))
              (λ j ne. ap waiting_at (get_elem?-set_ne m.objects dst j _ ne)))
    ]

    -- A message to an endpoint of this core is appended to that endpoint's queue, with its source, its
    -- length and a copy of its bytes, and every other queue stays as it is; without an endpoint or
    -- without a block the call returns the error for it and changes nothing; a number behind the end of
    -- the table of endpoints is not checked, and the table is read there.
    pub send_local-Sends : m.cur_init ≢ 0 → Sends m dst message (send_local b m dst src data_at len)
    unfolding send_local
    send_local-Sends up = elim (Bool-cases (m.cur_init == 0)) [
      | inl z ↦ absurd (up ((==_iff _ _).0 z))
      | inr z ↦ rw (z, send_local) (found (get_elem? m.objects dst) refl)
    ]
      where
        found :
            (o : Option (Option (Endpoint b)))
            → get_elem? m.objects dst ≡ o
            → Sends m dst message (elim o [
              | none ↦ reads_outside
              | some p ↦ elim p [
                | none ↦ returns (no_endpoint, m)
                | some e ↦ returns (deliver b m dst src data_at len e)
              ]
            ])
        found none q = finds_nothing q
        found (some none) q = finds_no_endpoint q
        found (some (some e)) q = deliver-Sends e q

-- ===== src/MessageQCopy/Blocks.antt =====
-- No block of the message heap is lost: the free ones and those that hold queued messages are always as
-- many.
use benchmarks_m3_dsp_unopti.Base.{
  ℕ, zero, suc, ◌+◌, ◌≤◌, ◌≡◌, ◌≢◌, refl, ap, subst, inl, inr, ◌==◌, Option, none, some, List, [],
  ◌∷◌, Bool, length, get_elem?, set, arith, length-append, Bool-cases, Option-cases,
}
use mathlib.Core.Option.{some-injective}
use benchmarks_m3_dsp_unopti.Bios.{Bios}
use benchmarks_m3_dsp_unopti.MessageQCopy.{
  Elem, Status, no_endpoint, Outcome, returns, reads_outside, elem_size, Endpoint, Module,
  new_endpoint, create, discard, delete, deliver, send_local, Received, recv, unblock, OnReturn,
}
use benchmarks_m3_dsp_unopti.MessageQCopy.Invariant.{
  Inv, create-Inv, send_local-Inv, delete-Inv, unblock-Inv,
}
use benchmarks_m3_dsp_unopti.MessageQCopy.Endpoints.{
  Creates, gives_any, gives_reserved, has_none_left, is_refused, has_no_memory, create-Creates,
}
use benchmarks_m3_dsp_unopti.MessageQCopy.Receive.{
  Receives, times_out, is_woken, gets, recv-Receives, recv-Inv,
}

module _ (b : Bios Elem) where
  open b use {
    Sem, Heap, Fifo, blocks, heap_alloc, heap_free, alloc_takes, free_gives, entries, entries-put,
    entries-create, get_cases, fifo_get,
  }

  abbrev pub held_by : Option (Endpoint b) → ℕ
  held_by none = 0
  held_by (some e) = length (entries e.queue)

  abbrev pub held : List (Option (Endpoint b)) → ℕ
  held [] = 0
  held (o ∷ os) = held_by o + held os

  -- The blocks of the heap, free or in a queue.
  abbrev pub all_blocks : Module b → ℕ
  all_blocks m = blocks m.heap + held m.objects

  held-set :
      (os : List (Option (Endpoint b))) (i : ℕ) (o p : Option (Endpoint b))
      → get_elem? os i ≡ some o
      → held_by o + held (set os i p) ≡ held_by p + held os
  held-set [] i o p h = absurd (ground arith)
  held-set (x ∷ os) zero o p h = omega (arith, ap held_by (some-injective _ _ h))
  held-set (x ∷ os) (suc i) o p h = omega (arith, held-set os i o p h)

  blocks-discard :
      (n : ℕ) (q : Fifo) (h : Heap)
      → length (entries q) ≤ n
      → blocks (discard b n q h) ≡ length (entries q) + blocks h
  unfolding discard
  blocks-discard zero q h le = omega arith
  blocks-discard (suc n) q h le = elim (get_cases q) [
    | inl (e, g) ↦ rw (g, discard) (omega (arith, ap length e))
    | inr (x, r, g, e) ↦
        rw (g, discard)
          (omega (
            arith,
            blocks-discard n r (heap_free h) (omega (arith, ap length e)),
            free_gives h,
            ap length e,
          ))
  ]

  deliver-all_blocks :
      (m : Module b) (dst src len : ℕ) (data_at : ℕ → ℕ) (e : Endpoint b)
      → get_elem? m.objects dst ≡ some (some e)
      → all_blocks (deliver b m dst src data_at len e).1 ≡ all_blocks m
  unfolding deliver
  deliver-all_blocks m dst src len data_at e h =
      elim (Option-cases (heap_alloc m.heap (len + elem_size))) [
        | inl n ↦ rw (n, deliver)
        | inr (g, n) ↦
            rw (n, deliver)
              (omega (
                arith,
                alloc_takes m.heap g (len + elem_size) n,
                held-set m.objects dst (some e) _ h,
                ap length (entries-put e.queue _),
                length-append (entries e.queue) (_ ∷ []),
              ))
      ]

  -- The calls on a running module that return, and the state that they leave. A handle is NULL or that
  -- of an endpoint that is there, and the loop of `MessageQCopy_delete` runs until its queue is empty.
  pub data Call (m : Module b) : Module b → Type 0 where
    creates :
        (reserved : ℕ) (mem : Bool) (r : Option ℕ × Module b)
        → create b m reserved mem ≡ returns r
        → Call m r.1
    sends :
        (dst src len : ℕ) (data_at : ℕ → ℕ) (r : Status × Module b)
        → send_local b m dst src data_at len ≡ returns r
        → Call m r.1
    receives :
        (i : ℕ) (e : Endpoint b) (r : Received × Module b)
        → get_elem? m.objects i ≡ some (some e)
        → recv b m i e ≡ returns r
        → Call m r.1
    unblocks :
        (i : ℕ) (e : Endpoint b) → get_elem? m.objects i ≡ some (some e) → Call m (unblock b m i e)
    deletes :
        (fuel i : ℕ) (e : Endpoint b) (r : Status × Module b)
        → get_elem? m.objects i ≡ some (some e)
        → length (entries e.queue) ≤ fuel
        → delete b m fuel (some e) ≡ returns r
        → Call m r.1
    deletes_null :
        (fuel : ℕ) (r : Status × Module b) → delete b m fuel none ≡ returns r → Call m r.1

  -- The blocks of another state are as many.
  abbrev SameBlocks : Module b → Module b → Type 0
  SameBlocks m n = all_blocks n ≡ all_blocks m

  send_local-all_blocks :
      (m : Module b) (dst src len : ℕ) (data_at : ℕ → ℕ)
      → OnReturn b (SameBlocks m) (send_local b m dst src data_at len)
  unfolding send_local
  send_local-all_blocks m dst src len data_at = elim (Bool-cases (m.cur_init == 0)) [
    | inl h ↦ rw (h, send_local) tt
    | inr h ↦ rw (h, send_local) (found (get_elem? m.objects dst) refl)
  ]
    where
      found :
          (o : Option (Option (Endpoint b)))
          → get_elem? m.objects dst ≡ o
          → OnReturn b (SameBlocks m) (
              (elim o [
                | none ↦ reads_outside
                | some p ↦ elim p [
                  | none ↦ returns (no_endpoint, m)
                  | some e ↦ returns (deliver b m dst src data_at len e)
                ]
              ]))
      found none q = tt
      found (some none) q = refl
      found (some (some e)) q = deliver-all_blocks m dst src len data_at e q

  Receives-all_blocks :
      (m : Module b) (i : ℕ) (e : Endpoint b) {out : Outcome (Received × Module b)}
      → get_elem? m.objects i ≡ some (some e)
      → Receives b m i e out
      → OnReturn b (SameBlocks m) out
  Receives-all_blocks m i e h (times_out c) = refl
  Receives-all_blocks m i e h (is_woken s u c) = omega (arith, held-set m.objects i (some e) _ h)
  Receives-all_blocks m i e h (gets x s r u c n) =
      omega (arith, held-set m.objects i (some e) _ h, free_gives m.heap, ap length n)

  Creates-all_blocks :
      (m : Module b) (reserved : ℕ) (mem : Bool) {out : Outcome (Option ℕ × Module b)}
      → Creates b m reserved mem out
      → OnReturn b (SameBlocks m) out
  Creates-all_blocks m reserved mem (gives_any i e f q lo hi) =
      omega (arith, held-set m.objects i none (some (new_endpoint b i)) q, ap length entries-create)
  Creates-all_blocks m reserved mem (gives_reserved i ne e f q le) =
      omega (arith, held-set m.objects i none (some (new_endpoint b i)) q, ap length entries-create)
  Creates-all_blocks m reserved mem (has_none_left e f) = refl
  Creates-all_blocks m reserved mem (is_refused ne f) = refl
  Creates-all_blocks m reserved mem (has_no_memory f) = refl

  delete-all_blocks :
      (m : Module b) (fuel i : ℕ) (e : Endpoint b)
      → Inv b m
      → get_elem? m.objects i ≡ some (some e)
      → length (entries e.queue) ≤ fuel
      → OnReturn b (SameBlocks m) (delete b m fuel (some e))
  unfolding delete
  delete-all_blocks m fuel i e v h le = elim (Bool-cases (m.cur_init == 0)) [
    | inl z ↦ rw (z, delete) tt
    | inr z ↦
        rw (z, delete, (v.each i e h).own_slot)
          (omega
            (arith, held-set m.objects i (some e) none h, blocks-discard fuel e.queue m.heap le))
  ]

  delete_null-all_blocks :
      (m : Module b) (fuel : ℕ) → OnReturn b (SameBlocks m) (delete b m fuel none)
  unfolding delete
  delete_null-all_blocks m fuel = elim (Bool-cases (m.cur_init == 0)) [
    | inl z ↦ rw (z, delete) tt
    | inr z ↦ rw (z, delete) refl
  ]

  unblock-all_blocks :
      (m : Module b) (i : ℕ) (e : Endpoint b)
      → get_elem? m.objects i ≡ some (some e)
      → all_blocks (unblock b m i e) ≡ all_blocks m
  unfolding unblock
  unblock-all_blocks m i e h = omega (arith, held-set m.objects i (some e) _ h)

  returned {ℓ} :
      {A : Type ℓ} (P : Module b → Type 0) (out : Outcome (A × Module b)) (r : A × Module b)
      → OnReturn b P out
      → out ≡ returns r
      → P r.1
  returned P out r h e = subst (OnReturn b P) e h

  -- Every call on a running module that returns keeps the invariant of the endpoints, and the blocks of
  -- the message heap, free or in a queue, stay as many as they were.
  pub Call-keeps :
      {m n : Module b}
      → Inv b m
      → m.cur_init ≢ 0
      → Call m n
      → Inv b n × (all_blocks n ≡ all_blocks m)
  Call-keeps {m} v up (creates reserved mem r e) = (
    returned (Inv b) _ r (create-Inv b m reserved mem v) e,
    returned (SameBlocks m) _ r
        (Creates-all_blocks m reserved mem (create-Creates b m reserved mem v.size up)) e,
  )
  Call-keeps {m} v up (sends dst src len data_at r e) = (
    returned (Inv b) _ r (send_local-Inv b m dst src len data_at v) e,
    returned (SameBlocks m) _ r (send_local-all_blocks m dst src len data_at) e,
  )
  Call-keeps {m} v up (receives i e r h q) =
      let s = recv-Receives b m i e v up h in
      (
        returned (Inv b) _ r (recv-Inv b m i e v h s) q,
        returned (SameBlocks m) _ r (Receives-all_blocks m i e h s) q,
      )
  Call-keeps {m} v up (unblocks i e h) = (unblock-Inv b m i e v h, unblock-all_blocks m i e h)
  Call-keeps {m} v up (deletes fuel i e r h le q) = (
    returned (Inv b) _ r (delete-Inv b m fuel (some e) v) q,
    returned (SameBlocks m) _ r (delete-all_blocks m fuel i e v h le) q,
  )
  Call-keeps {m} v up (deletes_null fuel r q) = (
    returned (Inv b) _ r (delete-Inv b m fuel none v) q,
    returned (SameBlocks m) _ r (delete_null-all_blocks m fuel) q,
  )

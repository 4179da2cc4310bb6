-- ===== src/MessageQCopy/Invariant.antt =====
-- The invariant of the endpoints: each object stands in the slot of its number, and unless it has been
-- unblocked its semaphore counts its queue. Every operation keeps it.
use benchmarks_m3_dsp_unopti.Base.{
  ℕ, ◌+◌, ◌≡◌, ◌≢◌, refl, sym, ap, subst, ◌∙◌, inl, inr, ◌==◌, Option, none, some, [], ◌∷◌, Bool,
  true, false, length, get_elem?, set, arith, length-set, get_elem?-set_self, get_elem?-set_ne,
  get_elem?-lt, length-replicate, eq_of_get_elem?-replicate, length-append, Bool-cases,
  Option-cases,
}
use native.Mathlib.Decide.{ℕ_discrete}
use mathlib.Core.Bool.{false≢true}
use benchmarks_m3_dsp_unopti.Bios.{Bios}
use benchmarks_m3_dsp_unopti.MessageQCopy.{
  Elem, no_endpoint, returns, reads_outside, max_objects, elem_size, Endpoint, Module, init,
  choose_slot, new_endpoint, create, give_slot, delete, deliver, send_local, unblock, OnReturn,
}

module _ (b : Bios Elem) where
  open b use {
    Sem, count, count-create, count-post, pend_cases, Fifo, entries, entries-create, entries-put,
    get_cases, sem_pend, fifo_get,
  }

  pub record IsSound (i : ℕ) (e : Endpoint b) : Type 0 where
    pub own_slot : e.queue_id ≡ i
    pub counted : e.is_unblocked ≡ false → count e.sem ≡ length (entries e.queue)

  pub record Inv (m : Module b) : Type 0 where
    pub size : length m.objects ≡ max_objects
    pub each : (i : ℕ) (e : Endpoint b) → get_elem? m.objects i ≡ some (some e) → IsSound i e

  abbrev pub SoundSlot : ℕ → Option (Endpoint b) → Type 0
  SoundSlot i none = Unit
  SoundSlot i (some e) = IsSound i e

  -- A slot that is overwritten by a sound object, or cleared.
  set_each :
      (m : Module b) (i : ℕ) (o : Option (Endpoint b))
      → Inv m
      → SoundSlot i o
      → (j : ℕ) (e : Endpoint b) → get_elem? (set m.objects i o) j ≡ some (some e)
      → IsSound j e
  set_each m i o v ok j e h = elim (ℕ_discrete i j) [
    | yes p ↦
        subst (λ k. IsSound k e) p
          (subst (SoundSlot i) {y = some e}
            (ground (
              arith,
              get_elem?-set_self m.objects i o (
                  omega (
                    arith,
                    get_elem?-lt (set m.objects i o) j (some e) h,
                    length-set m.objects i o,
                    p,
                  )),
              h,
              p,
            ))
            ok)
    | no p ↦ v.each j e (sym (get_elem?-set_ne m.objects i j o p) ∙ h)
  ]

  -- Whatever becomes of the heap and the reference count.
  pub put-Inv :
      (m n : Module b) (i : ℕ) (o : Option (Endpoint b))
      → Inv m
      → SoundSlot i o
      → n.objects ≡ set m.objects i o
      → Inv n
  put-Inv m n i o v ok e = record {
    size = ap length e ∙ length-set m.objects i o ∙ v.size;
    each = λ j x h. set_each m i o v ok j x (ap (λ l. get_elem? l j) (sym e) ∙ h);
  }

  pub same-Inv : (m n : Module b) → Inv m → n.objects ≡ m.objects → Inv n
  same-Inv m n v e = record {
    size = ap length e ∙ v.size;
    each = λ j x h. v.each j x (ap (λ l. get_elem? l j) (sym e) ∙ h);
  }

  pub unblock-Inv :
      (m : Module b) (i : ℕ) (e : Endpoint b)
      → Inv m
      → get_elem? m.objects i ≡ some (some e)
      → Inv (unblock b m i e)
  unfolding unblock
  unblock-Inv m i e v h =
      put-Inv m _ i _ v
        (record { own_slot = (v.each i e h).own_slot; counted = λ u. absurd (false≢true (sym u)) })
        refl

  new_endpoint-IsSound : (i : ℕ) → IsSound i (new_endpoint b i)
  new_endpoint-IsSound i = record {
    own_slot = refl;
    counted = λ u. count-create 0 ∙ ap length (sym entries-create);
  }

  pub create-Inv :
      (m : Module b) (reserved : ℕ) (mem : Bool) → Inv m → OnReturn b Inv (create b m reserved mem)
  unfolding create
  create-Inv m reserved mem v = elim (Bool-cases (m.cur_init == 0)) [
    | inl e ↦ rw (e, create) tt
    | inr e ↦ rw (e, create) (chosen (choose_slot b m reserved) mem)
  ]
    where
      chosen : (o : Option ℕ) (mem : Bool) → Inv (give_slot b m o mem).1
      chosen none mem = v
      chosen (some i) true = put-Inv m _ i _ v (new_endpoint-IsSound i) refl
      chosen (some i) false = v

  pub delete-Inv :
      (m : Module b) (fuel : ℕ) (o : Option (Endpoint b))
      → Inv m
      → OnReturn b Inv (delete b m fuel o)
  unfolding delete
  delete-Inv m fuel none v = elim (Bool-cases (m.cur_init == 0)) [
    | inl h ↦ rw (h, delete) tt
    | inr h ↦ rw (h, delete) v
  ]
  delete-Inv m fuel (some e) v = elim (Bool-cases (m.cur_init == 0)) [
    | inl h ↦ rw (h, delete) tt
    | inr h ↦ rw (h, delete) (put-Inv m _ e.queue_id none v tt refl)
  ]

  deliver-Inv :
      (m : Module b) (dst src len : ℕ) (data_at : ℕ → ℕ) (e : Endpoint b)
      → Inv m
      → get_elem? m.objects dst ≡ some (some e)
      → Inv (deliver b m dst src data_at len e).1
  unfolding deliver
  deliver-Inv m dst src len data_at e v h =
      elim (Option-cases (b.heap_alloc m.heap (len + elem_size))) [
        | inl n ↦ rw (n, deliver) v
        | inr (g, n) ↦
            rw (n, deliver)
              (put-Inv m _ dst _ v
                (record {
                  own_slot = (v.each dst e h).own_slot;
                  counted = λ u. omega (
                    arith,
                    count-post e.sem,
                    (v.each dst e h).counted u,
                    ap length (entries-put e.queue _),
                    length-append (entries e.queue) (_ ∷ []),
                  );
                })
                refl)
      ]

  pub send_local-Inv :
      (m : Module b) (dst src len : ℕ) (data_at : ℕ → ℕ)
      → Inv m
      → OnReturn b Inv (send_local b m dst src data_at len)
  unfolding send_local
  send_local-Inv m dst src len data_at v = elim (Bool-cases (m.cur_init == 0)) [
    | inl h ↦ rw (h, send_local) tt
    | inr h ↦ rw (h, send_local) (found (get_elem? m.objects dst) refl)
  ]
    where
      found :
          (o : Option (Option (Endpoint b)))
          → get_elem? m.objects dst ≡ o
          → OnReturn b Inv (
              (elim o [
                | none ↦ reads_outside
                | some p ↦ elim p [
                  | none ↦ returns (no_endpoint, m)
                  | some e ↦ returns (deliver b m dst src data_at len e)
                ]
              ]))
      found none q = tt
      found (some none) q = v
      found (some (some e)) q = deliver-Inv m dst src len data_at e v q

  -- The state after the first `MessageQCopy_init`.
  pub init-Inv : (m : Module b) (h : b.Heap) → m.cur_init ≡ 0 → Inv (init b m h)
  unfolding init
  init-Inv m h z =
      rw (z, init)
        (record {
          size = length-replicate {A = Option (Endpoint b)} max_objects none;
          each = λ i e q.
              absurd (no_object e (eq_of_get_elem?-replicate max_objects i none (some e) q));
        })
    where
      no_object : (e : Endpoint b) → some e ≢ none
      no_object e q = ground (arith, q)

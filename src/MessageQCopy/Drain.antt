-- ===== src/MessageQCopy/Drain.antt =====
-- The software interrupt empties the ring of the host's messages.
use benchmarks_m3_dsp_unopti.Base.{
  ℕ, zero, suc, ◌+◌, ◌^◌, ◌<◌, ◌≤◌, ◌≡◌, refl, sym, ap, subst, ◌∙◌, pos, map, some, List, [], ◌∷◌,
  ◌++◌, Bool, true, false, not, ◌||◌, length, arith,
}
use benchmarks_m3_dsp_unopti.Bios.{Bios}
use benchmarks_m3_dsp_unopti.MessageQCopy.{
  Elem, Status, Outcome, returns, aborts, reads_outside, Module,
}
use mathlib.Core.List.{append_assoc, append-nil}
use benchmarks_m3_dsp_unopti.VirtQueue.{
  VirtQueue, Vring, Desc, done, raised, incr16, get_avail_buf, rp_msg_buf_size, map_pa_to_va,
  clear_no_notify,
}
use benchmarks_m3_dsp_unopti.VirtQueue.Window.{ahead, between}
use benchmarks_m3_dsp_unopti.VirtQueue.Fifo.{available, used_from, IsValid}
use benchmarks_m3_dsp_unopti.VirtQueue.UsedRing.{used_from-add_used_buf, desc-add_used_buf}
use benchmarks_m3_dsp_unopti.VirtQueue.Traffic.{AreSmall}
use benchmarks_m3_dsp_unopti.VirtQueue.Taking.{entry, stop_lem, TakesFirst, take_lem}
use benchmarks_m3_dsp_unopti.MessageQCopy.Transport.{
  Msg, Link, give_back, pass_on, Drained, continue, swi_loop,
}

abbrev pub is_nil {ℓ} : {A : Type ℓ} → List A → Bool
is_nil [] = true
is_nil (x ∷ xs) = false

module _ (b : Bios Elem) where
  -- Messages handled one after the other, whatever status each gets.
  pub pass_all : Module b → List Msg → Outcome (Module b)
  pass_all m [] = returns m
  pass_all m (x ∷ xs) = elim (pass_on b m x) [
    | returns p ↦ pass_all p.1 xs
    | aborts ↦ aborts
    | reads_outside ↦ reads_outside
  ]

  -- The message in the buffer of a descriptor.
  abbrev pub msg_at : (ℕ → Msg) → (ℕ → Desc) → ℕ → Msg
  msg_at buffers desc h = buffers (map_pa_to_va (desc h).addr)

  module _ (buffers : ℕ → Msg) (desc : ℕ → Desc) (to_host : VirtQueue) (seen : ℕ) where
    -- The loop has ended with the ring empty and every descriptor of `hs` given back, in order.
    pub record Emptied (m : Module b) (l k : Link b) (hs : List ℕ) : Type 0 where
      pub state : k.state ≡ m
      pub nothing_left : available k.from_host ≡ []
      pub given_back : used_from k.from_host seen ≡ used_from l.from_host seen ++ map entry hs
      pub valid : IsValid k.from_host
      pub others : (k.to_host ≡ to_host) × (k.buffers ≡ buffers)

    pub Drains : Outcome (Module b) → Link b → Bool → List ℕ → Drained b → Type 0
    Drains aborts l added hs out = out ≡ some aborts
    Drains reads_outside l added hs out = out ≡ some reads_outside
    Drains (returns m) l added hs out =
        (k : Link b) × (out ≡ some (returns (added || not (is_nil hs), k))) × Emptied m l k hs

    or_false : (x : Bool) → (x || false) ≡ x
    or_false true = refl
    or_false false = refl

    or_true : (x : Bool) → (x || true) ≡ true
    or_true true = refl
    or_true false = refl

    -- One more round in front.
    one_more :
        (o : Outcome (Module b)) (l l' : Link b) (added : Bool) (h : ℕ) (hs : List ℕ)
        (out out' : Drained b)
        → out ≡ out'
        → used_from l'.from_host seen ≡ used_from l.from_host seen ++ entry h ∷ []
        → Drains o l' true hs out'
        → Drains o l added (h ∷ hs) out
    unfolding Drains
    one_more aborts l l' added h hs out out' e u d = e ∙ d
    one_more reads_outside l l' added h hs out out' e u d = e ∙ d
    one_more (returns m) l l' added h hs out out' e u (k, d, em) = (
      k,
      e ∙ d ∙ ap (λ x. some (returns (x, k))) (sym (or_true added)),
      record {
        state = em.state;
        nothing_left = em.nothing_left;
        given_back =
            em.given_back
            ∙ ap (λ x. x ++ map entry hs) u
            ∙ append_assoc (used_from l.from_host seen) (entry h ∷ []) (map entry hs);
        valid = em.valid;
        others = em.others;
      },
    )

    -- The rounds behind one whose local send ended as `r`.
    behind :
        (n : ℕ) (l : Link b) (added : Bool) (h : ℕ) (hs : List ℕ) (u : VirtQueue)
        (r : Outcome (Status × Module b)) (out : Drained b)
        → out ≡ continue b (λ k. swi_loop b n k true) (give_back b l u (pos h) r)
        → TakesFirst l.from_host h hs u
        → h < 256
        → ahead seen l.from_host.vring.used.idx < 256
        → seen < 2 ^ 16
        → ((m : Module b) (w : VirtQueue)
            → IsValid w
            → available w ≡ hs
            → w.vring.desc ≡ l.from_host.vring.desc
            → w.vring.used.idx ≡ incr16 l.from_host.vring.used.idx
            → let k = record l { state = m; from_host = w } in
              Drains (pass_all m (map (msg_at buffers desc) hs)) k true hs (swi_loop b n k true))
        → Drains
            (elim r [
              | returns p ↦ pass_all p.1 (map (msg_at buffers desc) hs)
              | aborts ↦ aborts
              | reads_outside ↦ reads_outside
            ])
            l
            added
            (h ∷ hs)
            out
    unfolding Drains
    behind n l added h hs u aborts out e t lt room ss next = e
    behind n l added h hs u reads_outside out e t lt room ss next = e
    behind n l added h hs u (returns p) out e t lt room ss next =
        let (w, given, used, av, v) =
          used_from-add_used_buf u h rp_msg_buf_size seen t.valid lt ss
            (subst (λ (x : Vring). ahead seen x.used.idx < 256) (sym t.vring_kept) room) in
        one_more (pass_all p.1 (map (msg_at buffers desc) hs)) l
          (record l { state = p.1; from_host = w }) added h hs out _
          (e
            ∙ ap
                (λ o.
                  continue b (λ k. swi_loop b n k true)
                    (elim o [
                      | done x ↦ returns (record l { state = p.1; from_host = x })
                      | raised ↦ aborts
                    ]))
                given)
          (used
            ∙ ap (λ (x : Vring). between x.used.ring seen x.used.idx ++ entry h ∷ []) t.vring_kept)
          (next p.1 w v (av ∙ t.rest)
            ((desc-add_used_buf u w h rp_msg_buf_size given).0
              ∙ ap (λ (x : Vring). x.desc) t.vring_kept)
            ((desc-add_used_buf u w h rp_msg_buf_size given).1
              ∙ ap (λ (x : Vring). incr16 x.used.idx) t.vring_kept))

    swi_loop-Drains :
        (n : ℕ) (l : Link b) (added : Bool) (hs : List ℕ)
        → length hs < n
        → IsValid l.from_host
        → available l.from_host ≡ hs
        → AreSmall hs
        → l.from_host.vring.desc ≡ desc
        → l.buffers ≡ buffers
        → l.to_host ≡ to_host
        → ahead seen l.from_host.vring.used.idx + length hs ≤ 256
        → seen < 2 ^ 16
        → Drains (pass_all l.state (map (msg_at buffers desc) hs)) l added hs (swi_loop b n l added)
    unfolding swi_loop pass_all Drains
    swi_loop-Drains zero l added hs lt v av sm ed eb et room ss = absurd (omega arith)
    swi_loop-Drains (suc n) l added [] lt v av sm ed eb et room ss =
        let c = stop_lem l.from_host v av in
        rw c (
          record l {
            from_host = record (l.from_host) { vring = clear_no_notify l.from_host.vring };
          },
          ap (λ x. some (returns (x, _))) (sym (or_false added)),
          record {
            state = refl;
            nothing_left = av;
            given_back = sym (append-nil _);
            valid = omega (arith, v);
            others = (et, eb);
          },
        )
    swi_loop-Drains (suc n) l added (h ∷ hs) lt v av sm ed eb et room ss =
        let t = take_lem l.from_host h hs v av sm.0 in
        rw t.calls (
          behind n l added h hs (get_avail_buf l.from_host).1
            (pass_on b l.state (msg_at buffers desc h)) _
            (ap
              (λ (x : Msg).
                continue b (λ k. swi_loop b n k true)
                  (give_back b l (get_avail_buf l.from_host).1 (pos h) (pass_on b l.state x)))
              (λ i. (eb i) (map_pa_to_va ((ed i) h).addr)))
            t sm.0 (omega arith) ss
            (λ m w v' av' ed' ei.
              swi_loop-Drains n (record l { state = m; from_host = w }) true hs (omega arith) v' av'
                sm.1 (ed' ∙ ed) eb et (omega (arith, ei, v.used16)) ss))

  -- `MessageQCopy_swiFxn` with more fuel than messages ends, with the ring of the host's messages
  -- empty: each message has been sent to its endpoint on this core, in the order of the ring, and each
  -- descriptor has been given back once, in that order, to a reader of the used ring with room for
  -- them. If one of the sends ends the program or reads outside the table of endpoints, so does the
  -- loop.
  pub swi_loop_lem :
      (fuel seen : ℕ) (l : Link b)
      → IsValid l.from_host
      → AreSmall (available l.from_host)
      → length (available l.from_host) < fuel
      → seen < 2 ^ 16
      → ahead seen l.from_host.vring.used.idx + length (available l.from_host) ≤ 256
      → Drains l.buffers l.from_host.vring.desc l.to_host seen
          (pass_all l.state (map (msg_at l.buffers l.from_host.vring.desc) (available l.from_host)))
          l
          false
          (available l.from_host)
          (swi_loop b fuel l false)
  swi_loop_lem fuel seen l v sm lt ss room =
      swi_loop-Drains l.buffers l.from_host.vring.desc l.to_host seen fuel l false
        (available l.from_host) lt v refl sm refl refl refl room ss

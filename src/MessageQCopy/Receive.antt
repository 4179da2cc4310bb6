-- ===== src/MessageQCopy/Receive.antt =====
-- What `MessageQCopy_recv` returns.
use benchmarks_m3_dsp_unopti.Base.{
  ℕ, suc, ◌≡◌, ◌≢◌, refl, sym, ap, ◌∙◌, inl, inr, ◌==◌, if◌then◌else◌, none, some, ◌∷◌, Bool, true,
  false, length, get_elem?, set, arith, Bool-cases, ==_iff,
}
use mathlib.Core.Bool.{false≢true}
use benchmarks_m3_dsp_unopti.Bios.{Bios}
use benchmarks_m3_dsp_unopti.MessageQCopy.{
  Elem, success, timed_out, unblocked, Outcome, returns, Endpoint, Module, put_object, Received,
  take_message, recv, OnReturn,
}
use benchmarks_m3_dsp_unopti.MessageQCopy.Invariant.{Inv, put-Inv}

module _ (b : Bios Elem) where
  open b use {
    Sem, count, count-create, count-post, pend_cases, Fifo, entries, entries-create, entries-put,
    get_cases, sem_pend, fifo_get,
  }

  -- What a call of `MessageQCopy_recv` on endpoint `i`, whose object is `e`, returns.
  pub data Receives (m : Module b) (i : ℕ) (e : Endpoint b)
      : Outcome (Received × Module b) → Type 0 where
    times_out :
        count e.sem ≡ 0
        → Receives m i e (returns (record { status = timed_out; message = none }, m))
    is_woken :
        (s : Sem)
        → e.is_unblocked ≡ true
        → count e.sem ≡ suc (count s)
        → Receives m i e (
            returns (
              record { status = unblocked; message = none },
              put_object b m i (some (record e { sem = s })),
            ))
    gets :
        (x : Elem) (s : Sem) (r : Fifo)
        → e.is_unblocked ≡ false
        → count e.sem ≡ suc (count s)
        → entries e.queue ≡ x ∷ entries r
        → Receives m i e (
            returns (
              record { status = success; message = some x },
              record m {
                heap = b.heap_free m.heap;
                objects = set m.objects i (some (record e { sem = s; queue = r }));
              },
            ))

  -- `MessageQCopy_recv` never finds the queue empty behind its semaphore, which would end the program:
  -- in a state that satisfies the invariant it times out with the semaphore at 0, returns
  -- MessageQCopy_E_UNBLOCKED on an endpoint that has been unblocked, and otherwise hands over the
  -- oldest message, takes it from the queue and gives its block back.
  pub recv-Receives :
      (m : Module b) (i : ℕ) (e : Endpoint b)
      → Inv b m
      → m.cur_init ≢ 0
      → get_elem? m.objects i ≡ some (some e)
      → Receives m i e (recv b m i e)
  unfolding recv take_message
  recv-Receives m i e v up h = elim (Bool-cases (m.cur_init == 0)) [
    | inl z ↦ absurd (up ((==_iff _ _).0 z))
    | inr z ↦
        rw (z, recv)
          (elim (pend_cases e.sem) [
            | inl (c, p) ↦ rw (p, recv) (times_out c)
            | inr (s, p, c) ↦ rw (p, recv) (woken s c e.is_unblocked refl)
          ])
  ]
    where
      taken :
          (s : Sem)
          → count e.sem ≡ suc (count s)
          → e.is_unblocked ≡ false
          → Receives m i e (take_message b m i (record e { sem = s }))
      taken s c u = elim (get_cases e.queue) [
        | inl (n, g) ↦ absurd (omega (arith, c, (v.each i e h).counted u, ap length n))
        | inr (x, r, g, n) ↦ rw (g, take_message) (gets x s r u c n)
      ]

      woken :
          (s : Sem)
          → count e.sem ≡ suc (count s)
          → (u : Bool) → e.is_unblocked ≡ u
          → Receives m i e (
              if u
              then returns (
                record { status = unblocked; message = none },
                put_object b m i (some (record e { sem = s })),
              )
              else take_message b m i (record e { sem = s }))
      woken s c true u = is_woken s u c
      woken s c false u = taken s c u

  -- Endpoint `i` with another queue and semaphore.
  put_sound :
      (m n : Module b) (i : ℕ) (e : Endpoint b) (s : Sem) (r : Fifo)
      → Inv b m
      → get_elem? m.objects i ≡ some (some e)
      → (e.is_unblocked ≡ false → count s ≡ length (entries r))
      → n.objects ≡ set m.objects i (some (record e { sem = s; queue = r }))
      → Inv b n
  put_sound m n i e s r v h c q =
      put-Inv b m n i _ v (record { own_slot = (v.each i e h).own_slot; counted = c }) q

  -- Whatever `MessageQCopy_recv` returns, it keeps the invariant.
  pub recv-Inv :
      (m : Module b) (i : ℕ) (e : Endpoint b) {out : Outcome (Received × Module b)}
      → Inv b m
      → get_elem? m.objects i ≡ some (some e)
      → Receives m i e out
      → OnReturn b (Inv b) out
  recv-Inv m i e v h (times_out c) = v
  recv-Inv m i e v h (is_woken s u c) =
      put_sound m _ i e s e.queue v h (λ f. absurd (false≢true (sym f ∙ u))) refl
  recv-Inv m i e v h (gets x s r u c n) =
      put_sound m _ i e s r v h (λ f. omega (arith, c, (v.each i e h).counted f, ap length n)) refl

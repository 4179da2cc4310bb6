-- ===== src/VirtQueue/Traffic.antt =====
-- Any interleaving of the host, which makes buffers available, and the core, which takes them.
use benchmarks_m3_dsp_unopti.Base.{
  ℕ, ◌<◌, ◌≡◌, ap, sym, subst, ◌∙◌, inl, inr, pos, negsuc, int16, List, [], ◌∷◌, ◌++◌, All, arith,
}
use mathlib.Core.List.{append_assoc, append-nil}
use benchmarks_m3_dsp_unopti.VirtQueue.{VirtQueue, Avail, Taken, get_avail_buf}
use benchmarks_m3_dsp_unopti.VirtQueue.Window.{ahead}
use benchmarks_m3_dsp_unopti.VirtQueue.Fifo.{
  available, IsValid, Publishes, with_avail, available-publish, get_avail_buf-Takes,
}

-- Traffic over a queue: `ps` is what the host made available on the way, `ts` the tokens that calls of
-- `VirtQueue_getAvailBuf` returned, both oldest first; the host names a
-- descriptor of the ring, and fills at most the ring.
pub data Traffic (q : VirtQueue) : List ℕ → List ℕ → VirtQueue → Type 0 where
  starts : Traffic q [] [] q
  publishes :
      {ps ts : List ℕ} {u : VirtQueue} (h : ℕ) (a : Avail)
      → Traffic q ps ts u
      → h < 256
      → ahead u.last_avail_idx u.vring.avail.idx < 256
      → Publishes h u.vring.avail a
      → Traffic q (ps ++ h ∷ []) ts (with_avail u a)
  takes :
      {ps ts : List ℕ} {u : VirtQueue} (h : ℕ)
      → Traffic q ps ts u
      → (get_avail_buf u).0.token ≡ pos h
      → Traffic q ps (ts ++ h ∷ []) (get_avail_buf u).1
  polls :
      {ps ts : List ℕ} {u : VirtQueue}
      → Traffic q ps ts u
      → (get_avail_buf u).0.token ≡ negsuc 0
      → Traffic q ps ts (get_avail_buf u).1

int16-pos : (g h : ℕ) → int16 g ≡ pos h → g ≡ h
int16-pos g h e = ground arith

-- The token that is returned is the descriptor that leaves the queue.
take_token :
    (q : VirtQueue) (h : ℕ)
    → IsValid q
    → (get_avail_buf q).0.token ≡ pos h
    → available q ≡ h ∷ available (get_avail_buf q).1
take_token q h v e = elim (get_avail_buf-Takes q v).0 [
  | inl (n, x, u) ↦ absurd (ground (arith, ap (λ (y : Taken). y.token) x))
  | inr (g, n, x, u) ↦
      n
      ∙ ap (λ k. k ∷ available (get_avail_buf q).1)
          (int16-pos g h (ap (λ (y : Taken). y.token) (sym x) ∙ e))
]

-- Descriptors of the ring.
abbrev pub AreSmall : List ℕ → Type 0
AreSmall = All (λ h. h < 256)

-- -1 is returned for no descriptor of the ring.
poll_none :
    (q : VirtQueue)
    → IsValid q
    → AreSmall (available q)
    → (get_avail_buf q).0.token ≡ negsuc 0
    → (available q ≡ []) × (available (get_avail_buf q).1 ≡ [])
poll_none q v small e = elim (get_avail_buf-Takes q v).0 [
  | inl (n, x, u) ↦ (n, rw u n)
  | inr (g, n, x, u) ↦
      absurd (ground (arith, subst AreSmall n small, ap (λ (y : Taken). y.token) x, e))
]

-- What holds all along.
record Keeps (q : VirtQueue) (ps ts : List ℕ) (u : VirtQueue) : Type 0 where
  valid : IsValid u
  small : AreSmall (available u)
  order : available q ++ ps ≡ ts ++ available u

AreSmall-push : (xs : List ℕ) (h : ℕ) → AreSmall xs → h < 256 → AreSmall (xs ++ h ∷ [])
AreSmall-push [] h a p = (p, tt)
AreSmall-push (x ∷ xs) h a p = (a.0, AreSmall-push xs h a.1 p)

Traffic-Keeps :
    {q : VirtQueue} {ps ts : List ℕ} {u : VirtQueue}
    → IsValid q
    → AreSmall (available q)
    → Traffic q ps ts u
    → Keeps q ps ts u
Traffic-Keeps {q} v s starts = record { valid = v; small = s; order = append-nil (available q) }
Traffic-Keeps {q} v s (publishes {ps} {ts} {u} h a tr hs room p) =
    let k = Traffic-Keeps v s tr in
    let w = available-publish u a h k.valid room p in
    record {
      valid = w.1;
      small = subst AreSmall (sym w.0) (AreSmall-push (available u) h k.small hs);
      order =
          sym (append_assoc (available q) ps (h ∷ []))
          ∙ ap (λ l. l ++ h ∷ []) k.order
          ∙ append_assoc ts (available u) (h ∷ [])
          ∙ ap (λ l. ts ++ l) (sym w.0);
    }
Traffic-Keeps {q} v s (takes {ps} {ts} {u} h tr e) =
    let k = Traffic-Keeps v s tr in
    let w = take_token u h k.valid e in
    record {
      valid = (get_avail_buf-Takes u k.valid).1;
      small = (subst AreSmall w k.small).1;
      order =
          k.order
          ∙ ap (λ l. ts ++ l) w
          ∙ sym (append_assoc ts (h ∷ []) (available (get_avail_buf u).1));
    }
Traffic-Keeps {q} v s (polls {ps} {ts} {u} tr e) =
    let k = Traffic-Keeps v s tr in
    let w = poll_none u k.valid k.small e in
    record {
      valid = (get_avail_buf-Takes u k.valid).1;
      small = rw w.1 tt;
      order = k.order ∙ ap (λ l. ts ++ l) (w.0 ∙ sym w.1);
    }

-- Over any traffic from a valid queue, what was available at first and what the host made available
-- since are, in order, the tokens that `VirtQueue_getAvailBuf` has returned and what is still
-- available: no buffer is lost, handed out twice, or overtaken. The queue stays valid.
pub Traffic-in_order :
    {q : VirtQueue} {ps ts : List ℕ} {u : VirtQueue}
    → IsValid q
    → AreSmall (available q)
    → Traffic q ps ts u
    → (available q ++ ps ≡ ts ++ available u) × IsValid u
Traffic-in_order v s tr = let k = Traffic-Keeps v s tr in (k.order, k.valid)

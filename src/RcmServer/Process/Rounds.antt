-- ===== src/RcmServer/Process/Rounds.antt =====
-- The buffer of the server's thread, which a dispatched packet stays in.
use benchmarks_m3_dsp_unopti.Base.{
  ℕ, zero, suc, ◌<◌, ◌≡◌, refl, ap, ◌∙◌, ltb, ◌==◌, List, [], ◌∷◌, ◌++◌, Bool, false, ◌&&◌, map,
  length, update, get_or, arith, ==_iff, ℤ, if_true, if_false,
}
use benchmarks_m3_dsp_unopti.RcmServer.Jobs.{
  Packet, Streams, found, push_at, make_ready, discrete_job_id, to_pool, dispatch, get_pool,
  raw_msg,
}
use benchmarks_m3_dsp_unopti.RcmServer.Process.{
  Instance, Thread, Round, goes_on, round, accept, handle, default_pool_id, after_dispatch,
}

-- What the workers of a pool will read.
abbrev pub waiting : (ℕ → Packet) → Streams → ℕ → List Packet
waiting packet_at s q = map packet_at (get_or s.ready q [])

map-append_one : (f : ℕ → Packet) (l : List ℕ) (a : ℕ) → map f (l ++ a ∷ []) ≡ map f l ++ f a ∷ []
map-append_one f [] a = refl
map-append_one f (x ∷ l) a = ap (λ r. f x ∷ r) (map-append_one f l a)

get_or-push_at :
    (ls : List (List ℕ)) (q a : ℕ)
    → q < length ls
    → get_or (push_at ls q a) q [] ≡ get_or ls q [] ++ a ∷ []
get_or-push_at [] q a h = elim h [ ]
get_or-push_at (l ∷ ls) zero a h = refl
get_or-push_at (l ∷ ls) (suc q) a h = get_or-push_at ls q a (omega arith)

get_pool-lt : (s : Streams) (id q : ℕ) → get_pool s id ≡ found q → q < length s.ready
unfolding get_pool
get_pool-lt s id q e = ground arith

accepted :
    (t : Thread) (len : ℕ) (p : Packet) (r : Round)
    → ltb 512 len ≡ false
    → p.hdr_type ≡ raw_msg
    → t.shutdown ≡ false
    → accept t len p r ≡ r
accepted t len p r fits raw up = rw (fits, raw, up) refl

module _ (call : ℕ → ℕ → ℕ × List ℕ → ℤ × (ℕ × List ℕ)) where
  -- A discrete message that the server's thread hands to a pool stays in the thread's buffer: when the
  -- next message has been received, the pool's workers find that one in its place. This is for a
  -- message of the type OMX_RAW_MSG that fits the buffer, a thread that is not shut down, a static
  -- pool that exists, and not the default pool of a server without workers.
  pub round-overwritten :
      (t : Thread) (i : Instance) (packet_at : ℕ → Packet) (has_memory : Bool) (len q : ℕ)
      (p next : Packet)
      → packet_at t.buffer ≡ p
      → ltb 512 len ≡ false
      → p.hdr_type ≡ raw_msg
      → t.shutdown ≡ false
      → p.job_id ≡ discrete_job_id
      → get_pool i.streams p.pool_id ≡ found q
      → ((p.pool_id == default_pool_id) && t.in_band) ≡ false
      → (s : Streams) × (round call t i packet_at has_memory len
          ≡ goes_on (record i { streams = s }) [])
        × (waiting packet_at s q ≡ waiting packet_at i.streams q ++ p ∷ [])
        × (waiting (update packet_at t.buffer next) s q
            ≡ waiting (update packet_at t.buffer next) i.streams q ++ next ∷ [])
  unfolding round dispatch
  round-overwritten t i packet_at has_memory len q p next at fits raw up discrete pool out = (
    make_ready i.streams q t.buffer,
    ap (λ x. accept t len x (handle call t i packet_at has_memory x)) at
        ∙ (accepted t len p _ fits raw up
            ∙ (if_false ((p.pool_id == default_pool_id) && t.in_band) _ _ out
                ∙ ap (after_dispatch i p) (
                    ap
                      (λ (x : Packet).
                        to_pool i.streams t.buffer x.job_id (get_pool i.streams x.pool_id))
                      at
                    ∙ (ap (to_pool i.streams t.buffer p.job_id) pool
                        ∙ if_true (p.job_id == discrete_job_id) _ _ ((==_iff _ _).1 discrete))))),
    ap (map packet_at) queue
        ∙ (map-append_one packet_at _ t.buffer
            ∙ ap (λ x. map packet_at (get_or i.streams.ready q []) ++ x ∷ []) at),
    ap (map (update packet_at t.buffer next)) queue
        ∙ (map-append_one _ _ t.buffer
            ∙ ap (λ x. map (update packet_at t.buffer next) (get_or i.streams.ready q []) ++ x ∷ [])
                (if_true (t.buffer == t.buffer) _ _ ((==_iff _ _).1 refl))),
  )
    where
      queue :
          get_or (push_at i.streams.ready q t.buffer) q []
          ≡ get_or i.streams.ready q [] ++ t.buffer ∷ []
      queue = get_or-push_at i.streams.ready q t.buffer (get_pool-lt i.streams p.pool_id q pool)

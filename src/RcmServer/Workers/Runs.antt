-- ===== src/RcmServer/Workers/Runs.antt =====
-- The states that the server's thread and the workers bring an instance to.
use benchmarks_m3_dsp_unopti.Base.{
  ℕ, ◌≡◌, refl, subst, inl, inr, ◌==◌, Option, none, some, List, [], ◌∷◌, ◌++◌, Bool, true, false,
  ℤ, update, get_or, Bool-cases, arith, both_branches,
}
use benchmarks_m3_dsp_unopti.RcmServer.Jobs as Jobs
use benchmarks_m3_dsp_unopti.RcmServer.Jobs.{
  Packet, Job, Pool, found, not_found, Error, discrete_job_id, acq_job_id, rel_job_id, admit,
  drop_job, new_job, search_id, take_job, passed, put_job, get_pool, Dispatched, dispatched, failed,
  wild_pool, dispatch, to_pool, to_stream,
}
use benchmarks_m3_dsp_unopti.RcmServer.Process.{
  Instance, Thread, Processed, done, wild, goes_on, round,
}
use benchmarks_m3_dsp_unopti.RcmServer.Workers as Workers
use benchmarks_m3_dsp_unopti.RcmServer.Workers.{
  Worker, Worked, works, returned, to_next, next_job, of_stream, finish, serve, wait, work,
}
use benchmarks_m3_dsp_unopti.RcmServer.Workers.Idle.{
  Idle, take_job-Idle, put_job-Idle, Processes, process-Idle, Rounds, round-Idle,
}

module _ (call : ℕ → ℕ → ℕ × List ℕ → ℤ × (ℕ × List ℕ)) (fails : Packet → Bool) where
  abbrev Serves : Worked → Type 0
  Serves (works i ps hand packet_at) = Idle i.streams.jobs
  Serves Workers.blocks = Unit
  Serves Workers.stops = Unit
  Serves Workers.breaks = Unit

  next_job-Idle :
      (i : Instance) (k : ℕ) (j : Job) (packet_at : ℕ → Packet) (l : List ℕ) (hand : Option ℕ)
      (ps : List Packet)
      → Idle i.streams.jobs
      → (j.is_empty ≡ true → l ≡ [])
      → Serves (next_job call fails i k j packet_at l hand ps)
  unfolding next_job
  next_job-Idle i k j packet_at [] hand ps v h = put_job-Idle i.streams.jobs k _ v (λ e. refl)
  next_job-Idle i k j packet_at (a ∷ left) hand ps v h =
      by_pool (fails (returned (packet_at a))) (get_pool i.streams (packet_at a).pool_id) _ (
        next_job-Idle i k j (update packet_at a (returned (packet_at a))) left (some a)
          (ps ++ returned (packet_at a) ∷ []) v busy)
    where
      busy : j.is_empty ≡ true → left ≡ []
      busy e = absurd (ground (arith, h e))

      by_pool :
          (b : Bool) (o : Pool) (again : Worked)
          → Serves again
          → Serves (to_next i k j packet_at a left ps b again o)
      by_pool b (found q) x w = put_job-Idle i.streams.jobs k _ v busy
      by_pool true not_found x w = w
      by_pool false not_found x w = put_job-Idle i.streams.jobs k _ v busy
      by_pool b Jobs.unset x w = tt

  work-Idle :
      (w : Worker) (i : Instance) (packet_at : ℕ → Packet) (m : Bool)
      → Idle i.streams.jobs
      → Serves (work call fails w i packet_at m)
  unfolding work
  work-Idle w i packet_at m v = waited w.packet
    where
      found_job :
          (j : Instance) (k : ℕ) (ps : List Packet) (o : Option (Job × List Job))
          → Idle j.streams.jobs
          → take_job j.streams.jobs k ≡ o
          → Serves (of_stream call fails j k packet_at ps o)
      found_job j k ps none u e = u
      found_job j k ps (some (l, ls)) u e =
          next_job-Idle j k l packet_at l.msg_que none ps u
            (take_job-Idle j.streams.jobs k l ls u e).0

      finished :
          (k : ℕ) (x : Processed) → Processes call x → Serves (finish call fails k packet_at x)
      finished k (wild ps) u = tt
      finished k (done j ps) u = elim (Bool-cases (k == discrete_job_id)) [
        | inl e ↦ rw (e, finish) u
        | inr e ↦ rw (e, finish) (found_job j k ps (take_job j.streams.jobs k) u refl)
      ]

      served :
          (j : Instance) (o : Option ℕ)
          → Idle j.streams.jobs
          → Serves (serve call fails j packet_at m o)
      served j none u = u
      served j (some a) u =
          finished (packet_at a).job_id _ (process-Idle call j packet_at m (packet_at a) u)

      waited : (o : Option ℕ) → Serves (wait call fails w i packet_at m o)
      waited (some a) = both_branches Serves w.terminate _ _ tt (served i (some a) v)
      waited none =
          both_branches Serves (get_or i.streams.sems w.pool 0 == 0) _ _ tt
            (both_branches Serves w.terminate _ _ tt (served _ _ v))

  -- Rounds of the server's thread and of any worker, in any order, with any packets.
  pub data Runs (i : Instance) : Instance → Type 0 where
    starts : Runs i i
    by_server :
        (j k : Instance) (t : Thread) (packet_at : ℕ → Packet) (m : Bool) (len : ℕ)
        (ps : List Packet)
        → Runs i j
        → round call t j packet_at m len ≡ goes_on k ps
        → Runs i k
    by_worker :
        (j k : Instance) (w : Worker) (packet_at left : ℕ → Packet) (m : Bool) (ps : List Packet)
        (hand : Option ℕ)
        → Runs i j
        → work call fails w j packet_at m ≡ works k ps hand left
        → Runs i k

  -- In every state that rounds of the server's thread and of the workers lead to, from one in which this
  -- holds, no packet waits in a job stream that is marked as empty, so that none is left behind: the
  -- next packet of such a stream goes to a ready queue at once.
  pub Runs-Idle : (i j : Instance) → Idle i.streams.jobs → Runs i j → Idle j.streams.jobs
  Runs-Idle i _ v starts = v
  Runs-Idle i _ v (by_server j k t packet_at m len ps r e) =
      subst (Rounds call) e (round-Idle call t j packet_at m len (Runs-Idle i j v r))
  Runs-Idle i _ v (by_worker j k w packet_at left m ps hand r e) =
      subst Serves e (work-Idle w j packet_at m (Runs-Idle i j v r))

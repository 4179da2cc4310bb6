-- ===== src/RcmServer/Creation/Ends.antt =====
-- How the creation of a server of RcmServer.c ends.
use benchmarks_m3_dsp_unopti.Base.{
  ℕ, ◌^◌, ◌≤◌, ◌≡◌, refl, sym, ◌∙◌, subst, inl, inr, ltb, if◌then◌else◌, Option, none, some, List,
  [], ◌∷◌, Bool, true, false, ◌&&◌, length, replicate, arith, Bool-cases, if_true, if_false,
}
use benchmarks_m3_dsp_unopti.RcmServer.Jobs.{Error, e_fail, e_no_memory}
use benchmarks_m3_dsp_unopti.RcmServer.Creation.{
  Params, Outcomes, Pool, raw, no_table, Parts, pool_map_len, counts, initial, open_pools, made,
  init_server, init_workers, no_parts, Pools, no_pools, table, tabled, finalize_parts,
  can_close_pools, init_pools, init_table, listed, instance_init, can_close_all, can_finalize,
  Created, created, failed, breaks, by_init, create,
}
use benchmarks_m3_dsp_unopti.RcmServer.Creation.Needs.{
  Unready, no_gate, no_job_list, no_pool_memory, no_pool_names, AllStaffed, HasFunctions, Ready,
  Lack, no_fxn_table, no_fxn_names, too_many_pools, no_run, no_queue, no_server_thread, fxn_parts,
  IsWhole, finalize_parts-no_parts,
}
use benchmarks_m3_dsp_unopti.RcmServer.Creation.Fresh.{Fresh, initial-Fresh}
use benchmarks_m3_dsp_unopti.RcmServer.Creation.Staff.{
  Opened, open_pools-Opened, Fails, PoolsEnd, staff_pools-PoolsEnd,
}

-- How a creation may end.
pub data Ends (ps : Params) (x : Outcomes) (has_memory : Bool) : Created → Type 0 where
  runs :
      (o : Parts)
      → has_memory ≡ true
      → Ready ps x
      → IsWhole ps o
      → Fresh (initial ps)
      → Ends ps x has_memory (created (initial ps) o)
  no_object : has_memory ≡ false → Ends ps x has_memory (failed e_no_memory no_parts)
  cleans : (e : Error) → has_memory ≡ true → Lack ps x e → Ends ps x has_memory (failed e no_parts)
  crashes : has_memory ≡ true → Unready x → Ends ps x has_memory breaks

module _ (ps : Params) (x : Outcomes) (few : length ps.fxns ≤ 2 ^ 16) where
  abbrev EndsWell : Option Error × Parts → Type 0
  EndsWell r = Ends ps x true (by_init ps r)

  stops : (e : Error) (o : Parts) → Fails ps x e (can_finalize o) → EndsWell (some e, o)
  stops e o h = by_test (can_finalize o) refl h
    where
      by_test :
          (b : Bool)
          → can_finalize o ≡ b
          → Fails ps x e b
          → Ends ps x true (if b then failed e (finalize_parts o) else breaks)
      by_test true q p =
          subst (λ u. Ends ps x true (failed e u)) (sym (finalize_parts-no_parts o q))
            (cleans e refl p)
      by_test false q p = crashes refl p

  after_call :
      (b : Bool) (e : Error) (o : Parts) (r : Option Error × Parts)
      → (b ≡ false → Fails ps x e (can_finalize o))
      → (b ≡ true → EndsWell r)
      → EndsWell (made b e o r)
  after_call true e o r h k = k refl
  after_call false e o r h k = stops e o (h refl)

  module _ (gate : x.makes_gate ≡ true) (job_list : x.makes_job_list ≡ true) where
    -- The list of the jobs of an object is as it was made.
    abbrev Listed : Parts → Type 0
    Listed o = o.job_list ≡ x.makes_job_list

    -- With this list an object can be finalized if its pools can.
    closes :
        (e : Error) (o : Parts) (p : Pools)
        → Listed o
        → Fails ps x e (can_close_pools p)
        → Fails ps x e (o.job_list && can_close_pools p)
    closes e o p l h = subst (λ c. Fails ps x e (c && can_close_pools p)) (sym (l ∙ job_list)) h

    with_server :
        (names : Bool) (o : Parts) (r : Option Error × List Pool)
        → Listed o
        → o.gate ≡ true
        → o.fxns ≡ fxn_parts ps.fxns
        → PoolsEnd ps x (counts ps) 0 r
        → (AllStaffed x (counts ps) 0
            → x.makes_run ≡ true
            → x.makes_queue ≡ true
            → x.makes_server_thread ≡ true
            → Ready ps x)
        → EndsWell (init_server x names o r)
    with_server names o (some e, l) i g w h f =
        stops e (record o { pools = table names l }) (closes e o (table names l) i h)
    with_server names o (none, l) i g w (h, c) f =
        let ok : (e : Error) → Lack ps x e → Fails ps x e (can_close_all l) =
          λ e k. subst (Fails ps x e) (sym c) k in
        after_call x.makes_run e_fail _ _
          (λ q. closes e_fail o (table names l) i (ok e_fail (no_run q)))
          λ r.
            after_call x.makes_queue e_fail _ _
              (λ q. closes e_fail o (table names l) i (ok e_fail (no_queue q)))
              λ q.
                after_call x.makes_server_thread e_fail _ _
                  (λ z. closes e_fail o (table names l) i (ok e_fail (no_server_thread z)))
                  λ t.
                    runs _ refl (f h r q t)
                      (record {
                        gate = g;
                        job_list = i ∙ job_list;
                        fxns = w;
                        pools = c;
                        run = r;
                        queue = q;
                        server_thread = t;
                      })
                      (initial-Fresh ps few)

    with_pools :
        (o : Parts)
        → Listed o
        → o.gate ≡ true
        → o.pools ≡ no_pools
        → HasFunctions x ps.fxns
        → o.fxns ≡ fxn_parts ps.fxns
        → EndsWell (init_pools ps x o)
    with_pools o i g none_yet fs w = elim (Bool-cases (ltb pool_map_len (length (counts ps)))) [
      | inl e ↦ subst EndsWell (sym (if_true (ltb pool_map_len (length (counts ps))) _ _ e)) (
          stops e_no_memory o (
            closes e_no_memory o o.pools i (
              subst (λ p. Fails ps x e_no_memory (can_close_pools p)) (sym none_yet)
                (too_many_pools (ground (arith, e))))))
      | inr e ↦ subst EndsWell (sym (if_false (ltb pool_map_len (length (counts ps))) _ _ e)) (
          after_call x.has_pools e_no_memory _ _
            (λ q. closes e_no_memory o no_table i (no_pool_memory q))
            λ p.
              after_call x.has_pool_names e_no_memory _ _
                (λ q.
                  closes e_no_memory o (table x.has_pool_names (replicate (length (counts ps)) raw))
                    i (no_pool_names q))
                λ n.
                  with_workers (ground (arith, e)) p n
                    (open_pools x.makes_semaphore (length (counts ps)) 0)
                    (open_pools-Opened x (length (counts ps)) 0))
    ]
      where
        with_workers :
            length (counts ps) ≤ 4
            → x.has_pools ≡ true
            → x.has_pool_names ≡ true
            → (r : Bool × List Pool) → Opened x (length (counts ps)) 0 r
            → EndsWell (init_workers ps x x.has_pool_names o r)
        with_workers few_pools p n (false, l) (h, c) =
            stops e_fail (record o { pools = table x.has_pool_names l })
              (closes e_fail o (table x.has_pool_names l) i (subst (Fails ps x e_fail) (sym c) h))
        with_workers few_pools p n (true, l) h =
            with_server x.has_pool_names o _ i g w (staff_pools-PoolsEnd ps x (counts ps) 0)
              (λ s r q t. record {
                gate = gate;
                job_list = job_list;
                functions = fs;
                few_pools = few_pools;
                pools = p;
                pool_names = n;
                sems = h;
                staffed = s;
                run = r;
                queue = q;
                server_thread = t;
              })

    with_functions :
        (fs : List (List ℕ × ℕ))
        → (HasFunctions x fs → EndsWell (init_pools ps x (tabled fs x (listed x))))
        → EndsWell (init_table fs x (listed x) (init_pools ps x (tabled fs x (listed x))))
    with_functions [] k = k tt
    with_functions (f ∷ fs) k =
        after_call x.has_table e_no_memory _ _
          (λ q. closes e_no_memory (listed x) no_pools refl (no_fxn_table q))
          λ t.
            after_call x.has_names e_no_memory _ _
              (λ q. closes e_no_memory (listed x) no_pools refl (no_fxn_names q)) λ n. k (t, n)

    tabled-gate : (fs : List (List ℕ × ℕ)) → (tabled fs x (listed x)).gate ≡ true
    tabled-gate [] = gate
    tabled-gate (f ∷ fs) = gate

    tabled-fxns :
        (fs : List (List ℕ × ℕ)) → HasFunctions x fs → (tabled fs x (listed x)).fxns ≡ fxn_parts fs
    tabled-fxns [] h = refl
    tabled-fxns (f ∷ fs) (t, n) = rw (t, n) refl

    tabled-Listed : (fs : List (List ℕ × ℕ)) → Listed (tabled fs x (listed x))
    tabled-Listed [] = refl
    tabled-Listed (f ∷ fs) = refl

    tabled-no_pools : (fs : List (List ℕ × ℕ)) → (tabled fs x (listed x)).pools ≡ no_pools
    tabled-no_pools [] = refl
    tabled-no_pools (f ∷ fs) = refl

  -- RcmServer_create, with 2 ^ 16 static functions at most, ends in one of three ways. It makes an
  -- instance whose tables, job ids and streams are as the other functions need them, and that only if
  -- every call that it makes succeeds and there are four pools at most. It fails for lack of what the
  -- error's code says, and nothing is left of what it has made. Or it breaks in the finalization of an
  -- object that lacks a part, and that only when the gate, the list of the jobs, the memory for the pools
  -- or their names, a semaphore of a pool or a thread of a worker could not be made.
  pub create-Ends : (has_memory : Bool) → Ends ps x has_memory (create ps x has_memory)
  unfolding create instance_init
  create-Ends false = no_object refl
  create-Ends true = after_call x.makes_gate e_fail _ _ no_gate λ g.
      after_call x.makes_job_list e_fail _ _ (λ q. without_list q)
        λ j. with_functions g j ps.fxns λ h.
          with_pools g j _ (tabled-Listed g j ps.fxns) (tabled-gate g j ps.fxns)
            (tabled-no_pools g j ps.fxns) h (tabled-fxns g j ps.fxns h)
    where
      without_list : x.makes_job_list ≡ false → Fails ps x e_fail (can_finalize (listed x))
      without_list q = subst (λ b. Fails ps x e_fail (b && true)) (sym q) (no_job_list q)

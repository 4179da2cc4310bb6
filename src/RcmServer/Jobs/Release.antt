-- ===== src/RcmServer/Jobs/Release.antt =====
-- The release of a job stream.
use benchmarks_m3_dsp_unopti.Base.{
  ℕ, ◌≡◌, ◌≢◌, refl, sym, ap, ◌∙◌, subst, inl, inr, ◌==◌, if◌then◌else◌, Option, none, some, List,
  [], ◌∷◌, ◌++◌, true, false, arith, Bool-cases, Option-cases, map, ==_iff, none-some, if_true,
  if_false,
}
use mathlib.Core.Option.{some-injective}
use benchmarks_m3_dsp_unopti.RcmServer.Jobs.{
  Packet, Job, Streams, Error, job_id_not_found, is_used, unprocessed, take_job, passed, drop_job,
  rel_job_id,
}
use benchmarks_m3_dsp_unopti.RcmServer.Jobs.Ids.{Distinct, Sound}

take_job-none : (js : List Job) (k : ℕ) → take_job js k ≡ none → is_used js k ≡ false
unfolding take_job
take_job-none [] k e = refl
take_job-none (j ∷ js) k e = elim (Bool-cases (j.job_id == k)) [
  | inl y ↦ absurd (none-some _ (sym e ∙ if_true (j.job_id == k) _ _ y))
  | inr y ↦
      if_false (j.job_id == k) _ _ y
      ∙ take_job-none js k (behind (take_job js k) (sym (if_false (j.job_id == k) _ _ y) ∙ e))
]
  where
    behind : (o : Option (Job × List Job)) → passed j o ≡ none → o ≡ none
    behind none q = refl
    behind (some x) q = absurd (none-some _ (sym q))

-- The streams without one of them.
pub record Without (js : List Job) (k : ℕ) (j : Job) (is : List Job) : Type 0 where
  pub before : List Job
  pub behind : List Job
  pub was : js ≡ before ++ j ∷ behind
  pub left : is ≡ before ++ behind
  pub its_id : j.job_id ≡ k
  pub gone : is_used is k ≡ false
  pub others : (i : ℕ) → i ≢ k → is_used is i ≡ is_used js i
  pub distinct : Distinct is

take_job-Without :
    (js : List Job) (k : ℕ) (j : Job) (is : List Job)
    → Distinct js
    → take_job js k ≡ some (j, is)
    → Without js k j is
unfolding take_job
take_job-Without [] k j is d e = absurd (none-some _ e)
take_job-Without (l ∷ js) k j is (f, p, d) e = elim (Bool-cases (l.job_id == k)) [
  | inl y ↦
      let q = some-injective _ _ (sym (if_true (l.job_id == k) _ _ y) ∙ e) in
      subst (λ x. Without (l ∷ js) k x.0 x.1) q
        (record {
          before = [];
          behind = js;
          was = refl;
          left = refl;
          its_id = (==_iff _ _).0 y;
          gone = subst (λ x. is_used js x ≡ false) ((==_iff _ _).0 y) f;
          others = λ i n. sym (if_false (l.job_id == i) _ _ (ground (arith, n, y)));
          distinct = d;
        })
  | inr y ↦
      let shown = sym (if_false (l.job_id == k) _ _ y) ∙ e in
      behind (take_job js k) refl shown (λ i ms q. take_job-Without js k i ms d q)
        (λ q. absurd (ground (arith, y, q)))
]
  where
    behind :
        (o : Option (Job × List Job))
        → take_job js k ≡ o
        → passed l o ≡ some (j, is)
        → ((i : Job) (ms : List Job) → take_job js k ≡ some (i, ms) → Without js k i ms)
        → l.job_id ≢ k
        → Without (l ∷ js) k j is
    behind none g q ih ne = absurd (none-some _ q)
    behind (some (i, ms)) g q ih ne =
        let w = ih i ms g in
        subst (λ x. Without (l ∷ js) k x.0 x.1) (some-injective _ _ q)
          (record {
            before = l ∷ w.before;
            behind = w.behind;
            was = ap (λ x. l ∷ x) w.was;
            left = ap (λ x. l ∷ x) w.left;
            its_id = w.its_id;
            gone = if_false (l.job_id == k) _ _ (ground (arith, ne)) ∙ w.gone;
            others = λ m n. ap (λ b. if l.job_id == m then true else b) (w.others m n);
            distinct = (w.others l.job_id ne ∙ f, p, w.distinct);
          })

-- What `RcmServer_relJobId_P` returns.
pub data Releases (s : Streams) (packet_at : ℕ → Packet) (k : ℕ)
    : (Option Error × List Packet) × Streams → Type 0 where
  no_stream : is_used s.jobs k ≡ false → Releases s packet_at k ((some job_id_not_found, []), s)
  releases :
      (j : Job) (js : List Job)
      → Without s.jobs k j js
      → Releases s packet_at k
          ((none, map (λ a. unprocessed (packet_at a)) j.msg_que), record s { jobs = js })

-- RcmServer_relJobId_P, where the ids of the streams are distinct, removes the stream with the id, so
-- that the id is free again, leaves the others as they are and in order, and sends every packet in the
-- queue of the removed stream back, in order and with the status for an unprocessed one; it fails only
-- if no stream has the id. The ids stay distinct.
pub rel_job_id-Releases :
    (s : Streams) (packet_at : ℕ → Packet) (k : ℕ)
    → Sound s
    → Releases s packet_at k (rel_job_id s packet_at k) × Sound (rel_job_id s packet_at k).1
unfolding rel_job_id
rel_job_id-Releases s packet_at k v = elim (Option-cases (take_job s.jobs k)) [
  | inl e ↦ rw (e, drop_job) (no_stream (take_job-none s.jobs k e), v)
  | inr ((j, js), e) ↦
      let w = take_job-Without s.jobs k j js v.distinct e in
      rw (e, drop_job) (releases j js w, record { tracker = v.tracker; distinct = w.distinct })
]

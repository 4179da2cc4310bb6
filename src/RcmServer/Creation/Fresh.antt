-- ===== src/RcmServer/Creation/Fresh.antt =====
-- A new server of RcmServer.c is as the other functions need it.
use benchmarks_m3_dsp_unopti.Base.{
  ℕ, zero, suc, ◌^◌, ◌<◌, ◌≤◌, ◌≡◌, refl, sym, ap, ◌∙◌, subst, Option, none, some, List, [], ◌∷◌,
  length, map, replicate, get_elem?, arith, none-some, eq_of_get_elem?-replicate,
}
use mathlib.Core.Option.{some-injective}
use benchmarks_m3_dsp_unopti.RcmServer.{Slot, slot_in, slot_at}
use benchmarks_m3_dsp_unopti.RcmServer.Symbols.{Sound}
use benchmarks_m3_dsp_unopti.RcmServer.Jobs.Ids as Ids
use benchmarks_m3_dsp_unopti.RcmServer.Process.{Instance}
use benchmarks_m3_dsp_unopti.RcmServer.Workers.Idle.{Idle}
use benchmarks_m3_dsp_unopti.RcmServer.Creation.{Params, slot_of, static_table, initial}

-- What the other theorems on the server assume of an instance.
pub record Fresh (i : Instance) : Type 0 where
  pub tables : Sound i.syms
  pub ids : Ids.Sound i.streams
  pub idle : Idle i.streams.jobs

length-map : (fs : List (List ℕ × ℕ)) → length (map slot_of fs) ≡ length fs
length-map [] = refl
length-map (f ∷ fs) = ap suc (length-map fs)

static-fits :
    (fs : List (List ℕ × ℕ)) (t : List Slot)
    → length fs ≤ 2 ^ 16
    → static_table fs ≡ some t
    → length t ≤ 2 ^ 16
static-fits [] t h e = absurd (none-some t e)
static-fits (f ∷ fs) t h e =
    subst (λ n. n ≤ 2 ^ 16) (sym (length-map (f ∷ fs)) ∙ ap length (some-injective _ _ e)) h

-- Of the other tables there are none.
no_dynamic :
    (o : Option (List Slot)) (i : ℕ) (t : List Slot)
    → 0 < i
    → get_elem? (o ∷ replicate 8 none) i ≡ some (some t)
    → ⊥
no_dynamic o zero t h e = omega (arith, h)
no_dynamic o (suc i) t h e = none-some t (sym (eq_of_get_elem?-replicate 8 i none (some t) e))

no_slot :
    (o : Option (List Slot)) (i j : ℕ) (u : Slot)
    → 0 < i
    → slot_at (o ∷ replicate 8 none) i j ≡ some u
    → ⊥
no_slot o i j u h e = by_table (get_elem? (o ∷ replicate 8 none) i) refl e
  where
    by_table :
        (p : Option (Option (List Slot)))
        → get_elem? (o ∷ replicate 8 none) i ≡ p
        → slot_in p j ≡ some u
        → ⊥
    by_table none q r = none-some u r
    by_table (some none) q r = none-some u r
    by_table (some (some t)) q r = no_dynamic o i t h q

pub initial-Fresh : (ps : Params) → length ps.fxns ≤ 2 ^ 16 → Fresh (initial ps)
initial-Fresh ps h = record {
  tables = record {
    tables = refl;
    static_fits = λ t e. static-fits ps.fxns t h (some-injective _ _ e);
    dynamic_fits = λ i t lo e. absurd (no_dynamic (static_table ps.fxns) i t lo e);
    keys = λ i j u n lo e name. absurd (no_slot (static_table ps.fxns) i j u lo e);
    next = omega arith;
  };
  ids = record { tracker = (omega arith, omega arith); distinct = tt };
  idle = tt;
}

-- ===== src/VirtQueue/Taking.antt =====
-- The oldest buffer of the available ring, and none.
use benchmarks_m3_dsp_unopti.Base.{
  ℕ, ◌<◌, ◌≡◌, sym, ap, ◌∙◌, inl, inr, ℤ, pos, negsuc, int16, none, some, List, [], ◌∷◌, arith,
}
use benchmarks_m3_dsp_unopti.VirtQueue.{
  VirtQueue, UsedElem, get_avail_buf, rp_msg_buf_size, map_pa_to_va, clear_no_notify,
}
use benchmarks_m3_dsp_unopti.VirtQueue.Fifo.{available, IsValid, get_avail_buf-Takes}

-- The entry by which a descriptor is given back.
abbrev pub entry : ℕ → UsedElem
entry h = record { id = h; len = rp_msg_buf_size }

pub stop_lem :
    (q : VirtQueue)
    → IsValid q
    → available q ≡ []
    → get_avail_buf q
      ≡ (record { token = negsuc 0; buf = none }, record q { vring = clear_no_notify q.vring })
stop_lem q v av = elim (get_avail_buf-Takes q v).0 [
  | inl (n, x, u) ↦ λ i. (x i, u i)
  | inr (h, n, x, u) ↦ absurd (ground (arith, sym av ∙ n))
]

-- What is taken when `h` is the oldest.
pub record TakesFirst (q : VirtQueue) (h : ℕ) (hs : List ℕ) (u : VirtQueue) : Type 0 where
  pub calls : get_avail_buf q ≡ (
    record { token = pos h; buf = some (map_pa_to_va (q.vring.desc h).addr, (q.vring.desc h).len) },
    u,
  )
  pub vring_kept : u.vring ≡ q.vring
  pub rest : available u ≡ hs
  pub valid : IsValid u

int16-small : (h : ℕ) → h < 256 → int16 h ≡ pos h
int16-small h lt = ground (arith, lt)

pub take_lem :
    (q : VirtQueue) (h : ℕ) (hs : List ℕ)
    → IsValid q
    → available q ≡ h ∷ hs
    → h < 256
    → TakesFirst q h hs (get_avail_buf q).1
take_lem q h hs v av lt = elim (get_avail_buf-Takes q v).0 [
  | inl (n, x, u) ↦ absurd (ground (arith, sym n ∙ av))
  | inr (g, n, x, u) ↦
      let e : g ≡ h = head_eq (sym n ∙ av) in
      record {
        calls = λ i. (
          (x
                ∙ ap
                    (λ (k : ℕ). record {
                      token = int16 k;
                      buf = some (map_pa_to_va (q.vring.desc k).addr, (q.vring.desc k).len);
                    })
                    e
                ∙ ap
                    (λ (z : ℤ). record {
                      token = z;
                      buf = some (map_pa_to_va (q.vring.desc h).addr, (q.vring.desc h).len);
                    })
                    (int16-small h lt))
              i,
          (get_avail_buf q).1,
        );
        vring_kept = u;
        rest = tail_eq (sym n ∙ av);
        valid = (get_avail_buf-Takes q v).1;
      }
]
  where
    head_eq : {g : ℕ} {gs : List ℕ} → g ∷ gs ≡ h ∷ hs → g ≡ h
    head_eq e = ground (arith, e)

    tail_eq : {g : ℕ} {gs : List ℕ} → g ∷ gs ≡ h ∷ hs → gs ≡ hs
    tail_eq e = ground (arith, e)

-- ===== src/MessageQCopy/RemoteSend.antt =====
-- The remote half of `MessageQCopy_send`: what reaches the host, and when the call waits.
use benchmarks_m3_dsp_unopti.Base.{
  ℕ, ◌^◌, ◌<◌, ◌≡◌, refl, sym, ap, subst, ◌∙◌, pos, update, none, some, List, [], ◌∷◌, ◌++◌, arith,
}
use benchmarks_m3_dsp_unopti.Bios.{Bios}
use benchmarks_m3_dsp_unopti.MessageQCopy.{Elem, success, returns}
use benchmarks_m3_dsp_unopti.VirtQueue.{
  VirtQueue, Vring, Avail, done, get_avail_buf, add_used_buf, kick, rp_msg_buf_size, map_pa_to_va,
  clear_no_notify,
}
use benchmarks_m3_dsp_unopti.VirtQueue.Window.{ahead, between}
use benchmarks_m3_dsp_unopti.VirtQueue.Fifo.{with_avail, available, used_from, IsValid}
use benchmarks_m3_dsp_unopti.VirtQueue.UsedRing.{used_from-add_used_buf}
use benchmarks_m3_dsp_unopti.MessageQCopy.Transport.{Link, write_msg, send_remote}
use benchmarks_m3_dsp_unopti.VirtQueue.Taking.{TakesFirst, stop_lem, take_lem, entry}

module _ (b : Bios Elem) (l : Link b) (dst src len : ℕ) (data_at : ℕ → ℕ) where
  -- With a free buffer the call succeeds at once: the buffer of the oldest free descriptor holds the
  -- message with its header, no other buffer has changed, the descriptor is on the used ring, and the
  -- host is interrupted unless it does not want to be.
  pub send_remote_sends :
      (events : List Avail) (h : ℕ) (hs : List ℕ) (seen : ℕ)
      → IsValid l.to_host
      → available l.to_host ≡ h ∷ hs
      → h < 256
      → seen < 2 ^ 16
      → ahead seen l.to_host.vring.used.idx < 256
      → (w : VirtQueue) × (send_remote b events l dst src data_at len
          ≡ some (
              returns (record {
                status = success;
                interrupt = kick w;
                link = record l {
                  to_host = w;
                  buffers =
                      (let a = map_pa_to_va (l.to_host.vring.desc h).addr in
                        update l.buffers a (write_msg b (l.buffers a) dst src data_at len));
                };
              })))
        × (available w ≡ hs)
        × (used_from w seen ≡ used_from l.to_host seen ++ entry h ∷ [])
        × IsValid w
  unfolding send_remote
  send_remote_sends events h hs seen v av lt ss room =
      let t = take_lem l.to_host h hs v av lt in
      let (w, given, used, av', v') =
        used_from-add_used_buf (get_avail_buf l.to_host).1 h rp_msg_buf_size seen t.valid lt ss
          (subst (λ (x : Vring). ahead seen x.used.idx < 256) (sym t.vring_kept) room) in
      (
        w,
        sent events t w given,
        av' ∙ t.rest,
        used ∙ ap (λ (x : Vring). between x.used.ring seen x.used.idx ++ entry h ∷ []) t.vring_kept,
        v',
      )
    where
      sent :
          (events : List Avail)
          → TakesFirst l.to_host h hs (get_avail_buf l.to_host).1
          → (w : VirtQueue)
          → add_used_buf (get_avail_buf l.to_host).1 (pos h) rp_msg_buf_size ≡ done w
          → send_remote b events l dst src data_at len
            ≡ some (
                returns (record {
                  status = success;
                  interrupt = kick w;
                  link = record l {
                    to_host = w;
                    buffers =
                        (let a = map_pa_to_va (l.to_host.vring.desc h).addr in
                          update l.buffers a (write_msg b (l.buffers a) dst src data_at len));
                  };
                }))
      sent [] t w given = rw t.calls (ground (arith, given))
      sent (a ∷ events) t w given = rw t.calls (ground (arith, given))

  -- Without one it waits: it returns only after the host has done something, and then tries again on
  -- the ring as the host has left it, with the host asked to notify.
  pub send_remote_waits :
      (events : List Avail) (a : Avail)
      → IsValid l.to_host
      → available l.to_host ≡ []
      → (send_remote b [] l dst src data_at len ≡ none)
        × (send_remote b (a ∷ events) l dst src data_at len
            ≡ send_remote b events
                (record l {
                  to_host =
                      with_avail (record (l.to_host) { vring = clear_no_notify l.to_host.vring }) a;
                })
                dst
                src
                data_at
                len)
  unfolding send_remote
  send_remote_waits events a v av = let c = stop_lem l.to_host v av in (rw c refl, rw c refl)

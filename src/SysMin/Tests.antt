-- ===== src/SysMin/Tests.antt =====
-- A trace buffer of 24 bytes, 16 of them for characters, with lines of at most 8 characters and a tick
-- period of a millisecond.
use benchmarks_m3_dsp_unopti.Base.{ℕ, ◌≡◌, refl, List, [], ◌∷◌, true, false, replicate, arith}
use benchmarks_m3_dsp_unopti.SysMin.{
  Trace, newline, startup, putch, put_all, stamp, stamp_loop, period_zeros,
}
use benchmarks_m3_dsp_unopti.SysMin.Ring.{Logs, log_putch, onto, putch-Logs}
use benchmarks_m3_dsp_unopti.SysMin.Lines.{empty_log, startup-Logs, put_all-line}

-- Every time is shown as seventeen ones.
abbrev ones : ℕ → List ℕ
ones usec = replicate 17 49

abbrev before : Trace
before = record { outbuf = replicate 16 7; outidx = 0; line = []; get_time = false; write_idx = 3 }

abbrev started : Trace
started = startup 24 before

started-Logs : Logs 24 8 1000 ones started (empty_log 24 8 1000 ones)
started-Logs =
    startup-Logs 24 8 1000 ones before (omega arith) (omega arith) refl (omega arith) refl

putch-Logs_example :
    Logs 24 8 1000 ones
      (putch 24 8 1000 ones 5 97 started)
      (log_putch 24 8 1000 ones 5 97 (empty_log 24 8 1000 ones))
putch-Logs_example =
    putch-Logs 24 8 1000 ones 5 97 started (empty_log 24 8 1000 ones) (omega arith) (omega arith)
      (startup-Logs 24 8 1000 ones before (omega arith) (omega arith) refl (omega arith) refl)

put_all-line_example :
    Logs 24 8 1000 ones (put_all 24 8 1000 ones ((5, 97) ∷ (6, newline) ∷ []) started) (record {
      written = onto (97 ∷ newline ∷ []) (onto (stamp 24 8 1000 ones 5) []);
      line = [];
      get_time = true;
    })
put_all-line_example =
    put_all-line 24 8 1000 ones 5 97 6 [] started [] (omega arith)
      ((λ e. absurd (omega (arith, e))), tt) (omega arith) started-Logs

-- The time of a millisecond period: ten characters and the point.
stamp_run :
    stamp 24 8 1000 ones 5
    ≡ 91 ∷ 49 ∷ 49 ∷ 49 ∷ 49 ∷ 49 ∷ 49 ∷ 49 ∷ 46 ∷ 49 ∷ 49 ∷ 49 ∷ 93 ∷ 32 ∷ []
unfolding stamp stamp_loop period_zeros
stamp_run = refl

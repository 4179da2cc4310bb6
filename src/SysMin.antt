-- ===== src/SysMin.antt =====
-- common/src/ti/trace/SysMin.c without SMP: the trace buffer, a ring of characters to which whole lines
-- are copied, each with the time of its first character.
pub mod Ring
pub mod Lines
mod Tests
use benchmarks_m3_dsp_unopti.Base.{
  ℕ, zero, suc, ◌+◌, ◌-◌, ◌*◌, ◌%◌, ◌^◌, ltb, leb, ◌==◌, if◌then◌else◌, List, [], ◌∷◌, ◌++◌, Bool,
  true, false, ◌&&◌, ◌||◌, set, length, get_or, replicate,
}

-- `SysMin_Module_State`: `line` is the line buffer up to `lineidx`.
pub record Trace : Type 0 where
  pub outbuf : List ℕ
  pub outidx : ℕ
  pub line : List ℕ
  pub get_time : Bool
  pub write_idx : ℕ

abbrev pub newline : ℕ
newline = 10

-- The characters [, ], space, point and 0.
abbrev pub open_bracket : ℕ
open_bracket = 91

abbrev pub close_bracket : ℕ
close_bracket = 93

abbrev pub space : ℕ
space = 32

abbrev pub point : ℕ
point = 46

abbrev pub digit_zero : ℕ
digit_zero = 48

-- `SysMin_Module_startup`. It clears 8 bytes more than the ring has, which hold the indices.
abbrev pub startup : ℕ → Trace → Trace
startup buf_size t =
    if buf_size == 0
    then record t { get_time = true }
    else record t { outbuf = replicate (length t.outbuf) 0; write_idx = 0; get_time = true }

-- The index at which the ring begins again; the last 8 bytes hold the indices for the reader.
abbrev pub limit : ℕ → ℕ
limit buf_size = (buf_size + 2 ^ 32 - 8) % 2 ^ 32

-- `SysMin_output`
unfoldable pub output : ℕ → ℕ → Trace → Trace
output buf_size ch t = record t {
  outbuf = set t.outbuf t.outidx ch;
  outidx = if t.outidx + 1 == limit buf_size then 0 else t.outidx + 1;
}

unfoldable pub output_all : ℕ → List ℕ → Trace → Trace
output_all buf_size [] t = t
output_all buf_size (c ∷ cs) t = output_all buf_size cs (output buf_size c t)

-- How many powers of ten divide the tick period: the loop with `n` rounds left.
unfoldable pub period_zeros : ℕ → ℕ → ℕ → ℕ
period_zeros zero power period = 0
period_zeros (suc n) power period =
    let rest = period_zeros n (power * 10) period in if period % power == 0 then suc rest else 0

-- The loop over the characters of the time, with `n` left from `index` on.
unfoldable pub stamp_loop : ℕ → ℕ → List ℕ → List ℕ
stamp_loop zero index text = []
stamp_loop (suc n) index text =
    let ch =
      if (get_or text index 0 == space) && leb 10 index then digit_zero else get_or text index 0 in
    let rest = stamp_loop n (index + 1) text in if index == 11 then point ∷ ch ∷ rest else ch ∷ rest

-- `print` is what sprintf makes of a time, in 17 characters.
module _ (buf_size line_size period : ℕ) (print : ℕ → List ℕ) where
  abbrev pub time_text : ℕ → List ℕ
  time_text usec = if usec == 0 then replicate 17 space else print usec

  -- The time in front of a line.
  unfoldable pub stamp : ℕ → List ℕ
  stamp usec =
      let zeros = period_zeros 6 10 period in
      open_bracket
        ∷ stamp_loop ((18 - (zeros + 1)) - (11 - (4 + zeros))) (11 - (4 + zeros)) (time_text usec)
      ++ close_bracket ∷ space ∷ []

  abbrev pub put_time : ℕ → Trace → Trace
  put_time usec t =
      if t.get_time then record (output_all buf_size (stamp usec) t) { get_time = false } else t

  abbrev pub put_line : ℕ → Trace → Trace
  put_line ch t =
      let u = output_all buf_size t.line t in
      if (ch == newline) || leb line_size (length t.line)
      then record u { line = []; get_time = true; write_idx = u.outidx }
      else t

  -- `SysMin_putch` at a time.
  unfoldable pub putch : ℕ → ℕ → Trace → Trace
  putch usec ch t =
      if buf_size == 0
      then t
      else put_line ch (put_time usec (record t { line = t.line ++ ch ∷ [] }))

  -- Characters with their times, as from `SysMin_abort`.
  unfoldable pub put_all : List (ℕ × ℕ) → Trace → Trace
  put_all [] t = t
  put_all ((usec, ch) ∷ cs) t = put_all cs (putch usec ch t)

-- ===== src/Barrier.antt =====
-- The spinning barriers of common/m3.c and common/dsp.c: `callBarrier`, over pairs of words in memory
-- that the cores share, and `callLocalBarrier`, over two globals of one core. Each call is a critical
-- section (hardware spinlock or semaphore), then a loop that reads the counter until it has the
-- value that the critical section chose. The critical section is one step here.
pub mod Invariant
pub mod Safety
pub mod Overtaken
pub mod Memory
mod Tests
use benchmarks_m3_dsp_unopti.Base.{
  ℕ, suc, ◌+◌, ◌*◌, ◌%◌, ◌^◌, ◌≡◌, ℤ, neg, incr, decr, is_pos, eq_ℤ, pos, ◌==◌, if◌then◌else◌,
  Option, none, some, List, length, get_elem?, set, replicate, Bool, not,
}

-- `barrier_addr[2 * indx]` and `barrier_addr[2 * indx + 1]`; `local_barrier_counter` and
-- `local_barrier_sense`.
pub record Cell : Type 0 where
  pub counter : ℤ
  pub sense : ℤ

-- The end of the critical section: the arrival that brings the counter to its goal turns the sense.
unfoldable pub turn : Cell → ℤ → Cell
turn c goal = if eq_ℤ c.counter goal then record c { sense = neg c.sense } else c

-- The critical section. Its second part is `barrier_count`, the value that the caller then waits for.
unfoldable pub arrive : Cell → Cell × ℤ
unfolding turn
arrive c =
    if is_pos c.sense
    then (turn (record c { counter = decr c.counter }) (pos 0), pos 0)
    else (turn (record c { counter = incr c.counter }) (neg c.sense), neg c.sense)

-- The shared words from `BARRIER_CNTR_BASE` on, by index.
abbrev pub Words : Type 0
Words = ℕ → ℤ

abbrev pub write : Words → ℕ → ℤ → Words
write m a v b = if a == b then v else m b

-- `real_indx`
abbrev pub real_indx : ℕ → ℕ
real_indx indx = 2 * indx % 2 ^ 32

abbrev pub cell : Words → ℕ → Cell
cell m indx = record { counter = m (real_indx indx); sense = m (real_indx indx + 1) }

-- `callBarrier` up to `unlock`, in memory.
unfoldable pub call_barrier : Words → ℕ → Words × ℤ
call_barrier m indx =
    let (c, goal) = arrive (cell m indx) in
    (write (write m (real_indx indx) c.counter) (real_indx indx + 1) c.sense, goal)

-- A thread at a barrier: how often it has entered and left it, and the value that it spins for,
-- when it does.
pub record Thread : Type 0 where
  pub entered : ℕ
  pub left : ℕ
  pub spins : Option ℤ

pub record System : Type 0 where
  pub shared : Cell
  pub threads : List Thread

-- Thread `i`, in state `t`, runs the critical section.
unfoldable pub enter : System → ℕ → Thread → System
enter s i t =
    let (c, goal) = arrive s.shared in
    record {
      shared = c;
      threads = set s.threads i (record t { entered = suc t.entered; spins = some goal });
    }

-- Thread `i`, in state `t`, has seen its value and returns.
unfoldable pub leave : System → ℕ → Thread → System
leave s i t = record s { threads = set s.threads i (record t { left = suc t.left; spins = none }) }

-- The scheduler picks any thread that can move: one outside the barrier may enter it, and one that
-- spins returns when the counter has its value. (A turn of the loop that sees another value changes
-- nothing.)
pub data Step (s : System) : System → Type 0 where
  enters :
      (i : ℕ) (t : Thread) → get_elem? s.threads i ≡ some t → t.spins ≡ none → Step s (enter s i t)
  leaves :
      (i : ℕ) (t : Thread)
      → get_elem? s.threads i ≡ some t
      → t.spins ≡ some s.shared.counter
      → Step s (leave s i t)

pub data Reach (s : System) : System → Type 0 where
  here : Reach s s
  next : {t u : System} → Reach s t → Step t u → Reach s u

-- How the words stand between two rounds of `n` threads, after an even number of rounds (the counter
-- is at 0 and goes up) and after an odd number (it is at `n` and goes down). `main` of m3.c starts
-- the local barrier with both words at 2, the odd case.
abbrev pub resting : ℕ → ℕ → Cell
resting n r =
    if r % 2 == 0
    then record { counter = pos 0; sense = neg (pos n) }
    else record { counter = pos n; sense = pos n }

-- `n` threads outside the barrier, after `r` rounds.
abbrev pub start : ℕ → ℕ → System
start n r = record {
  shared = resting n r;
  threads = replicate n (record { entered = r; left = r; spins = none });
}

-- ===== src/RcmServer/Tests.antt =====
-- RcmServer.c on concrete inputs: a server with one static function, `f`, and calls that return 0.
use benchmarks_m3_dsp_unopti.Base.{
  ℕ, zero, suc, ◌+◌, ◌*◌, ◌^◌, ◌<◌, ◌≡◌, refl, sym, ap, ◌==◌, if◌then◌else◌, Option, none, some,
  List, [], ◌∷◌, ◌++◌, true, false, replicate, get_elem?, arith, eq_of_get_elem?-replicate,
  none-some, ℤ, pos, update, length,
}
use mathlib.Core.Option.{some-injective}
use benchmarks_m3_dsp_unopti.RcmServer.{
  Slot, Server, success, calls, unset, invalid, get_fxn_addr, get_sym_idx, add_symbol,
  remove_symbol, find_slot, find_free, find_name, sym_from, next_key, slot_at, slot_in,
  symbol_static,
}
use benchmarks_m3_dsp_unopti.RcmServer.Symbols.{Sound}
use benchmarks_m3_dsp_unopti.RcmServer.Indices.{get_fxn_addr-add_symbol, get_sym_idx-add_symbol}
use benchmarks_m3_dsp_unopti.RcmServer.Removal.{get_fxn_addr-remove_symbol}
use benchmarks_m3_dsp_unopti.RcmServer.Invariant.{add_symbol-Sound, remove_symbol-Sound}
use benchmarks_m3_dsp_unopti.RcmServer.Jobs.{
  Packet, Streams, acq_job_id, rel_job_id, get_pool, found,
}
use benchmarks_m3_dsp_unopti.RcmServer.Jobs.Ids.{acq_job_id-Acquires, Acquires}
use benchmarks_m3_dsp_unopti.RcmServer.Jobs.Ids
use benchmarks_m3_dsp_unopti.RcmServer.Jobs.Release.{rel_job_id-Releases, Releases}
use benchmarks_m3_dsp_unopti.RcmServer.Process.{Instance, Thread, goes_on, round, process}
use benchmarks_m3_dsp_unopti.RcmServer.Process.Replies.{Replied, process-Replied}
use benchmarks_m3_dsp_unopti.RcmServer.Process.Rounds.{round-overwritten, waiting}

abbrev fresh : Server
fresh = record {
  fxn_tab = some (record { name = some (102 ∷ []); addr = 0x100; key = 0 } ∷ []) ∷ replicate 8 none;
  key = 0;
}

fresh-Sound : Sound fresh
fresh-Sound = record {
  tables = refl;
  static_fits = λ t e. omega (arith, ap length (some-injective _ _ (some-injective _ _ e)));
  dynamic_fits = λ i t lo e. absurd (no_table i t lo e);
  keys = λ i j u n lo e. absurd (no_slot i j u lo e);
  next = omega arith;
}
  where
    no_table : (i : ℕ) (t : List Slot) → 0 < i → get_elem? fresh.fxn_tab i ≡ some (some t) → ⊥
    no_table zero t lo e = omega (arith, lo)
    no_table (suc i) t lo e = none-some t (sym (eq_of_get_elem?-replicate 8 i none (some t) e))

    by_table :
        (i j : ℕ) (u : Slot) (o : Option (Option (List Slot)))
        → 0 < i
        → get_elem? fresh.fxn_tab i ≡ o
        → slot_in o j ≡ some u
        → ⊥
    by_table i j u none lo p e = none-some u e
    by_table i j u (some none) lo p e = none-some u e
    by_table i j u (some (some t)) lo p e = no_table i t lo p

    no_slot : (i j : ℕ) (u : Slot) → 0 < i → slot_at fresh.fxn_tab i j ≡ some u → ⊥
    no_slot i j u lo e = by_table i j u (get_elem? fresh.fxn_tab i) lo refl e

-- The names `g` and `h` are added.
abbrev with_g : Server
with_g = (add_symbol fresh (103 ∷ []) 0x200 true true).1

abbrev with_h : Server
with_h = (add_symbol with_g (104 ∷ []) 0x300 true true).1

abbrev index_h : ℕ
index_h = 0x7FE * 2 ^ 20 + 2 ^ 12 + 1

add_symbol-Sound_example : Sound with_g
add_symbol-Sound_example = add_symbol-Sound fresh (103 ∷ []) 0x200 true true fresh-Sound

with_h-Sound : Sound with_h
with_h-Sound =
    add_symbol-Sound with_g (104 ∷ []) 0x300 true true
      (add_symbol-Sound fresh (103 ∷ []) 0x200 true true fresh-Sound)

remove_symbol-Sound_example : Sound (remove_symbol with_h (104 ∷ [])).1
remove_symbol-Sound_example = remove_symbol-Sound with_h (104 ∷ []) with_h-Sound

add_h : add_symbol with_g (104 ∷ []) 0x300 true true ≡ ((success, some index_h), with_h)
unfolding add_symbol find_slot find_free next_key
add_h = refl

-- The first slot of a dynamic table is never called.
add_g : get_fxn_addr with_g (0x7FF * 2 ^ 20 + 2 ^ 12) ≡ unset
unfolding add_symbol find_slot find_free next_key get_fxn_addr
add_g = refl

get_fxn_addr-add_symbol_example : get_fxn_addr with_h index_h ≡ calls 0x300
get_fxn_addr-add_symbol_example =
    get_fxn_addr-add_symbol with_g with_h (104 ∷ []) 0x300 index_h true true
      (add_symbol-Sound fresh (103 ∷ []) 0x200 true true fresh-Sound) add_h

no_h : get_sym_idx with_g (104 ∷ []) ≡ none
unfolding add_symbol find_slot find_free next_key get_sym_idx sym_from find_name
no_h = refl

get_sym_idx-add_symbol_example : get_sym_idx with_h (104 ∷ []) ≡ some index_h
get_sym_idx-add_symbol_example =
    get_sym_idx-add_symbol with_g with_h (104 ∷ []) 0x300 index_h true true
      (add_symbol-Sound fresh (103 ∷ []) 0x200 true true fresh-Sound) no_h add_h

remove_h : (remove_symbol with_h (104 ∷ [])).0 ≡ success
unfolding add_symbol find_slot find_free next_key get_sym_idx sym_from find_name remove_symbol
remove_h = refl

remove_f : (remove_symbol with_h (102 ∷ [])).0 ≡ symbol_static
unfolding add_symbol find_slot find_free next_key get_sym_idx sym_from find_name remove_symbol
remove_f = refl

get_fxn_addr-remove_symbol_example :
    get_fxn_addr (remove_symbol with_h (104 ∷ [])).1 index_h ≡ invalid
get_fxn_addr-remove_symbol_example =
    get_fxn_addr-remove_symbol with_h (104 ∷ []) index_h with_h-Sound
      (get_sym_idx-add_symbol with_g with_h (104 ∷ []) 0x300 index_h true true
        (add_symbol-Sound fresh (103 ∷ []) 0x200 true true fresh-Sound) no_h add_h)
      remove_h

-- A message with a function index in a stream, from a client that wants the job id 2.
abbrev message : ℕ → ℕ → ℕ → Packet
message kind idx job = record {
  hdr_type = 5;
  hdr_len = 24;
  desc = kind * 2 ^ 8;
  msg_id = 7;
  pool_id = 0x8000;
  job_id = job;
  fxn_idx = idx;
  result = pos 0;
  data_size = 4;
  word = 9;
  words = [];
}

-- The stream 2 has one packet in its queue; the last id was the largest.
abbrev streams : Streams
streams = record {
  last_id = 0xFFFF;
  jobs = record { job_id = 2; is_empty = false; msg_que = 1 ∷ [] } ∷ [];
  ready = [] ∷ [];
  sems = 0 ∷ [];
}

abbrev packets : ℕ → Packet
packets a = message 1 index_h (if a == 1 then 2 else 0)

streams-Sound : Ids.Sound streams
streams-Sound = record { tracker = (omega arith, omega arith); distinct = (refl, omega arith, tt) }

acq_job_id-Acquires_example :
    Acquires streams true (acq_job_id streams true) × Ids.Sound (acq_job_id streams true).1
acq_job_id-Acquires_example = acq_job_id-Acquires streams true streams-Sound

rel_job_id-Releases_example :
    Releases streams packets 2 (rel_job_id streams packets 2)
    × Ids.Sound (rel_job_id streams packets 2).1
rel_job_id-Releases_example = rel_job_id-Releases streams packets 2 streams-Sound

-- Every function returns 0 and leaves the data as they were.
abbrev returns_zero : ℕ → ℕ → ℕ × List ℕ → ℤ × (ℕ × List ℕ)
returns_zero a size d = (pos 0, d)

abbrev instance_h : Instance
instance_h = record { syms = with_h; streams = streams }

process-Replied_example :
    Replied returns_zero instance_h packets true
      (message 1 index_h 0)
      (process returns_zero instance_h packets true (message 1 index_h 0))
process-Replied_example = process-Replied returns_zero packets true instance_h (message 1 index_h 0)

abbrev thread : Thread
thread = record { buffer = 3; shutdown = false; in_band = false }

pool_zero : get_pool streams 0x8000 ≡ found 0
unfolding get_pool
pool_zero = refl

round-overwritten_example :
    (s : Streams) × (round returns_zero thread instance_h packets true 40
      ≡ goes_on (record instance_h { streams = s }) [])
    × (waiting packets s 0 ≡ waiting packets streams 0 ++ message 1 index_h 0 ∷ [])
    × (waiting (update packets 3 (message 5 0 0)) s 0
        ≡ waiting (update packets 3 (message 5 0 0)) streams 0 ++ message 5 0 0 ∷ [])
round-overwritten_example =
    round-overwritten returns_zero thread instance_h packets true 40 0 (message 1 index_h 0)
      (message 5 0 0) refl refl refl refl refl pool_zero refl

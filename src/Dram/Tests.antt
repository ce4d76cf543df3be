-- ===== src/Dram/Tests.antt =====
-- A small LPDDR4 channel of two ranks, with round times, and an x8 HyperBus memory.
mod Requests
use k9r.Base.{
  ℕ, ◌/◌, ◌<◌, ◌≤◌, ◌≡◌, refl, Array, List, [], ◌∷◌, some, none, Bool, true, false, All, arith,
  ◌==◌, if◌then◌else◌, not, ◌||◌, ◌⊎◌,
}
use k9r.Dram.{Params, Channel}
use k9r.Dram.Mapping.{
  Field, parsed, log2_from, parse_fields, first_missing, parse_mapping, decode_fields, decode,
}
use k9r.Dram.Mapping.Parse.{IsMapping, parse_mapping-IsMapping}
use k9r.Dram.Mapping.RoundTrip.{decode_injective}
use k9r.Dram.Refresh.{refresh_end, refresh_one, refresh}
use k9r.Dram.Refresh.Each.{refresh_each, refresh-each}
use k9r.Dram.Plan.{Stats, idle_bank}
use k9r.Dram.Plan.Legal.{Op, burst, refresh_by, Apart, Spaced, empty_log, run, run_legal}
use k9r.Dram.Burst.{Engine, channel_of}
use k9r.Dram.Burst.Ends.{burst-ends}
use k9r.Dram.Queue.{Limits, Queue, is_queued, queued}
use k9r.Dram.Queue.Steps.{logged, IsKept}
use k9r.Dram.Queue.Sent.{queued-IsKept}
use k9r.Dram.Queue.Backing.{engine_memory}
use k9r.Dram.Hyper.{low_ps, chunks}
use k9r.Dram.Hyper.Chunks.{sum, chunks-tcsm}

abbrev pub lpddr : Params
lpddr = record {
  ctrl_ps = 20000;
  granule = 64;
  channels = 1;
  ranks = 2;
  bankgroups = 1;
  banks = 8;
  rows = 16;
  page_bytes = 128;
  width_bits = 16;
  burst_length = 16;
  mtps = 3200;
  t_ck = 625;
  t_rcd = 18000;
  t_rp = 18000;
  t_rpab = 21000;
  t_ras = 42000;
  t_rc = 60000;
  t_rl = 17500;
  t_wl = 8750;
  t_rrd_s = 10000;
  t_rrd_l = 10000;
  t_faw = 40000;
  t_ccd_s = 5000;
  t_ccd_l = 5000;
  t_wtr_s = 10000;
  t_wtr_l = 10000;
  t_rtw = 15000;
  t_rtw_l = 0;
  t_wr = 18000;
  t_rtp = 7500;
  t_refi = 3904000;
  t_rfc = 280000;
  hb_ck_ps = 5000;
  hb_ca_clks = 3;
  hb_lat_clks = 7;
  hb_fixed_2x = 1;
  hb_bus_bytes = 1;
  hb_csm_ps = 4000000;
  hb_rwr_ps = 35000;
}

-- "RoRaBaCo"
abbrev pub mapping : List ℕ
mapping = 82 ∷ 111 ∷ 82 ∷ 97 ∷ 66 ∷ 97 ∷ 67 ∷ 111 ∷ []

abbrev pub mapped : List Field
mapped =
    record { id = 0; bits = 4 }
    ∷ record { id = 1; bits = 1 }
    ∷ record { id = 3; bits = 3 }
    ∷ record { id = 4; bits = 2 }
    ∷ []

abbrev pub all_seen : Array Bool
all_seen = λ j.
    if j == 4
    then true
    else if j == 3
    then true
    else if j == 1
    then true
    else if j == 0
    then true
    else false

accepted : parse_mapping lpddr mapping ≡ parsed mapped all_seen
unfolding parse_mapping parse_fields first_missing log2_from
accepted = refl

mapping_names_all : IsMapping lpddr mapped
mapping_names_all = parse_mapping-IsMapping lpddr mapping mapped all_seen accepted

decode_injective_example : 100 / 32 ≡ 127 / 32
unfolding log2_from decode decode_fields
decode_injective_example =
    decode_injective lpddr mapped 100 127
      (parse_mapping-IsMapping lpddr mapping mapped all_seen accepted).distinct (omega arith)
      (omega arith) refl

-- A row is open in the first bank. Five refreshes are due by 20 us.
abbrev channel : Channel
channel = record {
  banks = record idle_bank { open_row = some 3; act = some 100 } ∷ idle_bank ∷ [];
  order = 0;
  bus_free = 0;
  last_col = none;
  last_col_rank = none;
  last_col_bg = none;
  last_was_write = false;
  last_write_end = none;
  last_act = none;
  last_act_rank = none;
  last_act_bg = none;
  faw = λ r. [];
  next_refresh = 3904000;
}

abbrev idle_for : ℕ
idle_for = 20000000

five : (refresh_each lpddr idle_for 6 (channel, 0)).1 ≡ 5
unfolding refresh_each refresh_one refresh_end
five = refl

refresh-each_example :
    (refresh lpddr 20000000 (channel, 0) ≡ refresh_each lpddr 20000000 20000001 (channel, 0))
    × (20000000 < (refresh lpddr 20000000 (channel, 0)).0.next_refresh)
refresh-each_example = refresh-each lpddr 20000000 20000001 (channel, 0) (omega arith) (omega arith)

abbrev no_bursts : Stats
no_bursts = record { bursts = 0; row_hits = 0; row_misses = 0; row_conflicts = 0; busy_ps = 0 }

-- A read of row `r` of bank `b`.
abbrev reads : ℕ → ℕ → Op
reads r b = burst (λ j. if j == 0 then r else if j == 3 then b else 0) false 0

abbrev ops : List Op
ops = reads 1 0 ∷ reads 1 0 ∷ refresh_by 4000000 ∷ reads 2 0 ∷ reads 2 1 ∷ []

run_legal_example :
    let l = (run lpddr ops (channel, no_bursts, empty_log)).2 in
    Apart l.transfers × ((r : ℕ) → Spaced 40000 (l.acts r))
run_legal_example = run_legal lpddr ops channel no_bursts (λ r. refl)

abbrev pub engine : Engine
engine = record { chan = λ i. channel; stats = no_bursts; refreshes = 0 }

-- The burst arrives after the second refresh is due, just before the third.
burst-ends_example :
    (fuel : ℕ) × (r : Engine × ℕ) × (col : ℕ) × (k9r.Dram.Burst.burst lpddr mapped fuel 11700000 100
        false engine
      ≡ some r)
    × ((r.0.chan (channel_of (decode lpddr mapped 100))).last_col ≡ some col)
    × (col < (r.0.chan (channel_of (decode lpddr mapped 100))).next_refresh)
burst-ends_example = burst-ends lpddr mapped 11700000 100 false engine (omega arith)

abbrev pub limits : Limits
limits = record { wq_depth = 32; wq_high = 16; wq_low = 8; t_ck = 625 }

-- A write waits to 256, and another is on its way out.
abbrev writes : Queue (Engine × List ℕ)
writes = record {
  engine = (engine, 128 ∷ []);
  wq = record { arrive = 0; addr = 256 } ∷ [];
  leaving = 40000 ∷ [];
  merged = 0;
  forwarded = 0;
}

queued-IsKept_example :
    let after =
      (queued (logged (engine_memory lpddr mapped (omega arith))) limits 0 512 true writes).0 in
    (IsKept (128 ∷ 256 ∷ []) 32 16 after × ((not true || is_queued 512 after.wq) ≡ true))
    ⊎ ((true ≡ true) × IsKept (128 ∷ 256 ∷ 512 ∷ []) 32 16 after)
queued-IsKept_example =
    queued-IsKept (engine_memory lpddr mapped (omega arith)) limits (128 ∷ 256 ∷ []) 0 512 true
      writes (omega arith) (omega arith)
      record { fifo = refl; places = omega arith; waiting = omega arith }

-- 4096 bytes at two bytes per clock take three rounds.
rounds : chunks lpddr 4096 4096 ≡ 1566 ∷ 1566 ∷ 964 ∷ []
unfolding chunks
rounds = refl

chunks-tcsm_example :
    (sum (chunks lpddr 4096 4096) ≡ 4096)
    × All (λ chunk. low_ps lpddr chunk ≤ 4000000) (chunks lpddr 4096 4096)
chunks-tcsm_example = chunks-tcsm lpddr (omega arith) 4096 (omega arith)

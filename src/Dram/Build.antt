-- ===== src/Dram/Build.antt =====
-- The constructor of the engine of targets/hetero/dram_core.hpp: what it checks, in order, and the
-- engine that it makes. The bandwidth `mtps`, by which it divides, is not checked.
pub mod Places
pub mod Ready
use k9r.Base.{
  ℕ, zero, suc, ◌-◌, ◌*◌, ◌/◌, ◌%◌, List, [], ◌∷◌, Option, none, some, Bool, true, false, not, ◌&&◌,
  ◌||◌, ◌==◌, if◌then◌else◌, ltb, leb, bit_and, u64_mod,
}
use k9r.Dram.{Params, Bank, Channel}
use k9r.Dram.Mapping.{Field, MappingError, Parsed, burst_bytes, parse_mapping}
use k9r.Dram.Plan.{idle_bank}
use k9r.Dram.Burst.{Engine}
use k9r.Dram.Queue.{Limits}
use k9r.Dram.Access.{Kind, align}

-- What the constructor is given; `kind` is none for any other string.
pub record Config : Type 0 where
  pub kind : Option Kind
  pub params : Params
  pub mapping : List ℕ
  pub limits : Limits

-- What has to be a power of two.
pub data Checked : Type 0 where
  channels : Checked
  ranks : Checked
  bankgroups : Checked
  banks : Checked
  rows : Checked
  burst_size : Checked
  granule : Checked
  page_bursts : Checked

pub data BuildError : Type 0 where
  bus_not_positive : BuildError
  unknown_kind : BuildError
  not_power : Checked → BuildError
  page_not_bursts : BuildError
  bad_mapping : MappingError → BuildError
  bad_queue : BuildError

pub data Built : Type 0 where
  hyper_engine : Built
  dram_engine : List Field → Engine → Built
  refused : BuildError → Built

-- `check_pow2`, as a test.
abbrev pub is_power : ℕ → Bool
is_power v = not (v == 0) && (bit_and v (v - 1) == 0)

abbrev pub power_checks : Params → List (ℕ × Checked)
power_checks p =
    (p.channels, Checked.channels)
    ∷ (p.ranks, Checked.ranks)
    ∷ (p.bankgroups, Checked.bankgroups)
    ∷ (p.banks, Checked.banks)
    ∷ (p.rows, Checked.rows)
    ∷ (burst_bytes p, Checked.burst_size)
    ∷ (align p, Checked.granule)
    ∷ []

-- The first check that fails.
unfoldable pub first_not_power : List (ℕ × Checked) → Option Checked
first_not_power [] = none
first_not_power (x ∷ xs) = let rest = first_not_power xs in if is_power x.0 then rest else some x.1

unfoldable pub idle_banks : ℕ → List Bank
idle_banks zero = []
idle_banks (suc n) = idle_bank ∷ idle_banks n

-- `(size_t)p.ranks * p.bankgroups * p.banks`, in 64 bits.
abbrev pub nb_banks : Params → ℕ
nb_banks p = p.ranks * p.bankgroups % u64_mod * p.banks % u64_mod

abbrev pub fresh_channel : Params → Channel
fresh_channel p = record {
  banks = idle_banks (nb_banks p);
  order = 0;
  bus_free = 0;
  last_col = none;
  last_col_rank = none;
  last_col_bg = none;
  last_was_write = false;
  last_write_end = none;
  last_act = none;
  last_act_rank = none;
  last_act_bg = none;
  faw = λ r. [];
  next_refresh = p.t_refi;
}

abbrev pub fresh_engine : Params → Engine
fresh_engine p = record {
  chan = λ c. fresh_channel p;
  stats = record { bursts = 0; row_hits = 0; row_misses = 0; row_conflicts = 0; busy_ps = 0 };
  refreshes = 0;
}

-- No queue, or marks in order.
abbrev pub is_queue : Limits → Bool
is_queue l =
    (l.wq_depth == 0) || (ltb 0 l.wq_low && (leb l.wq_low l.wq_high && ltb l.wq_high l.wq_depth))

abbrev pub with_mapping : Config → Parsed → Built
with_mapping c (Parsed.refused e) = Built.refused (BuildError.bad_mapping e)
with_mapping c (Parsed.parsed fs seen) =
    if is_queue c.limits
    then Built.dram_engine fs (fresh_engine c.params)
    else Built.refused BuildError.bad_queue

abbrev pub with_powers : Config → Option Checked → Built
with_powers c (some x) = Built.refused (BuildError.not_power x)
with_powers c none =
    let p = c.params in
    if not (p.page_bytes % burst_bytes p == 0)
    then Built.refused BuildError.page_not_bursts
    else if not (is_power (p.page_bytes / burst_bytes p))
    then Built.refused (BuildError.not_power Checked.page_bursts)
    else with_mapping c (parse_mapping p c.mapping)

abbrev pub build_hyperram : Params → Built
build_hyperram p =
    if (p.hb_ck_ps == 0) || ((p.hb_bus_bytes == 0) || (p.granule == 0))
    then Built.refused BuildError.bus_not_positive
    else Built.hyper_engine

abbrev pub build_kind : Config → Option Kind → Built
build_kind c none = Built.refused BuildError.unknown_kind
build_kind c (some Kind.hyperram) = build_hyperram c.params
build_kind c (some Kind.dram) = with_powers c (first_not_power (power_checks c.params))

unfoldable pub build : Config → Built
build c = build_kind c c.kind

-- ===== src/Dram.antt =====
-- The memory timing of targets/hetero/dram_core.hpp: the parameters, the banks and the channels.
-- Times are picoseconds and not negative; what the code marks by INT64_MIN / 4 or by -1 is `none`.
pub mod Mapping
pub mod Refresh
pub mod Plan
pub mod Burst
pub mod Queue
pub mod Hyper
pub mod Access
pub mod Build
pub mod Component
mod Tests
use k9r.Base.{ℕ, ◌+◌, Option, none, some, List, Bool, Array}

-- `Params`, as far as the engine reads them.
pub record Params : Type 0 where
  pub ctrl_ps : ℕ
  pub granule : ℕ
  pub channels : ℕ
  pub ranks : ℕ
  pub bankgroups : ℕ
  pub banks : ℕ
  pub rows : ℕ
  pub page_bytes : ℕ
  pub width_bits : ℕ
  pub burst_length : ℕ
  pub mtps : ℕ
  pub t_ck : ℕ
  pub t_rcd : ℕ
  pub t_rp : ℕ
  pub t_rpab : ℕ
  pub t_ras : ℕ
  pub t_rc : ℕ
  pub t_rl : ℕ
  pub t_wl : ℕ
  pub t_rrd_s : ℕ
  pub t_rrd_l : ℕ
  pub t_faw : ℕ
  pub t_ccd_s : ℕ
  pub t_ccd_l : ℕ
  pub t_wtr_s : ℕ
  pub t_wtr_l : ℕ
  pub t_rtw : ℕ
  pub t_rtw_l : ℕ
  pub t_wr : ℕ
  pub t_rtp : ℕ
  pub t_refi : ℕ
  pub t_rfc : ℕ
  pub hb_ck_ps : ℕ
  pub hb_ca_clks : ℕ
  pub hb_lat_clks : ℕ
  pub hb_fixed_2x : ℕ
  pub hb_bus_bytes : ℕ
  pub hb_csm_ps : ℕ
  pub hb_rwr_ps : ℕ

pub record Bank : Type 0 where
  pub open_row : Option ℕ
  pub act : Option ℕ
  pub act_ok : ℕ
  pub pre_ok : ℕ

-- `faw` holds the activations of each rank, the first one first.
pub record Channel : Type 0 where
  pub banks : List Bank
  pub order : ℕ
  pub bus_free : ℕ
  pub last_col : Option ℕ
  pub last_col_rank : Option ℕ
  pub last_col_bg : Option ℕ
  pub last_was_write : Bool
  pub last_write_end : Option ℕ
  pub last_act : Option ℕ
  pub last_act_rank : Option ℕ
  pub last_act_bg : Option ℕ
  pub faw : Array (List ℕ)
  pub next_refresh : ℕ

-- A time after an event; an event that never was bounds nothing.
abbrev pub after : Option ℕ → ℕ → ℕ
after none d = 0
after (some t) d = t + d

-- ===== src/Dram/Burst.antt =====
-- `burst` of targets/hetero/dram_core.hpp: a burst lets the refreshes go first that it would run into.
pub mod Near
pub mod Ends
use k9r.Base.{
  ℕ, zero, suc, max, List, Option, none, some, Bool, not, ◌&&◌, if◌then◌else◌, leb, ◌==◌, Array,
  update,
}
use k9r.Dram.{Params, Channel}
use k9r.Dram.Mapping.{Field, Coord, decode}
use k9r.Dram.Refresh.{refresh}
use k9r.Dram.Plan.{Plan, Stats, plan, commit}

-- The channels and the counts of the engine.
pub record Engine : Type 0 where
  pub chan : Array Channel
  pub stats : Stats
  pub refreshes : ℕ

-- The loop; `none` if the fuel is not enough.
unfoldable pub burst_loop :
    Params → Coord → Bool → ℕ → ℕ → Channel × ℕ → Option (Plan × (Channel × ℕ))
burst_loop p k w t zero s = none
burst_loop p k w t (suc fuel) s =
    let pl = plan p s.0 k w t in
    let rest = burst_loop p k w t fuel (refresh p pl.col s) in
    if not (p.t_refi == 0) && leb s.0.next_refresh pl.col then rest else some (pl, s)

abbrev pub channel_of : Coord → ℕ
channel_of k = k 5

-- The new engine and the end of the burst, from the plan that the loop ends with.
unfoldable pub finish_burst :
    Params → Coord → Bool → Engine → Option (Plan × (Channel × ℕ)) → Option (Engine × ℕ)
finish_burst p k w e none = none
finish_burst p k w e (some (pl, (c, refreshes))) =
    let done = commit p pl k w (c, e.stats) in
    some (
      record e {
        chan = update e.chan (channel_of k) done.0;
        stats = done.1;
        refreshes = refreshes;
      },
      pl.end_ps,
    )

unfoldable pub burst : Params → List Field → ℕ → ℕ → ℕ → Bool → Engine → Option (Engine × ℕ)
burst p fs fuel arrive addr w e =
    let k = decode p fs addr in
    let c = e.chan (channel_of k) in
    let t = max arrive c.order in
    finish_burst p k w e (burst_loop p k w t fuel (refresh p t (c, e.refreshes)))

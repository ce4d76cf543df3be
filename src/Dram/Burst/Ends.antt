-- ===== src/Dram/Burst/Ends.antt =====
-- The loop of `burst` of targets/hetero/dram_core.hpp ends, although each refresh delays the burst.
use k9r.Base.{
  ℕ, zero, suc, ◌+◌, ◌-◌, ◌<◌, ◌≡◌, ◌∙◌, refl, ap, inl, inr, max, List, map, Option, some, Bool,
  true, false, not, ◌&&◌, arith, get_or, ◌==◌, leb, Bool-cases, ne→beq, leb→le, lt→leb, leb→lt,
  update, update_self, if_true, if_false, if_both,
}
use k9r.Dram.{Params, Channel}
use k9r.Dram.Mapping.{Field, Coord, decode}
use k9r.Dram.Refresh.{banks_start, close, refresh_end, refresh_one, refresh}
use k9r.Dram.Refresh.Each.{banks_start-covers, refresh_end-covers, closed-IsFree}
use k9r.Dram.Plan.{Plan, idle_bank, bank_index, plan, commit, activate, is_hit, Stats}
use k9r.Dram.Burst.{Engine, burst_loop, channel_of, finish_burst, burst}
use k9r.Dram.Burst.Near.{
  free_bank, col_closed, IsNear, plan-IsNear, refresh_one-IsNear, IsNear-le, refresh-IsNear,
}

-- A round of the loop, when refresh is enabled.
module _ (p : Params) (k : Coord) (w : Bool) (t fuel : ℕ) (s : Channel × ℕ)
    (refi : 0 < p.t_refi) where
  due_test :
      (b : Bool)
      → leb s.0.next_refresh (plan p s.0 k w t).col ≡ b
      → (not (p.t_refi == 0) && leb s.0.next_refresh (plan p s.0 k w t).col) ≡ b
  due_test b e =
      ap (λ z. not z && leb s.0.next_refresh (plan p s.0 k w t).col)
        (ne→beq p.t_refi 0 (omega arith))
      ∙ e

  burst_loop-late :
      leb s.0.next_refresh (plan p s.0 k w t).col ≡ true
      → burst_loop p k w t (suc fuel) s
        ≡ burst_loop p k w t fuel (refresh p (plan p s.0 k w t).col s)
  unfolding burst_loop
  burst_loop-late late = if_true (some (plan p s.0 k w t, s)) (due_test true late)

  burst_loop-on_time :
      leb s.0.next_refresh (plan p s.0 k w t).col ≡ false
      → burst_loop p k w t (suc fuel) s ≡ some (plan p s.0 k w t, s)
  unfolding burst_loop
  burst_loop-on_time on_time =
      if_false (burst_loop p k w t fuel (refresh p (plan p s.0 k w t).col s))
        (due_test false on_time)

module _ (p : Params) (k : Coord) (w : Bool) (t : ℕ) (c : Channel) where
  -- As many rounds as the burst is picoseconds late, and one, are enough.
  burst_loop-ends :
      (a : Option ℕ) (m : ℕ) (s : Channel × ℕ)
      → p.t_rcd + p.t_rfc < p.t_refi
      → IsNear p k w t c a m s.0
      → (r : Plan × (Channel × ℕ)) × (burst_loop p k w t (suc m) s ≡ some r)
        × (r.0.col < r.1.0.next_refresh)
  burst_loop-ends a zero s short h =
      let pl = plan p s.0 k w t in
      let on_time : leb s.0.next_refresh pl.col ≡ false =
        lt→leb s.0.next_refresh pl.col (omega (arith, plan-IsNear p k w t c a 0 s.0 h)) in
      (
        (pl, s),
        burst_loop-on_time p k w t 0 s (omega arith) on_time,
        leb→lt s.0.next_refresh pl.col on_time,
      )
  burst_loop-ends a (suc m) s short h =
      let pl = plan p s.0 k w t in
      elim (Bool-cases (leb s.0.next_refresh pl.col)) [
        | inl late ↦
            let near =
              refresh-IsNear p k w t c a m pl.col s short (leb→le s.0.next_refresh pl.col late) (
                IsNear-le p k w t c a (suc m - 1) m (refresh_one p s).0 (omega arith)
                  (refresh_one-IsNear p k w t c a (suc m) s short h)) in
            let (r, ends, before) = burst_loop-ends a m (refresh p pl.col s) short near in
            (r, burst_loop-late p k w t (suc m) s (omega arith) late ∙ ends, before)
        | inr on_time ↦ (
          (pl, s),
          burst_loop-on_time p k w t (suc m) s (omega arith) on_time,
          leb→lt s.0.next_refresh pl.col on_time,
        )
      ]

-- After one refresh a channel is as near as it is: some number of picoseconds late.
first-IsNear :
    (p : Params) (k : Coord) (w : Bool) (t : ℕ) (s : Channel × ℕ)
    → (a : Option ℕ) × (m : ℕ) × IsNear p k w t s.0 a m (refresh_one p s).0
unfolding refresh_one
first-IsNear p k w t s =
    let d = s.0 in
    let end = refresh_end p d in
    let a = (get_or (map (close end) d.banks) (bank_index p k) idle_bank).act in
    let start = banks_start p (max d.next_refresh d.bus_free) d.banks in
    let (later, free) = banks_start-covers p t (max d.next_refresh d.bus_free) d.banks in
    let ends = refresh_end-covers p t d in
    (
      a,
      end + p.t_rcd + col_closed p k w t d (free_bank a) + 1,
      record {
        form = refl;
        limit = end;
        free = closed-IsFree p t start end end d.banks (omega arith) (omega arith) free;
        bus = omega (arith, later, ends);
        room = omega arith;
        early = omega arith;
        act = refl;
      },
    )

burst_loop-ends_from :
    (p : Params) (k : Coord) (w : Bool) (t : ℕ) (s : Channel × ℕ)
    → p.t_rcd + p.t_rfc < p.t_refi
    → (fuel : ℕ) × (r : Plan × (Channel × ℕ)) × (burst_loop p k w t fuel s ≡ some r)
      × (r.0.col < r.1.0.next_refresh)
burst_loop-ends_from p k w t s short =
    let pl = plan p s.0 k w t in
    elim (Bool-cases (leb s.0.next_refresh pl.col)) [
      | inl late ↦
          let (a, m, first) = first-IsNear p k w t s in
          let near =
            refresh-IsNear p k w t s.0 a m pl.col s short (leb→le s.0.next_refresh pl.col late)
              first in
          let (r, ends, before) = burst_loop-ends p k w t s.0 a m (refresh p pl.col s) short near in
          (suc (suc m), r, burst_loop-late p k w t (suc m) s (omega arith) late ∙ ends, before)
      | inr on_time ↦ (
        1,
        (pl, s),
        burst_loop-on_time p k w t 0 s (omega arith) on_time,
        leb→lt s.0.next_refresh pl.col on_time,
      )
    ]

next-commit :
    (p : Params) (pl : Plan) (k : Coord) (w : Bool) (c : Channel) (st : Stats)
    → (commit p pl k w (c, st)).0.next_refresh ≡ c.next_refresh
unfolding commit activate
next-commit p pl k w c st =
    if_both {A = Channel} (λ x. x.next_refresh ≡ c.next_refresh) (is_hit pl.kind) refl refl

-- If an ACTIVATE to a column command and a refresh together take less than the time between two
-- refreshes, every burst on every state of the engine ends: the loop that lets refreshes go first
-- gives a plan after some number of rounds, and the column command that is committed comes before
-- the next refresh of the channel is due.
pub burst-ends :
    (p : Params) (fs : List Field) (arrive addr : ℕ) (w : Bool) (e : Engine)
    → p.t_rcd + p.t_rfc < p.t_refi
    → (fuel : ℕ) × (r : Engine × ℕ) × (col : ℕ) × (burst p fs fuel arrive addr w e ≡ some r)
      × ((r.0.chan (channel_of (decode p fs addr))).last_col ≡ some col)
      × (col < (r.0.chan (channel_of (decode p fs addr))).next_refresh)
unfolding burst finish_burst commit activate
burst-ends p fs arrive addr w e short =
    let k = decode p fs addr in
    let c = e.chan (channel_of k) in
    let t = max arrive c.order in
    let (fuel, (pl, (d, refreshes)), ends, before) =
      burst_loop-ends_from p k w t (refresh p t (c, e.refreshes)) short in
    let done = commit p pl k w (d, e.stats) in
    let here : update e.chan (channel_of k) done.0 (channel_of k) ≡ done.0 =
      update_self e.chan (channel_of k) done.0 in
    (
      fuel,
      (
        record e {
          chan = update e.chan (channel_of k) done.0;
          stats = done.1;
          refreshes = refreshes;
        },
        pl.end_ps,
      ),
      pl.col,
      ap (finish_burst p k w e) ends,
      ap (λ x. x.last_col) here,
      omega (arith, before, ap (λ x. x.next_refresh) here, next-commit p pl k w d e.stats),
    )

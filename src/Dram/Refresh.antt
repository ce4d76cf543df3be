-- ===== src/Dram/Refresh.antt =====
-- `refresh` of targets/hetero/dram_core.hpp on one channel, with the count of refreshes.
pub mod Idle
pub mod Each
use k9r.Base.{
  ℕ, zero, suc, ◌+◌, ◌-◌, ◌*◌, ◌/◌, ◌≤◌, ◌<◌, max, List, [], ◌∷◌, map, Option, none, some, Bool,
  true, false, ◌&&◌, if◌then◌else◌, leb, ltb, ◌==◌, add64,
}
use k9r.Dram.{Params, Bank, Channel, after}

-- When the banks let a refresh start that wants to start at `start`.
abbrev pub bank_start : Params → ℕ → Bank → ℕ
bank_start p start b = elim b.open_row [
  | none ↦ max start b.act_ok
  | some row ↦ max (max start (max (after b.act p.t_ras) b.pre_ok)) b.act_ok
]

abbrev pub banks_start : Params → ℕ → List Bank → ℕ
banks_start p start [] = start
banks_start p start (b ∷ bs) = banks_start p (bank_start p start b) bs

abbrev pub is_open : Bank → Bool
is_open b = elim b.open_row [ none ↦ false | some row ↦ true ]

abbrev pub any_open : List Bank → Bool
any_open [] = false
any_open (b ∷ bs) = if is_open b then true else any_open bs

-- No ACTIVATE before `end`.
abbrev pub hold : ℕ → Bank → Bank
hold end b = record b { act_ok = max b.act_ok end }

abbrev pub close : ℕ → Bank → Bank
close end b = record (hold end b) { open_row = none }

-- The end of the refresh that is due.
unfoldable pub refresh_end : Params → Channel → ℕ
refresh_end p c =
    let start = banks_start p (max c.next_refresh c.bus_free) c.banks in
    (if any_open c.banks then start + p.t_rpab else start) + p.t_rfc

-- One refresh, and the count.
unfoldable pub refresh_one : Params → Channel × ℕ → Channel × ℕ
refresh_one p (c, refreshes) = (
  record c {
    banks = map (close (refresh_end p c)) c.banks;
    next_refresh = c.next_refresh + p.t_refi;
  },
  add64 refreshes 1,
)

-- After a refresh that ended at `end`, the number of further refreshes that end before `t` and
-- change nothing but the count.
abbrev pub nb_idle : Params → ℕ → ℕ → Channel → ℕ
nb_idle p t end c =
    if leb (c.next_refresh + p.t_rfc) t && leb end c.next_refresh
    then (t - p.t_rfc - c.next_refresh) / p.t_refi
    else 0

unfoldable pub skip : Params → ℕ → Channel × ℕ → Channel × ℕ
skip p n (c, refreshes) =
    let next = c.next_refresh + n * p.t_refi in
    if ltb 0 n
    then (
      record c { banks = map (hold (next - p.t_refi + p.t_rfc)) c.banks; next_refresh = next },
      add64 refreshes n,
    )
    else (c, refreshes)

-- The loop, which is due while a refresh is.
unfoldable pub refresh_loop : Params → ℕ → ℕ → Channel × ℕ → Channel × ℕ
unfolding refresh_end refresh_one skip
refresh_loop p t zero s = s
refresh_loop p t (suc fuel) s =
    let one = refresh_one p s in
    let rest = refresh_loop p t fuel (skip p (nb_idle p t (refresh_end p s.0) one.0) one) in
    if leb s.0.next_refresh t then rest else s

-- Each round moves the next refresh on by a picosecond or more, so that `t + 1` rounds are enough.
unfoldable pub refresh : Params → ℕ → Channel × ℕ → Channel × ℕ
unfolding refresh_loop
refresh p t s = if p.t_refi == 0 then s else refresh_loop p t (t + 1) s

-- ===== src/Dram/Plan.antt =====
-- `plan` and `commit` of targets/hetero/dram_core.hpp: the command times of one burst on its channel.
pub mod Legal
use k9r.Base.{
  ℕ, zero, suc, ◌+◌, ◌-◌, ◌*◌, ◌/◌, max, min, List, [], ◌∷◌, ◌++◌, Option, none, some, Bool, true,
  false, not, ◌&&◌, if◌then◌else◌, ◌==◌, Array, update, get_or, length, add64,
}
use k9r.Dram.{Params, Bank, Channel, after}
use k9r.Dram.Mapping.{Coord}

abbrev pub burst_ps : Params → ℕ
burst_ps p = p.burst_length * 1000000 / p.mtps

pub data RowKind : Type 0 where
  hit : RowKind
  miss : RowKind
  conflict : RowKind

pub record Plan : Type 0 where
  pub bank : ℕ
  pub kind : RowKind
  pub act : ℕ
  pub first_cmd : ℕ
  pub col : ℕ
  pub end_ps : ℕ

-- The counts of bursts; `busy_ps` is the time that the data bus spent transferring.
pub record Stats : Type 0 where
  pub bursts : ℕ
  pub row_hits : ℕ
  pub row_misses : ℕ
  pub row_conflicts : ℕ
  pub busy_ps : ℕ

abbrev pub row : Coord → ℕ
row k = k 0

abbrev pub rank : Coord → ℕ
rank k = k 1

abbrev pub bankgroup : Coord → ℕ
bankgroup k = k 2

abbrev pub bank_index : Params → Coord → ℕ
bank_index p k = (rank k * p.bankgroups + bankgroup k) * p.banks + k 3

-- A bank that was never used.
abbrev pub idle_bank : Bank
idle_bank = record { open_row = none; act = none; act_ok = 0; pre_ok = 0 }

abbrev pub is : Option ℕ → ℕ → Bool
is none x = false
is (some y) x = y == x

-- The bound of four ACTIVATEs of a rank.
abbrev pub faw_bound : Params → List ℕ → ℕ
faw_bound p (a ∷ b ∷ c ∷ d ∷ []) = a + p.t_faw
faw_bound p _ = 0

-- The ACTIVATE of a burst that may start at `from`.
unfoldable pub act_time : Params → Channel → Bank → Coord → ℕ → ℕ
act_time p c b k from =
    let own = max from (max b.act_ok (after b.act p.t_rc)) in
    let spaced =
      if is c.last_act_rank (rank k)
      then max own
          (after c.last_act (if is c.last_act_bg (bankgroup k) then p.t_rrd_l else p.t_rrd_s))
      else own in
    max spaced (faw_bound p (c.faw (rank k)))

-- The row part of a plan: its kind, the ACTIVATE, the first command, and the earliest column
-- command. An open bank has been activated.
unfoldable pub row_plan : Params → Channel → Bank → Coord → ℕ → RowKind × ℕ × ℕ × ℕ
unfolding act_time
row_plan p c b k t =
    let pre = max t (max (after b.act p.t_ras) b.pre_ok) in
    let closed = act_time p c b k t in
    let opened = act_time p c b k (pre + p.t_rp) in
    let col = max t (after b.act p.t_rcd) in
    elim b.open_row [
      | none ↦ (RowKind.miss, closed, closed, closed + p.t_rcd)
      | some r ↦
          if r == row k
          then (RowKind.hit, after b.act 0, col, col)
          else (RowKind.conflict, opened, pre, opened + p.t_rcd)
    ]

-- The column command: order, spacing in the bank group, turnarounds of the bus.
unfoldable pub col_time : Params → Channel → Coord → Bool → ℕ → ℕ
col_time p c k w from =
    let same_bg = is c.last_col_rank (rank k) && is c.last_col_bg (bankgroup k) in
    let spaced = max from (after c.last_col (if same_bg then p.t_ccd_l else p.t_ccd_s)) in
    if not w && c.last_was_write
    then max spaced (after c.last_write_end (if same_bg then p.t_wtr_l else p.t_wtr_s))
    else if w && not c.last_was_write
    then max spaced
        (after c.last_col (if same_bg && not (p.t_rtw_l == 0) then p.t_rtw_l else p.t_rtw))
    else spaced

abbrev pub latency : Params → Bool → ℕ
latency p w = if w then p.t_wl else p.t_rl

unfoldable pub plan : Params → Channel → Coord → Bool → ℕ → Plan
unfolding row_plan col_time
plan p c k w t =
    let (kind, act, first_cmd, from) =
      row_plan p c (get_or c.banks (bank_index p k) idle_bank) k t in
    let data_ps = max (col_time p c k w from + latency p w) c.bus_free in
    record {
      bank = bank_index p k;
      kind = kind;
      act = act;
      first_cmd = first_cmd;
      col = data_ps - latency p w;
      end_ps = data_ps + burst_ps p;
    }

-- The ACTIVATEs of a rank, of which the last four are kept.
abbrev pub push_faw : ℕ → List ℕ → List ℕ
push_faw act (a ∷ b ∷ c ∷ d ∷ []) = b ∷ c ∷ d ∷ act ∷ []
push_faw act acts = acts ++ act ∷ []

abbrev pub set_bank : List Bank → ℕ → Bank → List Bank
set_bank [] i b = []
set_bank (x ∷ xs) zero b = b ∷ xs
set_bank (x ∷ xs) (suc i) b = x ∷ set_bank xs i b

abbrev pub is_hit : RowKind → Bool
is_hit RowKind.hit = true
is_hit _ = false

-- The part of `commit` for a row that was not open.
unfoldable pub activate : Plan → Coord → Channel → Channel
activate pl k c = if is_hit pl.kind then c else record c {
  faw = update c.faw (rank k) (push_faw pl.act (c.faw (rank k)));
  last_act = some pl.act;
  last_act_rank = some (rank k);
  last_act_bg = some (bankgroup k);
}

unfoldable pub used_bank : Params → Plan → Coord → Bool → Bank → Bank
used_bank p pl k w b =
    let active =
      if is_hit pl.kind then b else record b { open_row = some (row k); act = some pl.act } in
    record active {
      pre_ok = max b.pre_ok (if w then pl.end_ps + p.t_ck + p.t_wr else pl.col + p.t_rtp);
    }

abbrev pub count_row : RowKind → Stats → Stats
count_row RowKind.hit s = record s { row_hits = add64 s.row_hits 1 }
count_row RowKind.miss s = record s { row_misses = add64 s.row_misses 1 }
count_row RowKind.conflict s = record s { row_conflicts = add64 s.row_conflicts 1 }

unfoldable pub commit : Params → Plan → Coord → Bool → Channel × Stats → Channel × Stats
unfolding activate used_bank
commit p pl k w (c, s) =
    let counted = count_row pl.kind s in
    (
      record (activate pl k c) {
        banks = set_bank c.banks pl.bank (used_bank p pl k w (get_or c.banks pl.bank idle_bank));
        bus_free = pl.end_ps;
        last_col = some pl.col;
        last_col_rank = some (rank k);
        last_col_bg = some (bankgroup k);
        last_was_write = w;
        last_write_end = if w then some pl.end_ps else c.last_write_end;
        order = min pl.first_cmd pl.col;
      },
      record counted { bursts = add64 s.bursts 1; busy_ps = s.busy_ps + burst_ps p },
    )

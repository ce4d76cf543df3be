-- ===== src/Dram/Plan/Legal.antt =====
-- Bursts and refreshes of a channel of targets/hetero/dram_core.hpp in any order, with a log of what
-- they put on the bus.
use mathlib.Core.Path.{subst}
use k9r.Base.{
  ℕ, zero, suc, ◌+◌, ◌-◌, ◌≤◌, ◌≡◌, ◌∙◌, refl, sym, ap, inl, inr, max, List, [], ◌∷◌, Bool, false,
  Array, arith, update, update_self, update_ne, get_or, if◌then◌else◌, ◌==◌, leb, ltb, Bool-cases,
  Option-cases, ℕ_discrete, if_both,
}
use k9r.Dram.{Params, Bank, Channel, after}
use k9r.Dram.Mapping.{Coord}
use k9r.Dram.Refresh.{refresh_end, refresh_one, nb_idle, skip, refresh_loop, refresh}
use k9r.Dram.Plan.{
  RowKind, Plan, Stats, burst_ps, rank, row, bank_index, idle_bank, faw_bound, act_time, row_plan,
  plan, push_faw, is_hit, activate, commit,
}

-- The transfers, from their first to after their last beat, and the ACTIVATEs of each rank, the last
-- one first.
pub record Log : Type 0 where
  pub transfers : List (ℕ × ℕ)
  pub acts : Array (List ℕ)

-- A burst that may start at a time, or all refreshes that are due by a time.
pub data Op : Type 0 where
  burst : Coord → Bool → ℕ → Op
  refresh_by : ℕ → Op

abbrev pub log_burst : Params → Plan → Coord → Log → Log
log_burst p pl k l = record {
  transfers = (pl.end_ps - burst_ps p, pl.end_ps) ∷ l.transfers;
  acts = if is_hit pl.kind then l.acts else update l.acts (rank k) (pl.act ∷ l.acts (rank k));
}

abbrev pub run_op : Params → Op → Channel × Stats × Log → Channel × Stats × Log
run_op p (Op.burst k w t) (c, s, l) =
    let pl = plan p c k w t in
    let done = commit p pl k w (c, s) in (done.0, done.1, log_burst p pl k l)
run_op p (Op.refresh_by t) (c, s, l) = ((refresh p t (c, 0)).0, s, l)

unfoldable pub run : Params → List Op → Channel × Stats × Log → Channel × Stats × Log
run p [] x = x
run p (op ∷ ops) x = run p ops (run_op p op x)

-- No transfer starts before the one before it has ended.
abbrev pub Apart : List (ℕ × ℕ) → Type 0
Apart [] = Unit
Apart ((start, end) ∷ []) = start ≤ end
Apart ((start, end) ∷ (start', end') ∷ rest) =
    (start ≤ end) × (end' ≤ start) × Apart ((start', end') ∷ rest)

-- No five ACTIVATEs within `d`.
abbrev pub fourth : ℕ → List ℕ → ℕ
fourth d (a ∷ b ∷ c ∷ e ∷ rest) = e + d
fourth d _ = 0

abbrev pub Spaced : ℕ → List ℕ → Type 0
Spaced d [] = Unit
Spaced d (act ∷ acts) = (fourth d acts ≤ act) × Spaced d acts

abbrev last_four : List ℕ → List ℕ
last_four [] = []
last_four (a ∷ []) = a ∷ []
last_four (a ∷ b ∷ []) = b ∷ a ∷ []
last_four (a ∷ b ∷ c ∷ []) = c ∷ b ∷ a ∷ []
last_four (a ∷ b ∷ c ∷ d ∷ rest) = d ∷ c ∷ b ∷ a ∷ []

push_faw-last_four : (x : ℕ) (acts : List ℕ) → push_faw x (last_four acts) ≡ last_four (x ∷ acts)
push_faw-last_four x [] = refl
push_faw-last_four x (a ∷ []) = refl
push_faw-last_four x (a ∷ b ∷ []) = refl
push_faw-last_four x (a ∷ b ∷ c ∷ []) = refl
push_faw-last_four x (a ∷ b ∷ c ∷ d ∷ rest) = refl

faw_bound-last_four :
    (p : Params) (acts : List ℕ) → faw_bound p (last_four acts) ≡ fourth p.t_faw acts
faw_bound-last_four p [] = refl
faw_bound-last_four p (a ∷ []) = refl
faw_bound-last_four p (a ∷ b ∷ []) = refl
faw_bound-last_four p (a ∷ b ∷ c ∷ []) = refl
faw_bound-last_four p (a ∷ b ∷ c ∷ d ∷ rest) = refl

-- The channel keeps what the next burst must know of the log.
abbrev EndsBy : ℕ → List (ℕ × ℕ) → Type 0
EndsBy t [] = Unit
EndsBy t ((start, end) ∷ rest) = end ≤ t

record IsLegal (p : Params) (c : Channel) (l : Log) : Type 0 where
  apart : Apart l.transfers
  free : EndsBy c.bus_free l.transfers
  window : (r : ℕ) → c.faw r ≡ last_four (l.acts r)
  spaced : (r : ℕ) → Spaced p.t_faw (l.acts r)

-- A refresh touches neither the bus nor the window of a rank.
abbrev Keeps : Channel × ℕ → Channel × ℕ → Type 0
Keeps s r = (r.0.bus_free ≡ s.0.bus_free) × (r.0.faw ≡ s.0.faw)

skip-Keeps : (p : Params) (n : ℕ) (c : Channel) (r : ℕ) → Keeps (c, r) (skip p n (c, r))
unfolding skip
skip-Keeps p n c r = if_both (Keeps (c, r)) (ltb 0 n) (refl, refl) (refl, refl)

refresh_loop-Keeps : (p : Params) (t fuel : ℕ) (s : Channel × ℕ) → Keeps s (refresh_loop p t fuel s)
unfolding refresh_loop refresh_one
refresh_loop-Keeps p t zero s = (refl, refl)
refresh_loop-Keeps p t (suc fuel) s =
    let one = refresh_one p s in
    let n = nb_idle p t (refresh_end p s.0) one.0 in
    let (bus, faw) = refresh_loop-Keeps p t fuel (skip p n one) in
    let (bus', faw') = skip-Keeps p n one.0 one.1 in
    if_both (Keeps s) (leb s.0.next_refresh t) (bus ∙ bus', faw ∙ faw') (refl, refl)

refresh-Keeps : (p : Params) (t : ℕ) (s : Channel × ℕ) → Keeps s (refresh p t s)
unfolding refresh
refresh-Keeps p t s =
    if_both (Keeps s) (p.t_refi == 0) (refl, refl) (refresh_loop-Keeps p t (t + 1) s)

act_time-faw_bound :
    (p : Params) (c : Channel) (b : Bank) (k : Coord) (from : ℕ)
    → faw_bound p (c.faw (rank k)) ≤ act_time p c b k from
unfolding act_time
act_time-faw_bound p c b k from = omega arith

abbrev Waits : Params → Channel → Coord → RowKind × ℕ × ℕ × ℕ → Type 0
Waits p c k r = is_hit r.0 ≡ false → faw_bound p (c.faw (rank k)) ≤ r.1

-- A burst that opens a row waits for the window of its rank.
row_plan-faw_bound :
    (p : Params) (c : Channel) (b : Bank) (k : Coord) (t : ℕ) → Waits p c k (row_plan p c b k t)
unfolding row_plan
row_plan-faw_bound p c b k t = elim (Option-cases b.open_row) [
  | inl closed ↦ rw (row_plan, closed) (λ miss. act_time-faw_bound p c b k t)
  | inr (r, active) ↦
      rw (row_plan, active)
        (if_both (Waits p c k) (r == row k) (λ miss. absurd (ground arith))
          (λ miss.
            act_time-faw_bound p c b k (max t (max (after b.act p.t_ras) b.pre_ok) + p.t_rp)))
]

-- The transfer of a plan starts when the bus is free.
plan-bus :
    (p : Params) (c : Channel) (k : Coord) (w : Bool) (t : ℕ)
    → let pl = plan p c k w t in
      (c.bus_free ≤ pl.end_ps - burst_ps p) × (pl.end_ps - burst_ps p ≤ pl.end_ps)
unfolding plan
plan-bus p c k w t = (omega arith, omega arith)

plan-window :
    (p : Params) (c : Channel) (k : Coord) (w : Bool) (t : ℕ)
    → let pl = plan p c k w t in is_hit pl.kind ≡ false → faw_bound p (c.faw (rank k)) ≤ pl.act
unfolding plan
plan-window p c k w t = row_plan-faw_bound p c (get_or c.banks (bank_index p k) idle_bank) k t

-- A transfer that starts when the bus is free, at the head of the log.
log-Apart :
    (free start end : ℕ) (ts : List (ℕ × ℕ))
    → EndsBy free ts
    → free ≤ start
    → start ≤ end
    → Apart ts
    → Apart ((start, end) ∷ ts)
log-Apart free start end [] ends le order h = order
log-Apart free start end ((start', end') ∷ ts) ends le order h = (order, omega (arith, ends), h)

-- An ACTIVATE of a rank that waits for the window, in the log and in the channel.
module _ (p : Params) (faw acts : Array (List ℕ)) (r act : ℕ)
    (window : (i : ℕ) → faw i ≡ last_four (acts i)) (spaced : (i : ℕ) → Spaced p.t_faw (acts i))
    (waits : faw_bound p (faw r) ≤ act) where
  log-window :
      (i : ℕ) → update faw r (push_faw act (faw r)) i ≡ last_four (update acts r (act ∷ acts r) i)
  log-window i = elim (ℕ_discrete r i) [
    | yes same ↦
        subst
          (λ j. update faw r (push_faw act (faw r)) j ≡ last_four (update acts r (act ∷ acts r) j))
          same
          (rw
            (update_self faw r (push_faw act (faw r)), update_self acts r (act ∷ acts r), window r)
            (push_faw-last_four act (acts r)))
    | no ne ↦
        rw (update_ne faw r (push_faw act (faw r)) ne, update_ne acts r (act ∷ acts r) ne)
          (window i)
  ]

  log-Spaced : (i : ℕ) → Spaced p.t_faw (update acts r (act ∷ acts r) i)
  log-Spaced i = elim (ℕ_discrete r i) [
    | yes same ↦
        subst (λ j. Spaced p.t_faw (update acts r (act ∷ acts r) j)) same
          (rw (update_self acts r (act ∷ acts r)) (
            subst (λ b. b ≤ act) (ap (faw_bound p) (window r) ∙ faw_bound-last_four p (acts r))
                waits,
            spaced r,
          ))
    | no ne ↦ rw (update_ne acts r (act ∷ acts r) ne) (spaced i)
  ]

burst-IsLegal :
    (p : Params) (k : Coord) (w : Bool) (t : ℕ) (c : Channel) (s : Stats) (l : Log)
    → IsLegal p c l
    → let pl = plan p c k w t in IsLegal p (commit p pl k w (c, s)).0 (log_burst p pl k l)
unfolding commit activate
burst-IsLegal p k w t c s l h =
    let pl = plan p c k w t in
    let (free, order) = plan-bus p c k w t in
    let apart =
      log-Apart c.bus_free (pl.end_ps - burst_ps p) pl.end_ps l.transfers h.free free order
        h.apart in
    elim (Bool-cases (is_hit pl.kind)) [
      | inl row_hit ↦ record {
        apart = apart;
        free = omega arith;
        window = λ r. rw row_hit (h.window r);
        spaced = λ r. rw row_hit (h.spaced r);
      }
      | inr opens ↦
          let waits = plan-window p c k w t opens in
          record {
            apart = apart;
            free = omega arith;
            window =
                λ r. rw opens (log-window p c.faw l.acts (rank k) pl.act h.window h.spaced waits r);
            spaced =
                λ r. rw opens (log-Spaced p c.faw l.acts (rank k) pl.act h.window h.spaced waits r);
          }
    ]

run-IsLegal :
    (p : Params) (ops : List Op) (c : Channel) (s : Stats) (l : Log)
    → IsLegal p c l
    → let r = run p ops (c, s, l) in IsLegal p r.0 r.2
unfolding run
run-IsLegal p [] c s l h = h
run-IsLegal p (Op.burst k w t ∷ ops) c s l h =
    let pl = plan p c k w t in
    let done = commit p pl k w (c, s) in
    run-IsLegal p ops done.0 done.1 (log_burst p pl k l) (burst-IsLegal p k w t c s l h)
run-IsLegal p (Op.refresh_by t ∷ ops) c s l h =
    let (bus, faw) = refresh-Keeps p t (c, 0) in
    run-IsLegal p ops (refresh p t (c, 0)).0 s l (record {
      apart = h.apart;
      free = subst (λ b. EndsBy b l.transfers) (sym bus) h.free;
      window = λ r. ap (λ f. f r) faw ∙ h.window r;
      spaced = h.spaced;
    })

abbrev pub empty_log : Log
empty_log = record { transfers = []; acts = λ r. [] }

-- Whatever bursts are planned and committed on a channel and whatever refreshes come between them,
-- from a channel with no ACTIVATE yet: no transfer on its data bus starts before the one before it
-- has ended, and no five ACTIVATEs of a rank are within tFAW.
pub run_legal :
    (p : Params) (ops : List Op) (c : Channel) (s : Stats)
    → ((r : ℕ) → c.faw r ≡ [])
    → let l = (run p ops (c, s, empty_log)).2 in
      Apart l.transfers × ((r : ℕ) → Spaced p.t_faw (l.acts r))
run_legal p ops c s fresh =
    let h =
      run-IsLegal p ops c s empty_log
        (record { apart = tt; free = tt; window = fresh; spaced = λ r. tt }) in
    (h.apart, h.spaced)

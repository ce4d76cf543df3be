-- ===== src/Dram/Burst/Near.antt =====
-- How late a burst of targets/hetero/dram_core.hpp is for the refresh that is due, and how a refresh
-- changes that.
use mathlib.Core.Path.{subst}
use k9r.Base.{
  ℕ, zero, suc, ◌+◌, ◌-◌, ◌≤◌, ◌<◌, ◌≡◌, ◌∙◌, refl, sym, ap, inl, inr, max, List, [], ◌∷◌, map, All,
  Option, none, Bool, not, ◌&&◌, arith, get_or, leb, Bool-cases, if_both,
}
use k9r.Dram.{Params, Bank, Channel}
use k9r.Dram.Mapping.{Coord}
use k9r.Dram.Refresh.{bank_start, banks_start, close, refresh_end, refresh_one, refresh}
use k9r.Dram.Refresh.Idle.{IsFree, any_open-free}
use k9r.Dram.Refresh.Each.{refresh_each, refresh-each, each-due}
use k9r.Dram.Plan.{idle_bank, rank, bank_index, is, act_time, row_plan, col_time, latency, plan}

-- The earliest ACTIVATE and column command of a closed bank, were it free at once.
abbrev pub free_bank : Option ℕ → Bank
free_bank a = record idle_bank { act = a }

module _ (p : Params) (k : Coord) (w : Bool) (t : ℕ) (c : Channel) where
  act_time-le : (b : Bank) → act_time p c b k t ≤ max (act_time p c (free_bank b.act) k t) b.act_ok
  unfolding act_time
  act_time-le b = elim (Bool-cases (is c.last_act_rank (rank k))) [
    | inl same ↦ rw same (omega arith)
    | inr other ↦ rw other (omega arith)
  ]

  col_time-le : (f u v : ℕ) → f ≤ max u v → col_time p c k w f ≤ max (col_time p c k w u) v
  unfolding col_time
  col_time-le f u v le = elim (Bool-cases (not w && c.last_was_write)) [
    | inl read_turn ↦ rw read_turn (omega arith)
    | inr no_read_turn ↦ elim (Bool-cases (w && not c.last_was_write)) [
      | inl write_turn ↦ rw (no_read_turn, write_turn) (omega arith)
      | inr no_turn ↦ rw (no_read_turn, no_turn) (omega arith)
    ]
  ]

  -- The column command of a closed bank.
  abbrev pub col_closed : Bank → ℕ
  col_closed b =
      max (col_time p c k w (act_time p c b k t + p.t_rcd) + latency p w) c.bus_free - latency p w

  col_closed-le :
      (b : Bank) → col_closed b ≤ max (col_closed (free_bank b.act)) (b.act_ok + p.t_rcd)
  col_closed-le b = omega (
    arith,
    col_time-le (act_time p c b k t + p.t_rcd) (act_time p c (free_bank b.act) k t + p.t_rcd)
        (b.act_ok + p.t_rcd) (omega (arith, act_time-le b)),
  )

  row_plan-closed :
      (b : Bank) → b.open_row ≡ none → (row_plan p c b k t).3 ≡ act_time p c b k t + p.t_rcd
  unfolding row_plan
  row_plan-closed b closed = rw (row_plan, closed) refl

  -- The banks are closed and free by `limit`, which leaves room before the refresh that is due and
  -- `m` picoseconds more; all but the banks is as in `c`.
  pub record IsNear (a : Option ℕ) (m : ℕ) (d : Channel) : Type 0 where
    pub form : d ≡ record c { banks = d.banks; next_refresh = d.next_refresh }
    pub limit : ℕ
    pub free : All (IsFree limit) d.banks
    pub bus : c.bus_free ≤ limit
    pub room : limit + p.t_rcd < d.next_refresh + m
    pub early : col_closed (free_bank a) < d.next_refresh + m
    pub act : (get_or d.banks (bank_index p k) idle_bank).act ≡ a

  get_or-IsFree :
      (x : ℕ) (bs : List Bank) (i : ℕ) → All (IsFree x) bs → IsFree x (get_or bs i idle_bank)
  get_or-IsFree x [] i h = (refl, omega arith)
  get_or-IsFree x (b ∷ bs) zero h = h.0
  get_or-IsFree x (b ∷ bs) (suc i) h = get_or-IsFree x bs i h.1

  pub plan-IsNear :
      (a : Option ℕ) (m : ℕ) (d : Channel)
      → IsNear a m d
      → (plan p d k w t).col < d.next_refresh + m
  unfolding plan
  plan-IsNear a m d h =
      let b = get_or d.banks (bank_index p k) idle_bank in
      let (closed, ready) = get_or-IsFree h.limit d.banks (bank_index p k) h.free in
      let col : (plan p d k w t).col ≡ col_closed b =
        ap (λ x. (plan p x k w t).col) h.form
        ∙ ap (λ from. max (col_time p c k w from + latency p w) c.bus_free - latency p w)
            (row_plan-closed b closed) in
      let bound : col_closed b ≤ max (col_closed (free_bank a)) (b.act_ok + p.t_rcd) =
        subst (λ x. col_closed b ≤ max (col_closed (free_bank x)) (b.act_ok + p.t_rcd)) h.act
          (col_closed-le b) in
      omega (arith, col, bound, ready, h.room, h.early)

  banks_start-le :
      (start x : ℕ) (bs : List Bank) → start ≤ x → All (IsFree x) bs → banks_start p start bs ≤ x
  banks_start-le start x [] le h = le
  banks_start-le start x (b ∷ bs) le ((closed, ready), hs) =
      rw (bank_start, closed) (banks_start-le (max start b.act_ok) x bs (omega arith) hs)

  IsFree-le : (x y : ℕ) (bs : List Bank) → x ≤ y → All (IsFree x) bs → All (IsFree y) bs
  IsFree-le x y [] le h = tt
  IsFree-le x y (b ∷ bs) le ((closed, ready), hs) = ((closed, omega arith), IsFree-le x y bs le hs)

  close-IsFree :
      (x y end : ℕ) (bs : List Bank)
      → x ≤ y
      → end ≤ y
      → All (IsFree x) bs
      → All (IsFree y) (map (close end) bs)
  close-IsFree x y end [] le within h = tt
  close-IsFree x y end (b ∷ bs) le within ((closed, ready), hs) =
      ((refl, omega arith), close-IsFree x y end bs le within hs)

  close-act :
      (end i : ℕ) (bs : List Bank)
      → (get_or (map (close end) bs) i idle_bank).act ≡ (get_or bs i idle_bank).act
  close-act end i [] = refl
  close-act end zero (b ∷ bs) = refl
  close-act end (suc i) (b ∷ bs) = close-act end i bs

  refresh_end-le :
      (d : Channel) (x : ℕ)
      → All (IsFree x) d.banks
      → d.bus_free ≤ x
      → refresh_end p d ≤ max d.next_refresh x + p.t_rfc
  unfolding refresh_end
  refresh_end-le d x free bus =
      let y = max d.next_refresh x in
      let start =
        banks_start-le (max d.next_refresh d.bus_free) y d.banks (omega arith)
          (IsFree-le x y d.banks (omega arith) free) in
      rw (any_open-free x d.banks free) (omega (arith, start))

  -- A refresh brings the burst nearer, if what it delays the burst by is less than the time to the
  -- next one.
  pub refresh_one-IsNear :
      (a : Option ℕ) (m : ℕ) (s : Channel × ℕ)
      → p.t_rcd + p.t_rfc < p.t_refi
      → IsNear a m s.0
      → IsNear a (m - 1) (refresh_one p s).0
  unfolding refresh_one
  refresh_one-IsNear a m s short h =
      let d = s.0 in
      let end = refresh_end p d in
      let refreshed : Channel → Channel = λ x. record x {
        banks = map (close end) d.banks;
        next_refresh = d.next_refresh + p.t_refi;
      } in
      let same_bus : d.bus_free ≡ c.bus_free = ap (λ x. x.bus_free) h.form in
      let within = refresh_end-le d h.limit h.free (omega (arith, same_bus, h.bus)) in
      record {
        form = ap refreshed h.form;
        limit = max d.next_refresh h.limit + p.t_rfc;
        free =
            close-IsFree h.limit (max d.next_refresh h.limit + p.t_rfc) end d.banks (omega arith)
              within h.free;
        bus = omega (arith, h.bus);
        room = omega (arith, h.room);
        early = omega (arith, h.early);
        act = close-act end (bank_index p k) d.banks ∙ h.act;
      }

  pub IsNear-le : (a : Option ℕ) (m n : ℕ) (d : Channel) → m ≤ n → IsNear a m d → IsNear a n d
  IsNear-le a m n d le h = record {
    form = h.form;
    limit = h.limit;
    free = h.free;
    bus = h.bus;
    room = omega (arith, h.room);
    early = omega (arith, h.early);
    act = h.act;
  }

  refresh_each-IsNear :
      (a : Option ℕ) (m until fuel : ℕ) (s : Channel × ℕ)
      → p.t_rcd + p.t_rfc < p.t_refi
      → IsNear a m s.0
      → IsNear a m (refresh_each p until fuel s).0
  unfolding refresh_each
  refresh_each-IsNear a m until zero s short h = h
  refresh_each-IsNear a m until (suc fuel) s short h =
      if_both {A = Channel × ℕ} (λ r. IsNear a m r.0) (leb s.0.next_refresh until)
        (refresh_each-IsNear a m until fuel (refresh_one p s) short (
          IsNear-le a (m - 1) m (refresh_one p s).0 (omega arith)
            (refresh_one-IsNear a m s short h)))
        h

  -- All refreshes that are due by a time, one at least.
  pub refresh-IsNear :
      (a : Option ℕ) (m until : ℕ) (s : Channel × ℕ)
      → p.t_rcd + p.t_rfc < p.t_refi
      → s.0.next_refresh ≤ until
      → IsNear a m (refresh_one p s).0
      → IsNear a m (refresh p until s).0
  refresh-IsNear a m until s short due h =
      subst (λ r. IsNear a m r.0)
        (sym (
          (refresh-each p until (suc until) s (omega arith) (omega arith)).0
          ∙ each-due p until until s due))
        (refresh_each-IsNear a m until until (refresh_one p s) short h)

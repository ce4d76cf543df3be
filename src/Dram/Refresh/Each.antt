-- ===== src/Dram/Refresh/Each.antt =====
-- `refresh` of targets/hetero/dram_core.hpp against the loop that refreshes one at a time.
use mathlib.Core.Path.{subst}
use native.Mathlib.Nat.{div-mul-le_self}
use k9r.Base.{
  ℕ, zero, suc, ◌+◌, ◌-◌, ◌*◌, ◌/◌, ◌≤◌, ◌<◌, ◌≡◌, ◌∙◌, refl, sym, ap, max, inl, inr, List, [], ◌∷◌,
  map, Bool, true, false, All, arith, leb, le→leb, lt→leb, leb→le, dec_lt, Bool-cases, Option-cases,
  ne→beq, if_true, if_false, if◌then◌else◌, ◌&&◌,
}
use k9r.Dram.{Params, Bank, Channel}
use k9r.Dram.Refresh.{
  bank_start, banks_start, any_open, close, refresh_end, refresh_one, nb_idle, skip, refresh_loop,
  refresh,
}
use k9r.Dram.Refresh.Idle.{IsFree, IsIdle, repeat, skip-idle}

-- The loop with no fast-forward.
unfoldable pub refresh_each : Params → ℕ → ℕ → Channel × ℕ → Channel × ℕ
refresh_each p t zero s = s
refresh_each p t (suc fuel) s =
    let rest = refresh_each p t fuel (refresh_one p s) in if leb s.0.next_refresh t then rest else s

both_true : (a b : Bool) → (a && b) ≡ true → (a ≡ true) × (b ≡ true)
both_true true b e = (refl, e)
both_true false b e = absurd (ground arith)

module _ (p : Params) (t : ℕ) where
  next-refresh_one :
      (s : Channel × ℕ) → (refresh_one p s).0.next_refresh ≡ s.0.next_refresh + p.t_refi
  unfolding refresh_one
  next-refresh_one s = refl

  pub each-due :
      (fuel : ℕ) (s : Channel × ℕ)
      → s.0.next_refresh ≤ t
      → refresh_each p t (suc fuel) s ≡ refresh_each p t fuel (refresh_one p s)
  unfolding refresh_each
  each-due fuel s due = rw (le→leb s.0.next_refresh t due) refl

  each-done : (fuel : ℕ) (s : Channel × ℕ) → t < s.0.next_refresh → refresh_each p t fuel s ≡ s
  unfolding refresh_each
  each-done zero s done = refl
  each-done (suc fuel) s done = rw (lt→leb s.0.next_refresh t done) refl

  -- More fuel than the loop needs changes nothing.
  each-fuel :
      (f g : ℕ) (s : Channel × ℕ)
      → 0 < p.t_refi
      → t < s.0.next_refresh + f
      → t < s.0.next_refresh + g
      → refresh_each p t f s ≡ refresh_each p t g s
  unfolding refresh_each
  each-fuel zero g s pos hf hg = sym (each-done g s (omega arith))
  each-fuel (suc f) zero s pos hf hg = each-done (suc f) s (omega arith)
  each-fuel (suc f) (suc g) s pos hf hg = elim (dec_lt t s.0.next_refresh) [
    | yes done ↦ each-done (suc f) s done ∙ sym (each-done (suc g) s done)
    | no due ↦
        each-due f s (omega arith)
        ∙ each-fuel f g (refresh_one p s) pos (omega (arith, next-refresh_one s))
            (omega (arith, next-refresh_one s))
        ∙ sym (each-due g s (omega arith))
  ]

  next-repeat :
      (n : ℕ) (s : Channel × ℕ) → (repeat p n s).0.next_refresh ≡ s.0.next_refresh + n * p.t_refi
  next-repeat zero s = omega arith
  next-repeat (suc n) s = omega (arith, next-repeat n (refresh_one p s), next-refresh_one s)

  -- `n` refreshes that are due by `t` are the first rounds of the loop.
  each-repeat :
      (n fuel : ℕ) (s : Channel × ℕ)
      → s.0.next_refresh + n * p.t_refi ≤ t + p.t_refi
      → refresh_each p t (n + fuel) s ≡ refresh_each p t fuel (repeat p n s)
  each-repeat zero fuel s within = ap (λ k. refresh_each p t k s) (omega arith)
  each-repeat (suc n) fuel s within =
      ap (λ k. refresh_each p t k s) (omega arith)
      ∙ each-due (n + fuel) s (omega arith)
      ∙ each-repeat n fuel (refresh_one p s) (omega (arith, next-refresh_one s))

  -- A refresh starts after what each bank asks for.
  bank_start-covers :
      (start : ℕ) (b : Bank) → (start ≤ bank_start p start b) × (b.act_ok ≤ bank_start p start b)
  bank_start-covers start b = elim (Option-cases b.open_row) [
    | inl closed ↦ rw (bank_start, closed) (omega arith, omega arith)
    | inr (row, active) ↦ rw (bank_start, active) (omega arith, omega arith)
  ]

  pub banks_start-covers :
      (start : ℕ) (bs : List Bank)
      → (start ≤ banks_start p start bs) × All (λ b. b.act_ok ≤ banks_start p start bs) bs
  banks_start-covers start [] = (omega arith, tt)
  banks_start-covers start (b ∷ bs) =
      let (here, free) = bank_start-covers start b in
      let (later, rest) = banks_start-covers (bank_start p start b) bs in
      (omega (arith, here, later), (omega (arith, free, later), rest))

  pub closed-IsFree :
      (start end next : ℕ) (bs : List Bank)
      → start ≤ end
      → end ≤ next
      → All (λ b. b.act_ok ≤ start) bs
      → All (IsFree next) (map (close end) bs)
  closed-IsFree start end next [] le within h = tt
  closed-IsFree start end next (b ∷ bs) le within (free, hs) =
      ((refl, omega arith), closed-IsFree start end next bs le within hs)

  pub refresh_end-covers :
      (c : Channel)
      → banks_start p (max c.next_refresh c.bus_free) c.banks + p.t_rfc ≤ refresh_end p c
  unfolding refresh_end
  refresh_end-covers c = elim (Bool-cases (any_open c.banks)) [
    | inl some_open ↦ rw (refresh_end, some_open) (omega arith)
    | inr all_closed ↦ rw (refresh_end, all_closed) (omega arith)
  ]

  -- After a refresh that ends before the next one is due, the channel is idle.
  refresh_one-IsIdle :
      (s : Channel × ℕ)
      → refresh_end p s.0 ≤ s.0.next_refresh + p.t_refi
      → IsIdle p (refresh_one p s).0
  unfolding refresh_one
  refresh_one-IsIdle s within =
      let c = s.0 in
      let start = banks_start p (max c.next_refresh c.bus_free) c.banks in
      let (later, free) = banks_start-covers (max c.next_refresh c.bus_free) c.banks in
      let ends : start + p.t_rfc ≤ refresh_end p c = refresh_end-covers c in
      record {
        free =
            closed-IsFree start (refresh_end p c) (c.next_refresh + p.t_refi) c.banks (omega arith)
              within free;
        bus = omega (arith, later, ends);
        short = omega (arith, later, ends);
      }

  -- The fast-forward does what the refreshes that it skips do, and they are due.
  skip-repeat :
      (s : Channel × ℕ)
      → let one = refresh_one p s in
        let n = nb_idle p t (refresh_end p s.0) one.0 in
        (skip p n one ≡ repeat p n one)
        × (one.0.next_refresh + n * p.t_refi ≤ max t one.0.next_refresh)
  unfolding skip
  skip-repeat s =
      let one = refresh_one p s in
      let end = refresh_end p s.0 in
      let now = leb (one.0.next_refresh + p.t_rfc) t in
      let SkipsDue : ℕ → Type 0 = λ n.
        (skip p n one ≡ repeat p n one)
        × (one.0.next_refresh + n * p.t_refi ≤ max t one.0.next_refresh) in
      elim (Bool-cases (now && leb end one.0.next_refresh)) [
        | inl idle ↦
            let (soon, within) = both_true now (leb end one.0.next_refresh) idle in
            let idle_here =
              refresh_one-IsIdle s
                (omega (arith, leb→le end one.0.next_refresh within, next-refresh_one s)) in
            let room = t - p.t_rfc - one.0.next_refresh in
            subst SkipsDue (sym (if_true 0 idle)) (
              skip-idle p (room / p.t_refi) one.0 one.1 idle_here,
              omega (
                arith,
                div-mul-le_self room p.t_refi,
                leb→le (one.0.next_refresh + p.t_rfc) t soon,
              ),
            )
        | inr busy ↦ subst SkipsDue (sym (if_false _ busy)) (refl, omega arith)
      ]

  refresh_loop-each :
      (fuel : ℕ) (s : Channel × ℕ)
      → 0 < p.t_refi
      → t < s.0.next_refresh + fuel
      → refresh_loop p t fuel s ≡ refresh_each p t fuel s
  unfolding refresh_loop refresh_each
  refresh_loop-each zero s pos enough = refl
  refresh_loop-each (suc fuel) s pos enough = elim (dec_lt t s.0.next_refresh) [
    | yes done ↦ rw (lt→leb s.0.next_refresh t done) refl
    | no late ↦
        let one = refresh_one p s in
        let n = nb_idle p t (refresh_end p s.0) one.0 in
        let (same, due) = skip-repeat s in
        rw (le→leb s.0.next_refresh t (omega arith), same)
          (refresh_loop-each fuel (repeat p n one) pos
              (omega (arith, next-repeat n one, next-refresh_one s))
            ∙ sym (each-repeat n fuel one (omega (arith, due, next-refresh_one s)))
            ∙ each-fuel (n + fuel) fuel one pos (omega (arith, next-refresh_one s))
                (omega (arith, next-refresh_one s)))
  ]

  each-ends :
      (fuel : ℕ) (s : Channel × ℕ)
      → 0 < p.t_refi
      → t < s.0.next_refresh + fuel
      → t < (refresh_each p t fuel s).0.next_refresh
  unfolding refresh_each
  each-ends zero s pos enough = omega arith
  each-ends (suc fuel) s pos enough = elim (dec_lt t s.0.next_refresh) [
    | yes done ↦ rw (lt→leb s.0.next_refresh t done) done
    | no late ↦
        rw (le→leb s.0.next_refresh t (omega arith))
          (each-ends fuel (refresh_one p s) pos (omega (arith, next-refresh_one s)))
  ]

  -- With refresh enabled, the fast-forward over an idle stretch is invisible: `refresh` leaves the
  -- channel and the count of refreshes as the loop does that refreshes one at a time, run for as long
  -- as it takes, and no refresh is due by `t` any more.
  pub refresh-each :
      (fuel : ℕ) (s : Channel × ℕ)
      → 0 < p.t_refi
      → t < s.0.next_refresh + fuel
      → (refresh p t s ≡ refresh_each p t fuel s) × (t < (refresh p t s).0.next_refresh)
  unfolding refresh
  refresh-each fuel s pos enough =
      let loop : refresh p t s ≡ refresh_each p t fuel s =
        if_false s (ne→beq p.t_refi 0 (omega arith))
        ∙ refresh_loop-each (t + 1) s pos (omega arith)
        ∙ each-fuel (t + 1) fuel s pos (omega arith) enough in
      (loop, rw loop (each-ends fuel s pos enough))

-- ===== src/Dram/Refresh/Idle.antt =====
-- Refreshes of an idle channel of targets/hetero/dram_core.hpp: each ends where it would if it were
-- the only one, so that a run of them changes only the last end and the count.
use mathlib.Core.Path.{fun_ext}
use k9r.Base.{
  ℕ, zero, suc, ◌+◌, ◌-◌, ◌*◌, ◌≤◌, ◌≡◌, ◌∙◌, refl, sym, ap, max, List, [], ◌∷◌, map, none, false,
  All, arith, map-eq, map-map, add64, lt→ltb,
}
use k9r.Dram.{Params, Bank, Channel}
use k9r.Dram.Refresh.{
  bank_start, banks_start, is_open, any_open, hold, close, refresh_end, refresh_one, skip,
}

-- Closed, and free for an ACTIVATE at `t`.
abbrev pub IsFree : ℕ → Bank → Type 0
IsFree t b = (b.open_row ≡ none) × (b.act_ok ≤ t)

-- Nothing delays the refresh that is due, and it ends before the next one.
pub record IsIdle (p : Params) (c : Channel) : Type 0 where
  pub free : All (IsFree c.next_refresh) c.banks
  pub bus : c.bus_free ≤ c.next_refresh
  pub short : p.t_rfc ≤ p.t_refi

bank_start-free : (p : Params) (t : ℕ) (b : Bank) → IsFree t b → bank_start p t b ≡ t
bank_start-free p t b (closed, free) = rw (bank_start, closed) (omega arith)

banks_start-free :
    (p : Params) (t : ℕ) (bs : List Bank) → All (IsFree t) bs → banks_start p t bs ≡ t
banks_start-free p t [] h = refl
banks_start-free p t (b ∷ bs) (h, hs) = rw (bank_start-free p t b h) (banks_start-free p t bs hs)

pub any_open-free : (t : ℕ) (bs : List Bank) → All (IsFree t) bs → any_open bs ≡ false
any_open-free t [] h = refl
any_open-free t (b ∷ bs) ((closed, free), hs) = rw (is_open, closed) (any_open-free t bs hs)

-- An idle refresh starts when it is due.
refresh_end-idle :
    (p : Params) (c : Channel) → IsIdle p c → refresh_end p c ≡ c.next_refresh + p.t_rfc
unfolding refresh_end
refresh_end-idle p c h =
    let start : max c.next_refresh c.bus_free ≡ c.next_refresh = omega (arith, h.bus) in
    rw
      (
        start,
        banks_start-free p c.next_refresh c.banks h.free,
        any_open-free c.next_refresh c.banks h.free,
      )
      refl

-- A state with these banks and this refresh due.
abbrev at : Channel → List Bank → ℕ → ℕ → Channel × ℕ
at c banks next refreshes = (record c { banks = banks; next_refresh = next }, refreshes)

close-free :
    (t end : ℕ) (bs : List Bank) → All (IsFree t) bs → map (close end) bs ≡ map (hold end) bs
close-free t end bs h = map-eq (close end) (hold end) bs (closes bs h)
  where
    closes : (bs : List Bank) → All (IsFree t) bs → All (λ b. close end b ≡ hold end b) bs
    closes [] h = tt
    closes (b ∷ bs) ((closed, free), hs) =
        (ap (λ o. record (hold end b) { open_row = o }) (sym closed), closes bs hs)

refresh_one-idle :
    (p : Params) (c : Channel) (r : ℕ)
    → IsIdle p c
    → refresh_one p (c, r)
      ≡ at c (map (hold (c.next_refresh + p.t_rfc)) c.banks) (c.next_refresh + p.t_refi) (add64 r 1)
unfolding refresh_one
refresh_one-idle p c r h =
    rw (refresh_end-idle p c h, close-free c.next_refresh (c.next_refresh + p.t_rfc) c.banks h.free)
      refl

hold-IsFree :
    (t end next : ℕ) (bs : List Bank)
    → t ≤ end
    → end ≤ next
    → All (IsFree t) bs
    → All (IsFree next) (map (hold end) bs)
hold-IsFree t end next [] le within h = tt
hold-IsFree t end next (b ∷ bs) le within ((closed, free), hs) =
    ((closed, omega arith), hold-IsFree t end next bs le within hs)

-- It leaves the channel idle.
refresh_one-IsIdle :
    (p : Params) (c : Channel) (r : ℕ) → IsIdle p c → IsIdle p (refresh_one p (c, r)).0
refresh_one-IsIdle p c r h = rw (refresh_one-idle p c r h) (record {
  free =
      hold-IsFree c.next_refresh (c.next_refresh + p.t_rfc) (c.next_refresh + p.t_refi) c.banks
        (omega arith) (omega (arith, h.short)) h.free;
  bus = omega (arith, h.bus);
  short = h.short;
})

hold-hold : (a z : ℕ) (bs : List Bank) → a ≤ z → map (hold z) (map (hold a) bs) ≡ map (hold z) bs
hold-hold a z bs le =
    map-map (hold z) (hold a) bs
    ∙ ap (λ f. map f bs) (fun_ext λ b. ap (λ t. record b { act_ok = t }) (omega arith))

-- `n` refreshes, one after another.
abbrev pub repeat : Params → ℕ → Channel × ℕ → Channel × ℕ
repeat p zero s = s
repeat p (suc n) s = repeat p n (refresh_one p s)

skip-suc :
    (p : Params) (n : ℕ) (c : Channel) (r : ℕ)
    → skip p (suc n) (c, r)
      ≡ at c
          (map (hold (c.next_refresh + n * p.t_refi + p.t_rfc)) c.banks)
          (c.next_refresh + suc n * p.t_refi)
          (add64 r (suc n))
unfolding skip
skip-suc p n c r =
    let last : c.next_refresh + suc n * p.t_refi - p.t_refi + p.t_rfc
        ≡ c.next_refresh + n * p.t_refi + p.t_rfc =
      omega arith in
    rw (lt→ltb 0 (suc n) (omega arith), last) refl

-- One refresh and a fast-forward over the others.
skip-refresh_one :
    (p : Params) (n : ℕ) (c : Channel) (r : ℕ)
    → IsIdle p c
    → skip p (suc n) (refresh_one p (c, r)) ≡ skip p (suc (suc n)) (c, r)
skip-refresh_one p n c r h =
    let next = c.next_refresh in
    let later : next + p.t_refi + n * p.t_refi ≡ next + suc n * p.t_refi = omega arith in
    let due : next + p.t_refi + suc n * p.t_refi ≡ next + suc (suc n) * p.t_refi = omega arith in
    let count : add64 (add64 r 1) (suc n) ≡ add64 r (suc (suc n)) = omega arith in
    rw
      (
        refresh_one-idle p c r h,
        skip-suc p n (at c (map (hold (next + p.t_rfc)) c.banks) (next + p.t_refi) (add64 r 1)).0
            (add64 r 1),
        later,
        due,
        count,
        hold-hold (next + p.t_rfc) (next + suc n * p.t_refi + p.t_rfc) c.banks (omega arith),
        skip-suc p (suc n) c r,
      )
      refl

-- The fast-forward over `n` refreshes of an idle channel does what they do.
pub skip-idle :
    (p : Params) (n : ℕ) (c : Channel) (r : ℕ) → IsIdle p c → skip p n (c, r) ≡ repeat p n (c, r)
unfolding skip
skip-idle p zero c r h = refl
skip-idle p (suc zero) c r h =
    let end : c.next_refresh + 0 * p.t_refi + p.t_rfc ≡ c.next_refresh + p.t_rfc = omega arith in
    let due : c.next_refresh + 1 * p.t_refi ≡ c.next_refresh + p.t_refi = omega arith in
    rw (skip-suc p 0 c r, refresh_one-idle p c r h, end, due) refl
skip-idle p (suc (suc n)) c r h =
    let one = refresh_one p (c, r) in
    sym (skip-refresh_one p n c r h) ∙ skip-idle p (suc n) one.0 one.1 (refresh_one-IsIdle p c r h)

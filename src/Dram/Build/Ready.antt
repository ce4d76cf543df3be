-- ===== src/Dram/Build/Ready.antt =====
-- What holds of an engine that the constructor of targets/hetero/dram_core.hpp makes.
use mathlib.Core.Path.{subst}
use native.Mathlib.Nat.{mod-eq_of_lt, mul-le-mul_left}
use k9r.Base.{
  u64_mod, ◌%◌, ◌≤◌, ◌^◌, ◌<◌, ℕ, zero, suc, ◌*◌, ◌/◌, ◌%◌, ◌≤◌, ◌<◌, ◌≡◌, ◌∙◌, refl, sym, ap, ◌⊎◌,
  inl, inr, List, [], ◌∷◌, All, Option, none, some, Bool, true, not, ◌||◌, ◌==◌, arith, length,
  Array, Bool-cases, if_both, if_true, if_false,
}
use k9r.Base.Powers.{bit_and-power, power_multiple}
use k9r.Dram.{Params}
use k9r.Dram.Mapping.{Field, Parsed, size_of, burst_bytes, decode, parse_mapping}
use k9r.Dram.Mapping.Parse.{IsMapping, parse_mapping-IsMapping}
use k9r.Dram.Plan.{bank_index}
use k9r.Dram.Burst.{Engine, channel_of}
use k9r.Dram.Queue.{Limits}
use k9r.Dram.Access.{Kind, align}
use k9r.Dram.Build.Places.{IsPower, power_pos, decode-lt, bank_index-lt}
use k9r.Dram.Build.{
  Config, Checked, Built, is_power, power_checks, first_not_power, idle_banks, is_queue, nb_banks,
  fresh_engine, with_mapping, with_powers, build_kind, build,
}

is_power-IsPower : (v : ℕ) → is_power v ≡ true → IsPower v
is_power-IsPower v e = bit_and-power v (ground arith) (ground arith)

first_not_power-none :
    (xs : List (ℕ × Checked)) → first_not_power xs ≡ none → All (λ x. IsPower x.0) xs
unfolding first_not_power
first_not_power-none [] e = tt
first_not_power-none (x ∷ xs) e = elim (Bool-cases (is_power x.0)) [
  | inl power ↦
      (is_power-IsPower x.0 power, first_not_power-none xs (sym (if_true (some x.1) power) ∙ e))
  | inr other ↦ ground (arith, sym (if_false (first_not_power xs) other) ∙ e)
]

length-idle_banks : (n : ℕ) → length (idle_banks n) ≡ n
unfolding idle_banks
length-idle_banks zero = refl
length-idle_banks (suc n) = ap suc (length-idle_banks n)

-- Sizes within the types of the code: a burst's bytes are an `int64_t`, and the coordinates of a
-- channel and a bank are `int`.
pub record InRange (p : Params) : Type 0 where
  pub burst : burst_bytes p < 2 ^ 63
  pub channels : p.channels ≤ 2 ^ 31
  pub banks : p.ranks * p.bankgroups * p.banks ≤ 2 ^ 31

-- The number of banks does not wrap.
nb_banks-exact :
    (p : Params) → IsPower p.banks → InRange p → nb_banks p ≡ p.ranks * p.bankgroups * p.banks
nb_banks-exact p power fits =
    let some_bank = power_pos power in
    let part : p.ranks * p.bankgroups * 1 ≤ p.ranks * p.bankgroups * p.banks =
      mul-le-mul_left (p.ranks * p.bankgroups) some_bank in
    let inner : p.ranks * p.bankgroups % u64_mod ≡ p.ranks * p.bankgroups =
      mod-eq_of_lt (omega (arith, part, fits.banks)) in
    ap (λ x. x * p.banks % u64_mod) inner ∙ mod-eq_of_lt (omega (arith, fits.banks))

-- What is relied on: the mapping is one; granules are whole bursts; the marks of the queue are in
-- order, if there is one; and each address is decoded into one of the channels, and into a bank that
-- each channel has.
pub record IsReady (c : Config) (fs : List Field) (e : Engine) : Type 0 where
  pub mapping : IsMapping c.params fs
  pub granules : (k : ℕ) × (align c.params ≡ k * burst_bytes c.params)
  pub queue :
      (c.limits.wq_depth ≡ 0)
      ⊎ ((c.limits.wq_low ≤ c.limits.wq_high) × (c.limits.wq_high < c.limits.wq_depth))
  pub in_channels : (addr : ℕ) → channel_of (decode c.params fs addr) < c.params.channels
  pub in_banks :
      (addr ch : ℕ) → bank_index c.params (decode c.params fs addr) < length (e.chan ch).banks

is_queue-marks :
    (l : Limits)
    → is_queue l ≡ true
    → (l.wq_depth ≡ 0) ⊎ ((l.wq_low ≤ l.wq_high) × (l.wq_high < l.wq_depth))
is_queue-marks l e = elim (Bool-cases (l.wq_depth == 0)) [
  | inl off ↦ inl (ground arith)
  | inr on ↦ inr (ground arith)
]

size_of-IsPower :
    (p : Params)
    → All (λ x. IsPower x.0) (power_checks p)
    → IsPower (p.page_bytes / burst_bytes p)
    → (k : ℕ) → IsPower (size_of p k)
size_of-IsPower p (ch, (ra, (bg, (ba, (ro, rest))))) page k = if_both IsPower (k == 0) ro (
    if_both IsPower (k == 1) ra (
      if_both IsPower (k == 2) bg (if_both IsPower (k == 3) ba (if_both IsPower (k == 4) page ch))))

fresh_engine-IsReady :
    (c : Config) (fs : List Field) (seen : Array Bool)
    → All (λ x. IsPower x.0) (power_checks c.params)
    → IsPower (c.params.page_bytes / burst_bytes c.params)
    → parse_mapping c.params c.mapping ≡ Parsed.parsed fs seen
    → is_queue c.limits ≡ true
    → InRange c.params
    → IsReady c fs (fresh_engine c.params)
fresh_engine-IsReady c fs seen powers page names marks fits =
    let p = c.params in
    let mapping = parse_mapping-IsMapping p c.mapping fs seen names in
    let place = decode-lt p fs (size_of-IsPower p powers page) mapping.wide in
    record {
      mapping = mapping;
      granules = whole powers;
      queue = is_queue-marks c.limits marks;
      in_channels = λ addr. place addr 5;
      in_banks = λ addr ch.
          let here =
            bank_index-lt (decode p fs addr 1) (decode p fs addr 2) (decode p fs addr 3) p.ranks
              p.bankgroups p.banks (place addr 1) (place addr 2) (place addr 3) in
          omega (arith, here, length-idle_banks (nb_banks p), nb_banks-exact p powers.1.1.1.0 fits);
    }
  where
    whole :
        All (λ x. IsPower x.0) (power_checks c.params)
        → (k : ℕ) × (align c.params ≡ k * burst_bytes c.params)
    whole (ch, (ra, (bg, (ba, (ro, ((j, small), ((i, great), rest))))))) =
        let (k, e) = power_multiple i j (omega (arith, small, great)) in
        (k, great ∙ e ∙ ap (λ x. k * x) (sym small))

abbrev Readies : Config → Built → Type 0
Readies c Built.hyper_engine = Unit
Readies c (Built.refused x) = Unit
Readies c (Built.dram_engine fs e) = IsReady c fs e

with_mapping-Readies :
    (c : Config) (r : Parsed)
    → All (λ x. IsPower x.0) (power_checks c.params)
    → IsPower (c.params.page_bytes / burst_bytes c.params)
    → parse_mapping c.params c.mapping ≡ r
    → InRange c.params
    → Readies c (with_mapping c r)
with_mapping-Readies c (Parsed.refused x) powers page e fits = tt
with_mapping-Readies c (Parsed.parsed fs seen) powers page e fits =
    elim (Bool-cases (is_queue c.limits)) [
      | inl marks ↦ rw (marks) (fresh_engine-IsReady c fs seen powers page e marks fits)
      | inr bad ↦ rw (bad) tt
    ]

with_powers-Readies :
    (c : Config) (r : Option Checked)
    → first_not_power (power_checks c.params) ≡ r
    → InRange c.params
    → Readies c (with_powers c r)
with_powers-Readies c (some x) e fits = tt
with_powers-Readies c none e fits =
    let p = c.params in
    let powers = first_not_power-none (power_checks p) e in
    if_both (Readies c) (not (p.page_bytes % burst_bytes p == 0)) tt
      (elim (Bool-cases (is_power (p.page_bytes / burst_bytes p))) [
        | inl page ↦ rw (page) (
            with_mapping-Readies c (parse_mapping p c.mapping) powers
              (is_power-IsPower (p.page_bytes / burst_bytes p) page) refl fits)
        | inr bad ↦ rw (bad) tt
      ])

build_kind-Readies : (c : Config) (k : Option Kind) → InRange c.params → Readies c (build_kind c k)
build_kind-Readies c none fits = tt
build_kind-Readies c (some Kind.hyperram) fits =
    let p = c.params in
    if_both (Readies c) ((p.hb_ck_ps == 0) || ((p.hb_bus_bytes == 0) || (p.granule == 0))) tt tt
build_kind-Readies c (some Kind.dram) fits =
    with_powers-Readies c (first_not_power (power_checks c.params)) refl fits

-- A memory that the constructor makes from sizes within the types of the code is ready: its mapping
-- names each coordinate that has more than one value, none of them twice, with the bits that its
-- size asks for; granules are whole bursts; with a queue, the marks are in order; and every address
-- is decoded into one of the channels and into a bank that the channels have.
pub build-IsReady :
    (c : Config) (fs : List Field) (e : Engine)
    → build c ≡ Built.dram_engine fs e
    → InRange c.params
    → IsReady c fs e
unfolding build
build-IsReady c fs e made fits = subst (Readies c) made (build_kind-Readies c c.kind fits)

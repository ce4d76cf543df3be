-- ===== src/Base/Powers.antt =====
-- Powers of two: the test `v & (v - 1)`, and which of two powers divides the other.
use Prim.Native.Nat.{
  ℕ, zero, suc, ◌+◌, ◌-◌, ◌*◌, ◌/◌, ◌%◌, ◌^◌, ◌≤◌, ◌<◌, min, bit_and, digits, bit_and-bitwise,
}
use mathlib.Core.Path.{◌≡◌, refl, sym, ap, ◌∙◌}
use native.Mathlib.Decide.{dec_lt, ℕ_discrete}
use native.Mathlib.Nat.{pow-suc, pow-le-pow_right, div-add-mod', mod-lt, mul-le-mul_right}
use native.Mathlib.Omega.{arith}

abbrev both : (rounds a b : ℕ) → ℕ
both = digits (λ b. zero) min

digits_0 : (n a : ℕ) → a ≤ n → both n a a ≡ 0 → a ≡ 0
digits_0 zero a le e = omega arith
digits_0 (suc n) zero le e = refl
digits_0 (suc n) (suc a) le e =
    let half : suc a / 2 ≡ 0 = digits_0 n (suc a / 2) (omega arith) (omega (arith, e)) in
    omega (arith, e, half)

digits_power : (n a : ℕ) → a ≤ n → 0 < a → both n a (a - 1) ≡ 0 → (k : ℕ) × (a ≡ 2 ^ k)
digits_power zero a le pos e = absurd (omega arith)
digits_power (suc n) zero le pos e = absurd (omega arith)
digits_power (suc n) (suc a) le pos e =
    let prev : a ≡ suc a - 1 = omega arith in
    let both_0 : both (suc n) (suc a) a ≡ 0 = ap (both (suc n) (suc a)) prev ∙ e in
    elim (ℕ_discrete (suc a % 2) 0) [
      | yes even ↦
          let same : suc a / 2 - 1 ≡ a / 2 = omega (arith, even) in
          let rest : both n (suc a / 2) (a / 2) ≡ 0 = omega (arith, both_0) in
          let (k, half) =
            digits_power n (suc a / 2) (omega arith) (omega (arith, even))
              (ap (both n (suc a / 2)) same ∙ rest) in
          (suc k, omega (arith, half, even))
      | no odd ↦
          let same : suc a / 2 ≡ a / 2 = omega arith in
          let rest : both n (suc a / 2) (a / 2) ≡ 0 = omega (arith, both_0) in
          let half = digits_0 n (suc a / 2) (omega arith) (ap (both n (suc a / 2)) same ∙ rest) in
          (0, omega (arith, half))
    ]

-- A positive number that passes the test is a power of two.
pub bit_and-power : (v : ℕ) → 0 < v → bit_and v (v - 1) ≡ 0 → (k : ℕ) × (v ≡ 2 ^ k)
bit_and-power v pos e = digits_power v v (omega arith) pos (sym (bit_and-bitwise v (v - 1)) ∙ e)

-- The greater of two powers of two is a multiple of the other.
pub power_multiple : (i j : ℕ) → 2 ^ j ≤ 2 ^ i → (k : ℕ) × (2 ^ i ≡ k * 2 ^ j)
power_multiple i zero le = (2 ^ i, omega arith)
power_multiple zero (suc j) le =
    let pos : 2 ^ 0 ≤ 2 ^ j =
      pow-le-pow_right {n = 2} (omega arith) {i = 0} {j = j} (omega arith) in
    absurd (omega (arith, le, pos))
power_multiple (suc i) (suc j) le =
    let (k, e) = power_multiple i j (omega arith) in
    (k, pow-suc 2 i ∙ omega (arith, ap (λ x. x * 2) e, ap (λ x. k * x) (pow-suc 2 j)))

pub power_pos : (k : ℕ) → 0 < 2 ^ k
power_pos k =
    let one : 2 ^ 0 ≤ 2 ^ k =
      pow-le-pow_right {n = 2} (omega arith) {i = 0} {j = k} (omega arith) in
    omega (arith, one)

-- A number in one of the blocks of `g`, and a later one.
pub blocks_between :
    (g a b : ℕ)
    → 0 < g
    → a ≤ b
    → (a / g ≤ b / g)
      × (a / g * g ≤ a)
      × (a < (a / g + 1) * g)
      × (b / g * g ≤ b)
      × (b < (b / g + 1) * g)
blocks_between g a b pos le =
    let low = div-add-mod' a g in
    let low_rest = mod-lt a pos in
    let high = div-add-mod' b g in
    let high_rest = mod-lt b pos in
    let order : a / g ≤ b / g = elim (dec_lt (b / g) (a / g)) [
      | yes less ↦
          let far : suc (b / g) * g ≤ a / g * g = mul-le-mul_right g less in
          absurd (omega (arith, far, low, high, high_rest))
      | no ordered ↦ omega arith
    ] in
    (
      order,
      omega (arith, low),
      omega (arith, low, low_rest),
      omega (arith, high),
      omega (arith, high, high_rest),
    )

-- ===== src/Kernel/Fft/Reverse.antt =====
-- `bit_reverse` of the MFCC kernels against the mirror image of a number in `m` bits.
use native.Mathlib.Nat.{
  div-div-eq-div-mul, pow-succ', pow-le-pow_right, mul-add-div_right, div-eq_of_lt,
}
use k9r.Base.{
  ℕ, zero, suc, ◌+◌, ◌*◌, ◌/◌, ◌%◌, ◌^◌, ◌≤◌, ◌<◌, ◌≡◌, ◌∙◌, ◌⊎◌, inl, inr, refl, ap, arith, u32,
}
use k9r.Kernel.Fft.{bit_reverse}

-- The low bit comes first.
unfoldable pub mirror : (m i : ℕ) → ℕ
mirror zero i = 0
mirror (suc m) i = i % 2 * 2 ^ m + mirror m (i / 2)

pub mirror-lt : (m i : ℕ) → mirror m i < 2 ^ m
unfolding mirror
mirror-lt zero i = omega arith
mirror-lt (suc m) i = elim (parity i) [
  | inl even ↦ rw even (omega (arith, mirror-lt m (i / 2), pow-succ' 2 m))
  | inr odd ↦ rw odd (omega (arith, mirror-lt m (i / 2), pow-succ' 2 m))
]
  where
    parity : (i : ℕ) → (i % 2 ≡ 0) ⊎ (i % 2 ≡ 1)
    parity i = ground arith

-- The high bit comes last.
pub mirror_high : (m i : ℕ) → mirror (suc m) i ≡ 2 * mirror m i + i / 2 ^ m % 2
unfolding mirror
mirror_high zero i = omega arith
mirror_high (suc m) i = omega (
  arith,
  mirror_high m (i / 2),
  ap (λ t. t % 2) (div-div-eq-div-mul i 2 (2 ^ m)),
  ap (λ t. i / t % 2) (pow-succ' 2 m),
  ap (λ t. i % 2 * t) (pow-succ' 2 m),
)

mirror_low : (m c t : ℕ) → t < 2 ^ m → mirror m (c * 2 ^ m + t) ≡ mirror m t
unfolding mirror
mirror_low zero c t lt = refl
mirror_low (suc m) c t lt =
    let x : ℕ = c * 2 ^ suc m + t in
    let double : c * 2 ^ suc m ≡ 2 * (c * 2 ^ m) = omega (arith, ap (λ p. c * p) (pow-succ' 2 m)) in
    let low : x % 2 ≡ t % 2 = omega (arith, double) in
    let half : x / 2 ≡ c * 2 ^ m + t / 2 = omega (arith, double) in
    ap (λ b. b * 2 ^ m + mirror m (x / 2)) low
    ∙ ap (λ h. t % 2 * 2 ^ m + mirror m h) half
    ∙ ap (λ r. t % 2 * 2 ^ m + r) (mirror_low m c (t / 2) (omega (arith, pow-succ' 2 m)))

-- Twice mirrored is as before.
pub mirror_twice : (m i : ℕ) → i < 2 ^ m → mirror m (mirror m i) ≡ i
unfolding mirror
mirror_twice zero i lt = omega arith
mirror_twice (suc m) i lt =
    let t : ℕ = mirror m (i / 2) in
    let k : ℕ = i % 2 * 2 ^ m + t in
    let below = mirror-lt m (i / 2) in
    let high : k / 2 ^ m ≡ i % 2 =
      mul-add-div_right (omega (arith, below)) (i % 2) t ∙ omega (arith, div-eq_of_lt below) in
    let low : mirror m k ≡ i / 2 =
      mirror_low m (i % 2) t below ∙ mirror_twice m (i / 2) (omega (arith, pow-succ' 2 m)) in
    mirror_high m k ∙ omega (arith, low, ap (λ q. q % 2) high)

pub bit_reverse-mirror : (i bits : ℕ) → bits ≤ 32 → bit_reverse i bits ≡ mirror bits i
unfolding bit_reverse mirror
bit_reverse-mirror i zero le = refl
bit_reverse-mirror i (suc b) le =
    ap (λ r. u32 (2 * r) + i / 2 ^ b % 2) (bit_reverse-mirror i b (omega arith))
    ∙ omega (
      arith,
      mirror_high b i,
      fits (mirror-lt b i) (pow-le-pow_right {n = 2} (omega arith) {i = b} {j = 31} (omega arith)),
    )
  where
    fits : mirror b i < 2 ^ b → 2 ^ b ≤ 2 ^ 31 → u32 (2 * mirror b i) ≡ 2 * mirror b i
    fits lt le = omega arith

-- ===== src/Kernel/Fft/Correct.antt =====
-- `fft_radix2` of the MFCC kernels computes the Fourier transform.
use mathlib.Core.Path.{fun_ext, ap₂}
use native.Mathlib.Nat.{pow-succ', pow-le-pow_right, mul-le-mul_right}
use k9r.Base.{
  ℕ, zero, suc, ◌+◌, ◌*◌, ◌^◌, ◌≤◌, ◌<◌, ◌≡◌, ◌∙◌, ap, arith, u32, u32_mod, lt→ltb, le→ltb, leb,
  le→leb, lt→leb, if_true, if_false, true, dec_lt, Option, none, some, for,
}
use k9r.Kernel.Compute.{Float}
use k9r.Kernel.Fft.{Signal, log2_from, reorder, stage, stages, fft_radix2}
use k9r.Kernel.Fft.Reverse.{mirror, mirror-lt}
use k9r.Kernel.Fft.Reorder.{reorder-mirrors}
use k9r.Kernel.Fft.Passes.{Complex, at}
use k9r.Kernel.Fft.Recursive.{fourier, Holds, stage-Holds}

-- Powers of two that fit a word.
pub power-lt : (s : ℕ) → s ≤ 31 → 2 ^ s < u32_mod
power-lt s le = omega (arith, pow-le-pow_right {n = 2} (omega arith) {i = s} {j = 31} le)

log2_from-power :
    (k fuel bits : ℕ) → bits ≤ k → k < bits + fuel → k ≤ 30 → log2_from fuel bits (2 ^ k) ≡ some k
unfolding log2_from
log2_from-power k zero bits le enough small = absurd (omega arith)
log2_from-power k (suc fuel) bits le enough small =
    let word : u32 (2 ^ bits) ≡ 2 ^ bits = omega (arith, power-lt bits (omega arith)) in
    elim (dec_lt bits k) [
      | yes lt ↦
          let below = pow-le-pow_right {n = 2} (omega arith) {i = suc bits} {j = k} (omega arith) in
          if_true (some bits) (
            lt→ltb (u32 (2 ^ bits)) (2 ^ k)
              (omega (arith, word, below, pow-succ' 2 bits, mirror-lt bits 0)))
          ∙ log2_from-power k fuel (bits + 1) (omega arith) (omega arith) small
      | no ge ↦
          let same : bits ≡ k = omega arith in
          if_false (log2_from fuel (bits + 1) (2 ^ k))
            (le→ltb (u32 (2 ^ bits)) (2 ^ k) (omega (arith, word, ap (λ q. 2 ^ q) same)))
          ∙ ap some same
    ]

module _ {F : Type 0} (fl : Float F) (fsub : F → F → F) (tw : ℕ → F) (k : ℕ) (small : k ≤ 30) where
  abbrev n : ℕ
  n = 2 ^ k

  -- The transform of the whole signal.
  abbrev Whole : (ℕ → Complex F) → Signal F → Type 0
  Whole x t = (p : ℕ) → p < n → at t p ≡ fourier fl fsub tw n k x p

  Holds-Whole :
      (s : ℕ) (x : ℕ → Complex F) (t : Signal F) → s ≡ k → Holds fl fsub tw n s 0 x t → Whole x t
  unfolding mirror
  Holds-Whole s x t e h p hp =
      let every : ◌≡◌ {A = ℕ → Complex F} (λ i. x (i * 2 ^ 0 + 0)) x =
        fun_ext (λ i. ap x (omega arith)) in
      let place : p ≡ 0 * 2 ^ s + p = omega arith in
      ap (at t) place
      ∙ h 0 p (omega arith) (omega (arith, hp, ap (λ q. 2 ^ q) e))
      ∙ ap (λ y. fourier fl fsub tw n s y p) every
      ∙ ap (λ q. fourier fl fsub tw n q x p) e

  stages-Whole :
      (m s fuel : ℕ) (x : ℕ → Complex F) (t : Signal F)
      → s + m ≡ k
      → n ≡ 2 ^ m * 2 ^ s
      → m < fuel
      → Holds fl fsub tw n s m x t
      → (t' : Signal F) × (stages fl fsub tw fuel n (2 ^ suc s) t ≡ some t') × Whole x t'
  unfolding stages
  stages-Whole m s zero x t e split enough h = absurd (omega arith)
  stages-Whole zero s (suc fuel) x t e split enough h = (
    t,
    if_false _ (lt→leb (2 ^ suc s) n (omega (arith, split, pow-succ' 2 s, mirror-lt s 0))),
    Holds-Whole s x t (omega arith) h,
  )
  stages-Whole (suc m) s (suc fuel) x t e split enough h =
      let next : Signal F = stage fl fsub tw n (2 ^ suc s) t in
      let split' : n ≡ 2 ^ m * 2 ^ suc s =
        omega (
          arith,
          split,
          ap (λ q. q * 2 ^ s) (pow-succ' 2 m),
          ap (λ q. 2 ^ m * q) (pow-succ' 2 s),
        ) in
      let one : 1 ≤ 2 ^ m = omega (arith, mirror-lt m 0) in
      let again : leb (2 ^ suc s) n ≡ true =
        le→leb (2 ^ suc s) n (omega (arith, split', mul-le-mul_right (2 ^ suc s) one)) in
      let longer : u32 (2 * 2 ^ suc s) ≡ 2 ^ suc (suc s) =
        omega (arith, pow-succ' 2 (suc s), power-lt (suc (suc s)) (omega arith)) in
      let (t', ends, whole) =
        stages-Whole m (suc s) fuel x next (omega arith) split' (omega arith)
          (stage-Holds fl fsub tw n s m x t split' (power-lt k (omega arith)) h) in
      (t', if_true (some t) again ∙ ap (λ l. stages fl fsub tw fuel n l next) longer ∙ ends, whole)

  -- `fft_radix2` ends on a signal of 2 ^ `k` elements, and each element is then the Fourier
  -- transform of the signal, by even and odd halves, operation for operation: the transform of the
  -- even elements plus or minus the twiddle times that of the odd ones, down to single elements.
  -- This is for lengths up to 2 ^ 30.
  pub fft_radix2-fourier :
      (s : Signal F)
      → (t : Signal F) × (fft_radix2 fl fsub tw (2 ^ k) s ≡ some t)
        × ((p : ℕ)
            → p < 2 ^ k
            → (t.re p, t.im p) ≡ fourier fl fsub tw (2 ^ k) k (λ i. (s.re i, s.im i)) p)
  unfolding fft_radix2 fourier
  fft_radix2-fourier s =
      let mixed : Signal F = for n (reorder k) s in
      let after_bits : Option ℕ → Option (Signal F) = λ r. elim r [
        | none ↦ none
        | some bits ↦ stages fl fsub tw 33 (2 ^ k) 2 (for (2 ^ k) (reorder bits) s)
      ] in
      let start : Holds fl fsub tw n 0 k (at s) mixed = λ b j hb hj.
        let place : b * 2 ^ 0 + j ≡ b = omega arith in
        let first : mirror k b ≡ j * 2 ^ k + mirror k b =
          omega (arith, ap (λ q. q * 2 ^ k) (only j hj)) in
        let (re, im) = reorder-mirrors k (omega arith) s b hb in
        ap (at mixed) place ∙ ap₂ (λ u v. (u, v)) re im ∙ ap (at s) first in
      let (t, ends, whole) =
        stages-Whole k 0 33 (at s) mixed (omega arith) (omega arith) (omega arith) start in
      (t, ap after_bits (log2_from-power k 33 0 (omega arith) (omega arith) small) ∙ ends, whole)
    where
      only : (j : ℕ) → j < 2 ^ 0 → j ≡ 0
      only j lt = omega arith

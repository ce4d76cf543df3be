-- ===== src/Kernel/Fft/Recursive.antt =====
-- The Fourier transform that `fft_radix2` of the MFCC kernels is to compute, by its even and odd
-- halves, and how a stage doubles the length of the transforms that the blocks hold.
use mathlib.Core.Path.{ap₂}
use mathlib.Core.Path.{fun_ext}
use native.Mathlib.Nat.{mul-add-div_right, pow-succ', div-eq_of_lt, mul-le-mul_right}
use k9r.Base.{
  ℕ, zero, suc, ◌+◌, ◌-◌, ◌*◌, ◌/◌, ◌%◌, ◌^◌, ◌≤◌, ◌<◌, ◌≡◌, ◌∙◌, sym, ap, arith, u32_mod, mul32,
  for, ltb, lt→ltb, le→ltb, if◌then◌else◌, if_true, if_false, dec_lt,
}
use k9r.Kernel.Compute.{Float}
use k9r.Kernel.Fft.{Signal, butterfly, stage, blocks_of}
use k9r.Kernel.Fft.Reverse.{mirror, mirror-lt}
use k9r.Kernel.Fft.Passes.{Complex, at, pair_at, cadd, csub, turned, combine, low, pass, pass_pair}

module _ {F : Type 0} (fl : Float F) (fsub : F → F → F) (tw : ℕ → F) (n : ℕ) where
  -- Twiddle `j` of the transforms of length 2 ^ (s + 1), in the table for length `n`.
  abbrev pub twiddle : (s j : ℕ) → Complex F
  twiddle s j = (tw (2 * j * (n / 2 ^ suc s)), tw (2 * j * (n / 2 ^ suc s) + 1))

  -- Element `p` of the transform of the 2 ^ `s` elements of `x`.
  unfoldable pub fourier : (s : ℕ) → (ℕ → Complex F) → ℕ → Complex F
  fourier zero x p = x p
  fourier (suc s) x p =
      let half = 2 ^ s in
      let even = fourier s (λ i. x (2 * i)) in
      let odd = fourier s (λ i. x (2 * i + 1)) in
      let first = cadd fl fsub (even p) (turned fl fsub (twiddle s p) (odd p)) in
      let q = p - half in
      let second = csub fl fsub (even q) (turned fl fsub (twiddle s q) (odd q)) in
      if ltb p half then first else second

  -- Block `b` of 2 ^ `s` elements holds the transform of every 2 ^ `m`th element of `x`, from the
  -- mirrored `b` on.
  abbrev pub Holds : (s m : ℕ) → (ℕ → Complex F) → Signal F → Type 0
  Holds s m x t =
      (b j : ℕ)
      → b < 2 ^ m
      → j < 2 ^ s
      → at t (b * 2 ^ s + j) ≡ fourier s (λ i. x (i * 2 ^ m + mirror m b)) j

  -- What a stage takes for the twiddle, in 32-bit arithmetic.
  abbrev pub twiddle32 : (s j : ℕ) → Complex F
  twiddle32 s j =
      (tw (mul32 (mul32 2 j) (n / 2 ^ suc s)), tw (mul32 (mul32 2 j) (n / 2 ^ suc s) + 1))

  stage-pass :
      (s m : ℕ) (t : Signal F)
      → n ≡ 2 ^ m * 2 ^ suc s
      → stage fl fsub tw n (2 ^ suc s) t ≡ pass fl fsub (2 ^ s) (2 ^ m) (twiddle32 s) t
  unfolding stage
  stage-pass s m t e =
      let len : ℕ = 2 ^ suc s in
      let loops : ℕ → ℕ → ℕ → Signal F = λ half nb l.
        for half
          (λ j. for nb (λ i.
            butterfly fl fsub (twiddle32 s j).0 (twiddle32 s j).1 (i * l + j) (i * l + j + half)))
          t in
      let double : len ≡ 2 * 2 ^ s = pow-succ' 2 s in
      let half : len / 2 ≡ 2 ^ s = omega (arith, double) in
      let some : 0 < 2 ^ s = omega (arith, mirror-lt s 0) in
      let last : (len - 1) / len ≡ 0 = div-eq_of_lt (omega (arith, double)) in
      let count : blocks_of n len ≡ 2 ^ m =
        ap (λ x. x / len) (omega (arith, e, double))
        ∙ mul-add-div_right (omega (arith, double)) (2 ^ m) (len - 1)
        ∙ omega (arith, last) in
      ap (λ q. loops q (blocks_of n len) len) half
      ∙ ap (λ q. loops (2 ^ s) q len) count
      ∙ ap (λ q. loops (2 ^ s) (2 ^ m) q) double

  twiddle32-twiddle :
      (s m j : ℕ) → n ≡ 2 ^ m * 2 ^ suc s → n < u32_mod → j < 2 ^ s → twiddle32 s j ≡ twiddle s j
  twiddle32-twiddle s m j e fits hj =
      let len : ℕ = 2 ^ suc s in
      let double : len ≡ 2 * 2 ^ s = pow-succ' 2 s in
      let count : n / len ≡ 2 ^ m =
        let none_left : 0 / len ≡ 0 = div-eq_of_lt (omega (arith, double, mirror-lt s 0)) in
        ap (λ x. x / len) (omega (arith, e))
        ∙ mul-add-div_right (omega (arith, double, mirror-lt s 0)) (2 ^ m) 0
        ∙ omega (arith, none_left) in
      let index : mul32 (mul32 2 j) (n / len) ≡ 2 * j * (n / len) =
        let below : 2 * j + 1 ≤ len = omega (arith, double) in
        let one : 1 ≤ 2 ^ m = omega (arith, mirror-lt m 0) in
        let twice : mul32 2 j ≡ 2 * j = omega (arith, e, mul-le-mul_right len one) in
        ap (mul32 (mul32 2 j)) count
        ∙ ap (λ q. mul32 q (2 ^ m)) twice
        ∙ omega (arith, e, mul-le-mul_right (2 ^ m) below, mul-le-mul_right len one)
        ∙ ap (λ q. 2 * j * q) (sym count) in
      ap (λ q. (tw q, tw (q + 1))) index

  -- The elements that the two halves of a transform take.
  evens :
      (m b : ℕ) (x : ℕ → Complex F)
      → ◌≡◌ {A = ℕ → Complex F}
          (λ i. x (i * 2 ^ suc m + mirror (suc m) (2 * b)))
          (λ i. x (2 * i * 2 ^ m + mirror m b))
  unfolding mirror
  evens m b x = fun_ext (λ i. ap x (even i))
    where
      even : (i : ℕ) → i * 2 ^ suc m + mirror (suc m) (2 * b) ≡ 2 * i * 2 ^ m + mirror m b
      even i =
          let half : 2 * b / 2 ≡ b = omega arith in
          let bit : 2 * b % 2 ≡ 0 = omega arith in
          omega
            (arith, ap (λ t. i * t) (pow-succ' 2 m), ap (mirror m) half, ap (λ t. t * 2 ^ m) bit)

  odds :
      (m b : ℕ) (x : ℕ → Complex F)
      → ◌≡◌ {A = ℕ → Complex F}
          (λ i. x (i * 2 ^ suc m + mirror (suc m) (2 * b + 1)))
          (λ i. x ((2 * i + 1) * 2 ^ m + mirror m b))
  unfolding mirror
  odds m b x = fun_ext (λ i. ap x (odd i))
    where
      odd : (i : ℕ) → i * 2 ^ suc m + mirror (suc m) (2 * b + 1) ≡ (2 * i + 1) * 2 ^ m + mirror m b
      odd i =
          let half : (2 * b + 1) / 2 ≡ b = omega arith in
          let bit : (2 * b + 1) % 2 ≡ 1 = omega arith in
          omega
            (arith, ap (λ t. i * t) (pow-succ' 2 m), ap (mirror m) half, ap (λ t. t * 2 ^ m) bit)

  -- The half transforms that element `j` and its partner come from.
  abbrev halves : (s m b : ℕ) → (ℕ → Complex F) → ℕ → Complex F × Complex F
  halves s m b x j = (
    fourier s (λ i. x (2 * i * 2 ^ m + mirror m b)) j,
    fourier s (λ i. x ((2 * i + 1) * 2 ^ m + mirror m b)) j,
  )

  pair-halves :
      (s m b j : ℕ) (x : ℕ → Complex F) (t : Signal F)
      → Holds s (suc m) x t
      → b < 2 ^ m
      → j < 2 ^ s
      → pair_at (low (2 ^ s) b j) (low (2 ^ s) b j + 2 ^ s) t ≡ halves s m b x j
  pair-halves s m b j x t h hb hj =
      let half : ℕ = 2 ^ s in
      let wider : 2 ^ suc m ≡ 2 * 2 ^ m = pow-succ' 2 m in
      let left : low half b j ≡ 2 * b * half + j = omega arith in
      let right : low half b j + half ≡ (2 * b + 1) * half + j = omega arith in
      ap₂ {C = Complex F × Complex F} (λ u v. (u, v))
        (ap (at t) left
          ∙ h (2 * b) j (omega (arith, wider)) hj
          ∙ ap (λ y. fourier s y j) (evens m b x))
        (ap (at t) right
          ∙ h (2 * b + 1) j (omega (arith, wider)) hj
          ∙ ap (λ y. fourier s y j) (odds m b x))

  pub stage-Holds :
      (s m : ℕ) (x : ℕ → Complex F) (t : Signal F)
      → n ≡ 2 ^ m * 2 ^ suc s
      → n < u32_mod
      → Holds s (suc m) x t
      → Holds (suc s) m x (stage fl fsub tw n (2 ^ suc s) t)
  unfolding fourier
  stage-Holds s m x t e fits h b p hb hp =
      let len : ℕ = 2 ^ suc s in
      let half : ℕ = 2 ^ s in
      let double : len ≡ 2 * half = pow-succ' 2 s in
      let t' : Signal F = stage fl fsub tw n len t in
      let base : b * len ≡ b * (2 * half) = ap (λ q. b * q) double in
      let pairs : (j : ℕ)
          → j < half
          → pair_at (low half b j) (low half b j + half) t'
            ≡ combine fl fsub (twiddle s j) (halves s m b x j) =
        λ j hj.
          ap (pair_at (low half b j) (low half b j + half)) (stage-pass s m t e)
          ∙ pass_pair fl fsub half (2 ^ m) b j (twiddle32 s) t hb hj
          ∙ ap (λ w. combine fl fsub w (pair_at (low half b j) (low half b j + half) t))
              (twiddle32-twiddle s m j e fits hj)
          ∙ ap (combine fl fsub (twiddle s j)) (pair-halves s m b j x t h hb hj) in
      elim (dec_lt p half) [
        | yes first ↦
            let place : b * len + p ≡ low half b p = omega (arith, base) in
            ap (at t') place ∙ ap (λ z. z.0) (pairs p first) ∙ sym (if_true _ (lt→ltb p half first))
        | no second ↦
            let j : ℕ = p - half in
            let place : b * len + p ≡ low half b j + half = omega (arith, base) in
            ap (at t') place
            ∙ ap (λ z. z.1) (pairs j (omega (arith, double)))
            ∙ sym (if_false _ (le→ltb p half (omega arith)))
      ]

  -- A transform takes the elements of its length only.
  pub fourier-eq :
      (s : ℕ) (x y : ℕ → Complex F) (p : ℕ)
      → p < 2 ^ s
      → ((i : ℕ) → i < 2 ^ s → x i ≡ y i)
      → fourier s x p ≡ fourier s y p
  unfolding fourier
  fourier-eq zero x y p hp same = same p hp
  fourier-eq (suc s) x y p hp same =
      let half : ℕ = 2 ^ s in
      let double : 2 ^ suc s ≡ 2 * half = pow-succ' 2 s in
      let even : (q : ℕ) → q < half → fourier s (λ i. x (2 * i)) q ≡ fourier s (λ i. y (2 * i)) q =
        λ q hq.
          fourier-eq s (λ i. x (2 * i)) (λ i. y (2 * i)) q hq
            (λ i hi. same (2 * i) (omega (arith, double))) in
      let odd : (q : ℕ)
          → q < half
          → fourier s (λ i. x (2 * i + 1)) q ≡ fourier s (λ i. y (2 * i + 1)) q =
        λ q hq.
          fourier-eq s (λ i. x (2 * i + 1)) (λ i. y (2 * i + 1)) q hq
            (λ i hi. same (2 * i + 1) (omega (arith, double))) in
      elim (dec_lt p half) [
        | yes first ↦
            if_true _ (lt→ltb p half first)
            ∙ ap₂ (λ u v. cadd fl fsub u (turned fl fsub (twiddle s p) v)) (even p first)
                (odd p first)
            ∙ sym (if_true _ (lt→ltb p half first))
        | no second ↦
            let q : ℕ = p - half in
            let past = le→ltb p half (omega arith) in
            if_false _ past
            ∙ ap₂ (λ u v. csub fl fsub u (turned fl fsub (twiddle s q) v))
                (even q (omega (arith, double))) (odd q (omega (arith, double)))
            ∙ sym (if_false _ past)
      ]

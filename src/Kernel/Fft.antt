-- ===== src/Kernel/Fft.antt =====
-- `bit_reverse` and `fft_radix2`, the same in runtime/common/kernels/mfcc_fp32.c and in
-- runtime/snitch/kernels/mfcc_fp32_ssr.c. Floats are those of the other kernels, and `fsub`
-- subtracts them.
pub mod Reverse
pub mod Reorder
pub mod Passes
pub mod Recursive
pub mod Correct
use k9r.Base.{
  ℕ, zero, suc, ◌+◌, ◌-◌, ◌*◌, ◌/◌, ◌%◌, ◌^◌, Array, update, u32, mul32, Bool, true, false, ltb,
  leb, if◌then◌else◌, Option, none, some, for,
}
use k9r.Kernel.Compute.{Float}

-- `r` after the first `bits` rounds; `r << 1` leaves room for the bit.
unfoldable pub bit_reverse : (i bits : ℕ) → ℕ
bit_reverse i zero = 0
bit_reverse i (suc b) = u32 (2 * bit_reverse i b) + i / 2 ^ b % 2

-- The least number of bits from `bits` on whose power is not below `n`; `none` without fuel.
unfoldable pub log2_from : (fuel bits n : ℕ) → Option ℕ
log2_from zero bits n = none
log2_from (suc fuel) bits n =
    let rest = log2_from fuel (bits + 1) n in if ltb (u32 (2 ^ bits)) n then rest else some bits

-- The two arrays of `fft_radix2`, `re` and `im`.
pub record Signal (F : Type 0) : Type 0 where
  pub re : Array F
  pub im : Array F

unfoldable pub swap : {F : Type 0} → (i j : ℕ) → Array F → Array F
swap i j x = update (update x i (x j)) j (x i)

-- A round of the reordering.
unfoldable pub reorder : {F : Type 0} → (bits i : ℕ) → Signal F → Signal F
unfolding swap bit_reverse
reorder bits i s =
    let j = bit_reverse i bits in
    if ltb i j then record { re = swap i j s.re; im = swap i j s.im } else s

-- How often `for (base = 0; base < n; base += len)` goes round.
abbrev pub blocks_of : (n len : ℕ) → ℕ
blocks_of n len = (n + len - 1) / len

module _ {F : Type 0} (fl : Float F) (fsub : F → F → F) where
  -- The butterfly of the elements `a` and `b` with the twiddle `wr`, `wi`.
  unfoldable pub butterfly : (wr wi : F) → (a b : ℕ) → Signal F → Signal F
  butterfly wr wi a b s =
      let xr = s.re b in
      let xi = s.im b in
      let vr = fsub (fl.fmul xr wr) (fl.fmul xi wi) in
      let vi = fl.fadd (fl.fmul xr wi) (fl.fmul xi wr) in
      let ur = s.re a in
      let ui = s.im a in
      record {
        re = update (update s.re a (fl.fadd ur vr)) b (fsub ur vr);
        im = update (update s.im a (fl.fadd ui vi)) b (fsub ui vi);
      }

module _ {F : Type 0} (fl : Float F) (fsub : F → F → F) (tw : ℕ → F) where
  -- The two inner loops at the length `len`.
  unfoldable pub stage : (n len : ℕ) → Signal F → Signal F
  unfolding butterfly for
  stage n len =
      let half = len / 2 in
      let step = n / len in
      for half (λ j. for (blocks_of n len) (λ i.
        butterfly fl fsub (tw (mul32 (mul32 2 j) step)) (tw (mul32 (mul32 2 j) step + 1))
          (i * len + j) (i * len + j + half)))

  -- The loop over the lengths; `none` without fuel.
  unfoldable pub stages : (fuel n len : ℕ) → Signal F → Option (Signal F)
  unfolding stage
  stages zero n len s = none
  stages (suc fuel) n len s =
      let rest = stages fuel n (u32 (2 * len)) (stage n len s) in if leb len n then rest else some s

  -- `fft_radix2`; 33 rounds of the loops on lengths and on bits are enough for 32-bit lengths.
  unfoldable pub fft_radix2 : (n : ℕ) → Signal F → Option (Signal F)
  unfolding log2_from reorder for stages
  fft_radix2 n s = elim (log2_from 33 0 n) [
    | none ↦ none
    | some bits ↦ stages 33 n 2 (for n (reorder bits) s)
  ]

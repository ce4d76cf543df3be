-- ===== src/Dram/Build/Places.antt =====
-- Where addresses are decoded to in targets/hetero/dram_core.hpp, when the sizes are powers of two.
use mathlib.Core.Path.{subst}
use native.Mathlib.Nat.{mod-lt, mul-le-mul_right, pow-le-pow_right}
use k9r.Base.{
  ℕ, zero, suc, ◌+◌, ◌*◌, ◌/◌, ◌%◌, ◌^◌, ◌≤◌, ◌<◌, ◌≡◌, refl, sym, ap, List, [], ◌∷◌, All, ltb,
  arith, update, update_self, update_ne, ℕ_discrete, if_both, le→ltb,
}
use k9r.Dram.{Params}
use k9r.Dram.Mapping.{Field, size_of, burst_bytes, log2_from, log2i, decode_fields, decode}

abbrev pub IsPower : ℕ → Type 0
IsPower v = (k : ℕ) × (v ≡ 2 ^ k)

pub power_pos : {v : ℕ} → IsPower v → 0 < v
power_pos {v} (k, e) =
    let one : 2 ^ 0 ≤ 2 ^ k =
      pow-le-pow_right {n = 2} (omega arith) {i = 0} {j = k} (omega arith) in
    omega (arith, one, e)

-- `log2i` is no more than the logarithm.
log2_from-le : (rounds k b : ℕ) → b ≤ k → log2_from rounds (2 ^ k) b ≤ k
unfolding log2_from
log2_from-le zero k b le = le
log2_from-le (suc rounds) k b le = elim (ℕ_discrete b k) [
  | yes top ↦ rw (le→ltb (2 ^ b) (2 ^ k) (omega (arith, ap (λ x. 2 ^ x) top))) le
  | no below ↦
      if_both (λ x. x ≤ k) (ltb (2 ^ b) (2 ^ k)) (log2_from-le rounds k (b + 1) (omega arith)) le
]

log2i-le : (v : ℕ) → IsPower v → 2 ^ log2i v ≤ v
log2i-le v (k, e) =
    subst (λ x. 2 ^ log2i x ≤ x) (sym e)
      (pow-le-pow_right {n = 2} (omega arith) (log2_from-le 63 k 0 (omega arith)))

decode_fields-lt :
    (size : ℕ → ℕ) (j : ℕ) (fs : List Field) (a : ℕ)
    → All (λ f. 2 ^ f.bits ≤ size f.id) fs
    → 0 < size j
    → (decode_fields fs a).0 j < size j
unfolding decode_fields
decode_fields-lt size j [] a wide pos = pos
decode_fields-lt size j (f ∷ fs) a wide pos =
    let rest = decode_fields fs a in
    let v = rest.1 % 2 ^ f.bits in
    let small : v < 2 ^ f.bits = mod-lt rest.1 (power_pos (f.bits, refl)) in
    elim (ℕ_discrete f.id j) [
      | yes same ↦
          subst (λ i. update rest.0 f.id v i < size i) same
            (omega (arith, update_self rest.0 f.id v, small, wide.0))
      | no other ↦
          let before = decode_fields-lt size j fs a wide.1 pos in
          omega (arith, update_ne rest.0 f.id v other, before)
    ]

-- Each coordinate is one of those that there are.
pub decode-lt :
    (p : Params) (fs : List Field)
    → ((k : ℕ) → IsPower (size_of p k))
    → All (λ f. f.bits ≡ log2i (size_of p f.id)) fs
    → (addr j : ℕ) → decode p fs addr j < size_of p j
unfolding decode
decode-lt p fs powers wide addr j =
    decode_fields-lt (size_of p) j fs (addr / 2 ^ log2i (burst_bytes p)) (fits fs wide)
      (power_pos (powers j))
  where
    fits :
        (gs : List Field)
        → All (λ f. f.bits ≡ log2i (size_of p f.id)) gs
        → All (λ f. 2 ^ f.bits ≤ size_of p f.id) gs
    fits [] h = tt
    fits (f ∷ gs) h = (
      subst (λ b. 2 ^ b ≤ size_of p f.id) (sym h.0) (log2i-le (size_of p f.id) (powers f.id)),
      fits gs h.1,
    )

-- The place of a bank among those of its channel.
pub bank_index-lt :
    (r g b ranks groups banks : ℕ)
    → r < ranks
    → g < groups
    → b < banks
    → (r * groups + g) * banks + b < ranks * groups * banks
bank_index-lt r g b ranks groups banks lr lg lb =
    let row = mul-le-mul_right groups lr in
    let group : suc (r * groups + g) ≤ ranks * groups = omega (arith, row, lg) in
    let all = mul-le-mul_right banks group in omega (arith, all, lb)

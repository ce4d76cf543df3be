-- ===== src/Ssr/Walk.antt =====
-- What the loop macros mean: a stream that they set up visits the affine nest that their strides
-- describe. The address generator itself is hardware: `addr i0 i1 i2 i3` is the address that it
-- delivers at these loop counters, innermost first.
use k9r.Base.{ℕ, zero, suc, ◌+◌, ◌*◌, ◌%◌, ◌≤◌, ◌<◌, ◌≡◌, Array, add32, u32_mod, arith}
use k9r.Ssr.{reg_repeat, reg_bounds, reg_strides, reg_rptr}

-- What the Snitch runtime documents of a read stream of dimension `dim`: it starts at the pointer,
-- a loop's counter runs up to its bound, and where a loop takes its next round its stride is added.
pub record Delivers (cfg : Array ℕ) (dim : ℕ) (addr : ℕ → ℕ → ℕ → ℕ → ℕ) : Type 0 where
  pub start : addr 0 0 0 0 ≡ cfg (reg_rptr + dim)
  pub round_0 :
      (i0 i1 i2 i3 : ℕ)
      → i0 < cfg reg_bounds
      → addr (suc i0) i1 i2 i3 ≡ add32 (addr i0 i1 i2 i3) (cfg reg_strides)
  pub round_1 :
      (i1 i2 i3 : ℕ)
      → 1 ≤ dim
      → i1 < cfg (reg_bounds + 1)
      → addr 0 (suc i1) i2 i3 ≡ add32 (addr (cfg reg_bounds) i1 i2 i3) (cfg (reg_strides + 1))
  pub round_2 :
      (i2 i3 : ℕ)
      → 2 ≤ dim
      → i2 < cfg (reg_bounds + 2)
      → addr 0 0 (suc i2) i3
        ≡ add32 (addr (cfg reg_bounds) (cfg (reg_bounds + 1)) i2 i3) (cfg (reg_strides + 2))
  pub round_3 :
      (i3 : ℕ)
      → 3 ≤ dim
      → i3 < cfg (reg_bounds + 3)
      → addr 0 0 0 (suc i3)
        ≡ add32
            (addr (cfg reg_bounds) (cfg (reg_bounds + 1)) (cfg (reg_bounds + 2)) i3)
            (cfg (reg_strides + 3))

-- One loop of a nest: `head i` is the address where round `i` starts, `last i` the one where it
-- ends, `way` bytes on, and the register holds the stride less that way.
level :
    (head last : ℕ → ℕ) (from stride way reg n : ℕ)
    → head 0 ≡ from % u32_mod
    → ((i : ℕ)
        → i < n
        → head i ≡ (from + i * stride) % u32_mod
        → last i ≡ (from + i * stride + way) % u32_mod)
    → ((i : ℕ) → i < n → head (suc i) ≡ add32 (last i) reg)
    → (reg + way) % u32_mod ≡ stride % u32_mod
    → (i : ℕ) → i ≤ n
    → head i ≡ (from + i * stride) % u32_mod
level head last from stride way reg n start body step same zero le = omega arith
level head last from stride way reg n start body step same (suc i) le =
    let before = level head last from stride way reg n start body step same i (omega arith) in
    let ended = body i (omega arith) before in omega (arith, step i (omega arith))

module _ {cfg : Array ℕ} {dim : ℕ} {addr : ℕ → ℕ → ℕ → ℕ → ℕ} (d : Delivers cfg dim addr)
    (s0 s1 s2 s3 : ℕ) where
  abbrev pub n0 : ℕ
  n0 = cfg reg_bounds

  abbrev pub n1 : ℕ
  n1 = cfg (reg_bounds + 1)

  abbrev pub n2 : ℕ
  n2 = cfg (reg_bounds + 2)

  -- Each register holds its stride less the way that the loops inside have gone.
  abbrev pub Delta0 : Type 0
  Delta0 = (cfg reg_strides + 0) % u32_mod ≡ s0 % u32_mod

  abbrev pub Delta1 : Type 0
  Delta1 = (cfg (reg_strides + 1) + n0 * s0) % u32_mod ≡ s1 % u32_mod

  abbrev pub Delta2 : Type 0
  Delta2 = (cfg (reg_strides + 2) + (n1 * s1 + n0 * s0)) % u32_mod ≡ s2 % u32_mod

  abbrev pub Delta3 : Type 0
  Delta3 = (cfg (reg_strides + 3) + (n2 * s2 + n1 * s1 + n0 * s0)) % u32_mod ≡ s3 % u32_mod

  pub rounds_0 :
      (from i0 i1 i2 i3 : ℕ)
      → Delta0
      → addr 0 i1 i2 i3 ≡ from % u32_mod
      → i0 ≤ n0
      → addr i0 i1 i2 i3 ≡ (from + i0 * s0) % u32_mod
  rounds_0 from i0 i1 i2 i3 e start le =
      level (λ i. addr i i1 i2 i3) (λ i. addr i i1 i2 i3) from s0 0 (cfg reg_strides) n0 start
        (λ i lt h. omega arith) (λ i lt. d.round_0 i i1 i2 i3 lt) e i0 le

  pub rounds_1 :
      (from i0 i1 i2 i3 : ℕ)
      → 1 ≤ dim
      → Delta0 × Delta1
      → addr 0 0 i2 i3 ≡ from % u32_mod
      → i0 ≤ n0
      → i1 ≤ n1
      → addr i0 i1 i2 i3 ≡ (from + i1 * s1 + i0 * s0) % u32_mod
  rounds_1 from i0 i1 i2 i3 deep e start le0 le1 =
      rounds_0 (from + i1 * s1) i0 i1 i2 i3 e.0
        (level (λ i. addr 0 i i2 i3) (λ i. addr n0 i i2 i3) from s1 (n0 * s0)
          (cfg (reg_strides + 1)) n1 start
          (λ i lt h. rounds_0 (from + i * s1) n0 i i2 i3 e.0 h (omega arith))
          (λ i lt. d.round_1 i i2 i3 deep lt) e.1 i1 le1)
        le0

  pub rounds_2 :
      (from i0 i1 i2 i3 : ℕ)
      → 2 ≤ dim
      → Delta0 × Delta1 × Delta2
      → addr 0 0 0 i3 ≡ from % u32_mod
      → i0 ≤ n0
      → i1 ≤ n1
      → i2 ≤ n2
      → addr i0 i1 i2 i3 ≡ (from + i2 * s2 + i1 * s1 + i0 * s0) % u32_mod
  rounds_2 from i0 i1 i2 i3 deep e start le0 le1 le2 =
      rounds_1 (from + i2 * s2) i0 i1 i2 i3 (omega arith) (e.0, e.1)
        (level (λ i. addr 0 0 i i3) (λ i. addr n0 n1 i i3) from s2 (n1 * s1 + n0 * s0)
          (cfg (reg_strides + 2)) n2 start
          (λ i lt h. omega (
            arith,
            rounds_1 (from + i * s2) n0 n1 i i3 (omega arith) (e.0, e.1) h (omega arith)
                (omega arith),
          ))
          (λ i lt. d.round_2 i i3 deep lt) e.2 i2 le2)
        le0 le1

  pub rounds_3 :
      (from i0 i1 i2 i3 : ℕ)
      → 3 ≤ dim
      → Delta0 × Delta1 × Delta2 × Delta3
      → addr 0 0 0 0 ≡ from % u32_mod
      → i0 ≤ n0
      → i1 ≤ n1
      → i2 ≤ n2
      → i3 ≤ cfg (reg_bounds + 3)
      → addr i0 i1 i2 i3 ≡ (from + i3 * s3 + i2 * s2 + i1 * s1 + i0 * s0) % u32_mod
  rounds_3 from i0 i1 i2 i3 deep e start le0 le1 le2 le3 =
      rounds_2 (from + i3 * s3) i0 i1 i2 i3 (omega arith) (e.0, e.1, e.2)
        (level (λ i. addr 0 0 0 i) (λ i. addr n0 n1 n2 i) from s3 (n2 * s2 + n1 * s1 + n0 * s0)
          (cfg (reg_strides + 3)) (cfg (reg_bounds + 3)) start
          (λ i lt h. omega (
            arith,
            rounds_2 (from + i * s3) n0 n1 n2 i (omega arith) (e.0, e.1, e.2) h (omega arith)
                (omega arith) (omega arith),
          ))
          (λ i lt. d.round_3 i deep lt) e.3 i3 le3)
        le0 le1 le2

-- A counter of loop `k` of a stream of dimension `dim`, with `n` in the loop's bound register.
abbrev pub InLoop : (dim k i n : ℕ) → Type 0
InLoop dim k i n = (k ≤ dim → i ≤ n) × (dim < k → i ≡ 0)

-- In which order: the innermost loop goes round first, and each element comes once more than the
-- repeat register says. `seq p` is the address of the element at position `p` of the stream.
pub record InTurn (cfg : Array ℕ) (dim : ℕ) (addr : ℕ → ℕ → ℕ → ℕ → ℕ) (seq : ℕ → ℕ) : Type 0 where
  pub turn :
      (i0 i1 i2 i3 q : ℕ)
      → i0 ≤ cfg reg_bounds
      → InLoop dim 1 i1 (cfg (reg_bounds + 1))
      → InLoop dim 2 i2 (cfg (reg_bounds + 2))
      → InLoop dim 3 i3 (cfg (reg_bounds + 3))
      → q ≤ cfg reg_repeat
      → let round = (i3 * (cfg (reg_bounds + 2) + 1) + i2) * (cfg (reg_bounds + 1) + 1) + i1 in
        seq ((round * (cfg reg_bounds + 1) + i0) * (cfg reg_repeat + 1) + q) ≡ addr i0 i1 i2 i3

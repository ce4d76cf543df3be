-- ===== src/Kernel/Compute/Product.antt =====
-- The matrix product that `gemm_ssr` is to compute, in the order of its operations.
use native.Mathlib.Nat.{mul-le-mul_right}
use k9r.Base.{
  ℕ, zero, suc, ◌+◌, ◌*◌, ◌-◌, ◌≤◌, ◌<◌, ◌≡◌, ◌∙◌, refl, ap, Array, arith, if◌then◌else◌, ltb,
  u32_mod, dec_lt, add32, mul32,
}
use k9r.Kernel.Gemm.{unroll, blocks, a_idx, b_idx, elem_addr}
use k9r.Kernel.Compute.{Float, Args, scalar_sum}

-- An index of a matrix with rows of `o` elements comes from one row and column.
pub index_unique :
    (o i j i' j' : ℕ) → j < o → j' < o → i * o + j ≡ i' * o + j' → (i ≡ i') × (j ≡ j')
index_unique o i j i' j' hj hj' e = elim (dec_lt i i') [
  | yes lt ↦ absurd (omega (arith, mul-le-mul_right o (lt)))
  | no ge ↦ elim (dec_lt i' i) [
    | yes gt ↦ absurd (omega (arith, mul-le-mul_right o (gt)))
    | no le ↦ let same : i ≡ i' = omega arith in (same, omega (arith, ap (λ t. t * o) same))
  ]
]

module _ {F : Type 0} (fl : Float F) (mem : ℕ → F) (g : Args) where
  -- The element of C, or 0 without C.
  abbrev pub initial : ℕ → ℕ → F
  initial i j = if g.has_c then mem (elem_addr g.src_c (add32 (mul32 i g.o) j)) else fl.fzero

  -- The accumulator of row `i` and column `j` after `k` fused multiply-adds.
  unfoldable pub fused : ℕ → ℕ → ℕ → F
  fused i j zero = initial i j
  fused i j (suc k) =
      fl.fmadd (mem (elem_addr g.src_a (a_idx g.m g.n g.o g.trans_a i k)))
        (mem (elem_addr g.src_b (b_idx g.m g.n g.o g.trans_b j k))) (fused i j k)

  -- The sum of `k` products, each by a multiplication and an addition.
  unfoldable pub plain : ℕ → ℕ → ℕ → F
  plain i j zero = fl.fzero
  plain i j (suc k) = fl.fadd (plain i j k) (
      fl.fmul (mem (elem_addr g.src_a (a_idx g.m g.n g.o g.trans_a i k)))
        (mem (elem_addr g.src_b (b_idx g.m g.n g.o g.trans_b j k))))

  pub scalar_sum-plain : (i j k : ℕ) → scalar_sum fl mem g i j k ≡ plain i j k
  unfolding scalar_sum plain
  scalar_sum-plain i j zero = refl
  scalar_sum-plain i j (suc k) =
      ap
        (λ x. fl.fadd x (
          fl.fmul (mem (elem_addr g.src_a (a_idx g.m g.n g.o g.trans_a i k)))
            (mem (elem_addr g.src_b (b_idx g.m g.n g.o g.trans_b j k)))))
        (scalar_sum-plain i j k)

  -- The value of Y there: 8 columns to a block are fused, and the columns that are left are not.
  abbrev pub entry : ℕ → ℕ → F
  entry i j =
      if ltb j (unroll * blocks g.o)
      then fused i j g.n
      else if g.has_c
      then fl.fadd (plain i j g.n) (initial i j)
      else plain i j g.n

  -- The elements of Y of index below `count` are computed.
  abbrev pub Filled : ℕ → Array F → Type 0
  Filled count y = (i j : ℕ) → j < g.o → i * g.o + j < count → y (i * g.o + j) ≡ entry i j

  -- More elements follow the ones computed.
  pub Filled-more :
      (i j more : ℕ) (y y' : Array F)
      → j + more ≤ g.o
      → Filled (i * g.o + j) y
      → ((p : ℕ) → p < i * g.o + j → y' p ≡ y p)
      → ((v : ℕ) → v < more → y' (i * g.o + j + v) ≡ entry i (j + v))
      → Filled (i * g.o + (j + more)) y'
  Filled-more i j more y y' fits old below here i' j' hj hp =
      elim (dec_lt (i' * g.o + j') (i * g.o + j)) [
        | yes lt ↦ below (i' * g.o + j') lt ∙ old i' j' hj lt
        | no ge ↦
            let v : ℕ = i' * g.o + j' - (i * g.o + j) in
            let place : i' * g.o + j' ≡ i * g.o + j + v = omega arith in
            let (row, col) = index_unique g.o i (j + v) i' j' (omega arith) hj (omega arith) in
            ap y' place ∙ here v (omega arith) ∙ ap (λ r. entry r (j + v)) row ∙ ap (entry i') col
      ]

  -- Indices of Y do not wrap.
  pub index_lem :
      (i j : ℕ) → i < g.m → j < g.o → g.m * g.o < u32_mod → add32 (mul32 i g.o) j ≡ i * g.o + j
  index_lem i j hi hj fits = omega (arith, mul-le-mul_right g.o hi)

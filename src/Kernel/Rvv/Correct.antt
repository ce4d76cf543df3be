-- ===== src/Kernel/Rvv/Correct.antt =====
-- `gemm_rvv` of runtime/spatz/kernels/gemm_fp32_rvv.c computes the matrix product.
use native.Mathlib.Nat.{mul-le-mul_right}
use k9r.Base.{
  ℕ, zero, suc, ◌+◌, ◌*◌, ◌-◌, ◌≤◌, ◌<◌, ◌≡◌, ◌∙◌, ◌⊎◌, inl, inr, refl, ap, sym, Array, arith,
  add32, sub32, Bool-cases, ltb, ltb→lt, ltb→le, if◌then◌else◌, if_true, if_false, dec_lt, Option,
  none, some,
}
use k9r.Kernel.Compute.{Float, Args}
use k9r.Kernel.Compute.Product.{fused}
use k9r.Kernel.Rvv.{block_rows, block_acc, gemm_block, columns, row_loop, gemm_rvv}
use k9r.Kernel.Rvv.Store.{IsShape, IsBlock, stored_in, stored_out}
use k9r.Kernel.Rvv.Column.{IsPlain, block_acc-fused}

-- What is documented of `vsetvl`: it grants something of what is asked for.
pub record Grants (vsetvl : ℕ → ℕ) : Type 0 where
  pub some_granted : (n : ℕ) → 0 < n → 0 < vsetvl n
  pub within : (n : ℕ) → vsetvl n ≤ n

module _ {F : Type 0} (fl : Float F) (mem : ℕ → F) (vsetvl : ℕ → ℕ) (g : Args) (gr : Grants vsetvl)
    (w : IsShape g) (pl : IsPlain g) where
  -- The rows above `i` are computed, and of the `rows` rows from `i` on the columns before `j`.
  record IsDone (i rows j : ℕ) (y : Array F) : Type 0 where
    above : (r c : ℕ) → r < i → r < g.m → c < g.o → y (r * g.o + c) ≡ fused fl mem g r c g.n
    part :
        (u c : ℕ)
        → u < rows
        → c < j
        → c < g.o
        → y ((i + u) * g.o + c) ≡ fused fl mem g (i + u) c g.n

  above_block : (i r u c j : ℕ) → r < i → c < g.o → r * g.o + c < (i + u) * g.o + j
  above_block i r u c j hr hc = omega (arith, mul-le-mul_right g.o (below))
    where
      below : r + 1 ≤ i + u
      below = omega (arith, hr)

  rows_apart :
      (i u u' c j vl : ℕ)
      → c < j
      → j + vl ≤ g.o
      → ((i + u) * g.o + c < (i + u') * g.o + j) ⊎ ((i + u') * g.o + j + vl ≤ (i + u) * g.o + c)
  rows_apart i u u' c j vl hc fits = elim (dec_lt u' u) [
    | yes lt ↦
        let next : i + u' + 1 ≤ i + u = omega arith in
        inr (omega (arith, mul-le-mul_right g.o (next)))
    | no ge ↦
        let up : i + u ≤ i + u' = omega arith in inl (omega (arith, mul-le-mul_right g.o (up)))
  ]

  block-IsDone :
      (i j rows vl : ℕ) (y : Array F)
      → IsBlock g i j rows vl
      → rows ≤ block_rows
      → IsDone i rows j y
      → IsDone i rows (j + vl) (gemm_block fl mem vsetvl g i j rows vl y)
  unfolding gemm_block
  block-IsDone i j rows vl y bl few h =
      let acc = block_acc fl mem g i j rows g.n in
      record {
        above = λ r c hr hm hc.
            stored_out g i j rows vl acc y w bl block_rows (r * g.o + c)
              (λ u lt. inl (above_block i r u c j hr hc))
            ∙ h.above r c hr hm hc;
        part = λ u c hu hc hw. elim (dec_lt c j) [
          | yes old ↦
              stored_out g i j rows vl acc y w bl block_rows ((i + u) * g.o + c)
                (λ u' lt. rows_apart i u u' c j vl old bl.in_columns)
              ∙ h.part u c hu old hw
          | no new ↦
              let v : ℕ = c - j in
              let place : (i + u) * g.o + c ≡ (i + u) * g.o + j + v = omega arith in
              let col : j + v ≡ c = omega arith in
              ap (gemm_block fl mem vsetvl g i j rows vl y) place
              ∙ stored_in g i j rows vl acc y w bl block_rows u v (omega (arith, few)) hu
                  (omega arith)
              ∙ block_acc-fused fl mem g i j rows vl w bl pl g.n u v hu
              ∙ ap (λ x. fused fl mem g (i + u) x g.n) col
        ];
      }

  -- A pass over the columns ends, with fuel for each column that is left, and computes its rows.
  columns-IsDone :
      (i rows fuel j : ℕ) (y : Array F)
      → g.o < j + fuel
      → j ≤ g.o
      → 0 < rows
      → rows ≤ block_rows
      → i + rows ≤ g.m
      → IsDone i rows j y
      → (y' : Array F) × (columns fl mem vsetvl g i rows fuel j y ≡ some y') × IsDone i rows g.o y'
  unfolding columns
  columns-IsDone i rows zero j y enough le sr few ir h = absurd (omega arith)
  columns-IsDone i rows (suc fuel) j y enough le sr few ir h = elim (Bool-cases (ltb j g.o)) [
    | inl more ↦
        let lt = ltb→lt j g.o more in
        let left : sub32 g.o j ≡ g.o - j = omega (arith, w.width) in
        let vl = vsetvl (sub32 g.o j) in
        let granted : 0 < vl = gr.some_granted (sub32 g.o j) (omega arith) in
        let fits : j + vl ≤ g.o = omega (arith, gr.within (sub32 g.o j)) in
        let next : add32 j vl ≡ j + vl = omega (arith, w.width) in
        let bl : IsBlock g i j rows vl = record {
          some_rows = sr;
          in_rows = ir;
          some_columns = granted;
          in_columns = fits;
        } in
        let y₁ = gemm_block fl mem vsetvl g i j rows vl y in
        let (y', ends, done) =
          columns-IsDone i rows fuel (j + vl) y₁ (omega arith) fits sr few ir
            (block-IsDone i j rows vl y bl few h) in
        (
          y',
          if_true (some y) more ∙ ap (λ q. columns fl mem vsetvl g i rows fuel q y₁) next ∙ ends,
          done,
        )
    | inr all ↦
        let past = ltb→le j g.o all in
        (
          y,
          if_false _ all,
          record { above = h.above; part = λ u c hu hc hw. h.part u c hu (omega arith) hw },
        )
  ]

  start_rows : (i : ℕ) (y : Array F) → IsDone i 0 0 y → (rows : ℕ) → IsDone i rows 0 y
  start_rows i y h rows = record { above = h.above; part = λ u c hu hc hw. absurd (omega arith) }

  next_rows :
      (i rows : ℕ) (y : Array F)
      → (rows ≡ block_rows) ⊎ (i + rows ≡ g.m)
      → IsDone i rows g.o y
      → IsDone (i + block_rows) 0 0 y
  next_rows i rows y all h = record {
    above = λ r c hr hm hc. elim (dec_lt r i) [
      | yes lt ↦ h.above r c lt hm hc
      | no ge ↦
          let u : ℕ = r - i in
          let row : r ≡ i + u = omega arith in
          let in_block : u < rows = elim all [ inl full ↦ omega arith | inr last ↦ omega arith ] in
          ap (λ t. y (t * g.o + c)) row
          ∙ h.part u c in_block hc hc
          ∙ ap (λ t. fused fl mem g t c g.n) (sym row)
    ];
    part = λ u c hu hc hw. absurd (omega arith);
  }

  -- The rows of the next block.
  row_count :
      (i : ℕ)
      → i < g.m
      → (let rows = if ltb (sub32 g.m i) block_rows then sub32 g.m i else block_rows in
          (0 < rows)
          × (rows ≤ block_rows)
          × (i + rows ≤ g.m)
          × ((rows ≡ block_rows) ⊎ (i + rows ≡ g.m)))
  row_count i lt =
      let left : sub32 g.m i ≡ g.m - i = omega (arith, w.height) in
      elim (Bool-cases (ltb (sub32 g.m i) block_rows)) [
        | inl short ↦
            let below = ltb→lt (sub32 g.m i) block_rows short in
            rw short (omega arith, omega arith, omega arith, inr (omega arith))
        | inr full ↦
            let above = ltb→le (sub32 g.m i) block_rows full in
            rw full (omega arith, omega arith, omega arith, inl refl)
      ]

  row_loop-IsDone :
      (fuel i : ℕ) (y : Array F)
      → g.m + 3 < i + block_rows * fuel
      → i ≤ g.m + 3
      → IsDone i 0 0 y
      → (y' : Array F) × (row_loop fl mem vsetvl g fuel i y ≡ some y') × IsDone g.m 0 0 y'
  unfolding row_loop
  row_loop-IsDone zero i y enough le h = absurd (omega arith)
  row_loop-IsDone (suc fuel) i y enough le h = elim (Bool-cases (ltb i g.m)) [
    | inl more ↦
        let lt = ltb→lt i g.m more in
        let left : sub32 g.m i ≡ g.m - i = omega (arith, w.height) in
        let rows = if ltb (sub32 g.m i) block_rows then sub32 g.m i else block_rows in
        let (some_rows, few, fits, all) = row_count i lt in
        let (y₁, passed, done) =
          columns-IsDone i rows (suc g.o) 0 y (omega arith) (omega arith) some_rows few fits
            (start_rows i y h rows) in
        let after_pass : Option (Array F) → Option (Array F) = λ r. elim r [
          | none ↦ none
          | some y₂ ↦ row_loop fl mem vsetvl g fuel (add32 i block_rows) y₂
        ] in
        let next : add32 i block_rows ≡ i + block_rows = omega (arith, w.height) in
        let (y', ends, end) =
          row_loop-IsDone fuel (i + block_rows) y₁ (omega arith) (omega arith)
            (next_rows i rows y₁ all done) in
        (
          y',
          if_true (some y) more
              ∙ ap after_pass passed
              ∙ ap (λ q. row_loop fl mem vsetvl g fuel q y₁) next
              ∙ ends,
          end,
        )
    | inr all ↦
        let past = ltb→le i g.m all in
        (
          y,
          if_false _ all,
          record {
            above = λ r c hr hm hc. h.above r c (omega arith) hm hc;
            part = λ u c hu hc hw. absurd (omega arith);
          },
        )
  ]

  -- `gemm_rvv` ends, and fills Y with the matrix product: in each row and column, Y is the fused sum
  -- over the depth in order, started from C or from 0. This is for matrices that are not transposed,
  -- in 32-bit sizes, and a vector unit that grants something of each length that is asked for,
  -- whatever it grants.
  pub gemm_rvv_product :
      (y : Array F)
      → (y' : Array F) × (gemm_rvv fl mem vsetvl g y ≡ some y')
        × ((i j : ℕ) → i < g.m → j < g.o → y' (i * g.o + j) ≡ fused fl mem g i j g.n)
  unfolding gemm_rvv
  gemm_rvv_product y =
      let start : IsDone 0 0 0 y = record {
        above = λ r c hr hm hc. absurd (omega arith);
        part = λ u c hu hc hw. absurd (omega arith);
      } in
      let (y', ends, done) = row_loop-IsDone (suc g.m) 0 y (omega arith) (omega arith) start in
      (y', ends, λ i j hi hj. done.above i j hi hi hj)

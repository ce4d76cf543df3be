-- ===== src/Kernel/Rvv.antt =====
-- `gemm_block`, `gemm_rvv` and the kernels of runtime/spatz/kernels/gemm_fp32_rvv.c. A vector is a
-- function of its element; of a load and a store the first `vl` elements count. The vector length
-- that `vsetvl` grants is a parameter, and floats are those of the other kernels.
pub mod Store
pub mod Column
pub mod Correct
pub mod Same
use k9r.Base.{
  ℕ, zero, suc, ◌+◌, ◌-◌, Array, add32, sub32, mul32, Bool, true, false, not, ◌&&◌, ◌||◌, ◌==◌, ltb,
  leb, if◌then◌else◌, Option, none, some,
}
use k9r.Kernel.Gemm.{elem_addr}
use k9r.Kernel.Compute.{Float, Args}

-- ROWS
abbrev pub block_rows : ℕ
block_rows = 4

-- Is there a row `r` in a block of `rows`? The first is always there.
abbrev pub has_row : (rows r : ℕ) → Bool
has_row rows r = (r == 0) || ltb r rows

abbrev pub Vector : Type 0 → Type 0
Vector F = ℕ → F

module _ {F : Type 0} (fl : Float F) (mem : ℕ → F) where
  -- A vector of consecutive floats at an address.
  abbrev pub vle32 : ℕ → Vector F
  vle32 p v = mem (elem_addr p v)

  -- The accumulators before the first round; with `rows` below 4 those past the rows hold the first.
  unfoldable pub first_acc : Args → (i j rows : ℕ) → ℕ → Vector F
  first_acc g i j rows r =
      let row : ℕ → Vector F = λ q. vle32 (elem_addr g.src_c (add32 (mul32 (add32 i q) g.o) j)) in
      if g.has_c then (if has_row rows r then row r else row 0) else λ v. fl.fzero

  -- `vfmacc_vf` of a row, if it is there: `a` and `b` are the two pointers of the loop.
  unfoldable pub macc : Args → (rows a b : ℕ) → (ℕ → Vector F) → ℕ → Vector F
  macc g rows a b acc r =
      let bv = vle32 b in
      let x = mem (elem_addr a (mul32 r g.n)) in
      if has_row rows r then (λ v. fl.fmadd x (bv v) (acc r v)) else acc r

  -- The accumulators after `k` rounds. A round moves `a` by one float and `b` by a row.
  unfoldable pub block_acc : Args → (i j rows : ℕ) → ℕ → ℕ → Vector F
  unfolding first_acc macc
  block_acc g i j rows zero = first_acc g i j rows
  block_acc g i j rows (suc k) =
      macc g rows (elem_addr (elem_addr g.src_a (mul32 i g.n)) k)
        (elem_addr (elem_addr g.src_b j) (mul32 k g.o)) (block_acc g i j rows k)

-- `vse32`: the first `vl` elements of a vector, from index `at`.
unfoldable pub vse32 : {F : Type 0} → (at vl : ℕ) → Vector F → Array F → Array F
vse32 at vl acc y p = if leb at p && ltb p (at + vl) then acc (p - at) else y p

-- The stores of a block, those of the first `u` rows.
unfoldable pub store_rows :
    {F : Type 0} → Args → (i j rows vl : ℕ) → (ℕ → Vector F) → ℕ → Array F → Array F
unfolding vse32
store_rows g i j rows vl acc zero y = y
store_rows g i j rows vl acc (suc u) y =
    let t = store_rows g i j rows vl acc u y in
    if has_row rows u then vse32 (add32 (mul32 (add32 i u) g.o) j) vl (acc u) t else t

module _ {F : Type 0} (fl : Float F) (mem : ℕ → F) (vsetvl : ℕ → ℕ) where
  unfoldable pub gemm_block : Args → (i j rows vl : ℕ) → Array F → Array F
  gemm_block g i j rows vl = store_rows g i j rows vl (block_acc fl mem g i j rows g.n) block_rows

  -- The columns of a block of rows, from `j` on; `none` if the fuel is not enough.
  unfoldable pub columns : Args → (i rows fuel j : ℕ) → Array F → Option (Array F)
  columns g i rows zero j y = none
  columns g i rows (suc fuel) j y =
      let vl = vsetvl (sub32 g.o j) in
      let rest = columns g i rows fuel (add32 j vl) (gemm_block g i j rows vl y) in
      if ltb j g.o then rest else some y

  -- The loop over the blocks of rows, from row `i` on.
  unfoldable pub row_loop : Args → (fuel i : ℕ) → Array F → Option (Array F)
  row_loop g zero i y = none
  row_loop g (suc fuel) i y =
      let left = sub32 g.m i in
      let rows = if ltb left block_rows then left else block_rows in
      let rest : Option (Array F) = elim (columns g i rows (suc g.o) 0 y) [
        | none ↦ none
        | some y' ↦ row_loop g fuel (add32 i block_rows) y'
      ] in
      if ltb i g.m then rest else some y

  unfoldable pub gemm_rvv : Args → Array F → Option (Array F)
  gemm_rvv g y = row_loop g (suc g.m) 0 y

  abbrev pub is_empty : Args → Bool
  is_empty g = (g.m == 0) || ((g.n == 0) || (g.o == 0))

  -- `Gemm_fp32_fp32_fp32_fp32` and `MatMul_fp32_fp32_fp32`; `generic` stands for the implementation
  -- that takes the shapes which this one does not.
  unfoldable pub gemm : (Args → Array F → Array F) → Args → Array F → Option (Array F)
  gemm generic g y =
      if is_empty g || (not (g.trans_a == 0) || not (g.trans_b == 0))
      then some (generic g y)
      else gemm_rvv g y

  unfoldable pub matmul : (Args → Array F → Array F) → Args → Array F → Option (Array F)
  matmul generic g y =
      if is_empty g then some (generic g y) else gemm_rvv (record g { has_c = false }) y

-- ===== src/Kernel/Rvv/Column.antt =====
-- The accumulators of a block of `gemm_rvv` against the fused sums of the matrix product.
use native.Mathlib.Nat.{add-mul}
use k9r.Base.{
  ℕ, zero, suc, ◌+◌, ◌<◌, ◌≡◌, ◌∙◌, refl, ap, arith, add32, mul32, ◌==◌, true, Bool-cases, inl, inr,
}
use k9r.Kernel.Gemm.{elem_addr, a_idx, b_idx}
use k9r.Kernel.Compute.{Float, Args, start_value}
use k9r.Kernel.Compute.Product.{fused}
use k9r.Kernel.Rvv.{vle32, first_acc, macc, block_acc}
use k9r.Kernel.Rvv.Store.{IsShape, IsBlock, lt-has_row}

-- Nothing is transposed.
pub record IsPlain (g : Args) : Type 0 where
  pub plain_a : (g.trans_a == 0) ≡ true
  pub plain_b : (g.trans_b == 0) ≡ true

module _ {F : Type 0} (fl : Float F) (mem : ℕ → F) (g : Args) (i j rows vl : ℕ) (w : IsShape g)
    (bl : IsBlock g i j rows vl) (pl : IsPlain g) where
  addr_c :
      (r v : ℕ)
      → r < rows
      → elem_addr (elem_addr g.src_c (add32 (mul32 (add32 i r) g.o) j)) v
        ≡ elem_addr g.src_c (add32 (mul32 (i + r) g.o) (j + v))
  addr_c r v hr =
      let row : add32 i r ≡ i + r = omega (arith, w.height, bl.in_rows) in
      ap (λ t. elem_addr (elem_addr g.src_c (add32 (mul32 t g.o) j)) v) row ∙ omega arith

  addr_a :
      (r k : ℕ)
      → elem_addr (elem_addr (elem_addr g.src_a (mul32 i g.n)) k) (mul32 r g.n)
        ≡ elem_addr g.src_a (a_idx g.m g.n g.o g.trans_a (i + r) k)
  addr_a r k = rw pl.plain_a (omega (arith, add-mul i r g.n))

  addr_b :
      (k v : ℕ)
      → elem_addr (elem_addr (elem_addr g.src_b j) (mul32 k g.o)) v
        ≡ elem_addr g.src_b (b_idx g.m g.n g.o g.trans_b (j + v) k)
  addr_b k v = rw pl.plain_b (omega arith)

  pub block_acc-fused :
      (k r v : ℕ) → r < rows → block_acc fl mem g i j rows k r v ≡ fused fl mem g (i + r) (j + v) k
  unfolding block_acc first_acc macc fused start_value
  block_acc-fused zero r v hr = rw (lt-has_row rows r hr) (elim (Bool-cases g.has_c) [
    | inl some_c ↦ rw some_c (ap mem (addr_c r v hr))
    | inr no_c ↦ rw no_c refl
  ])
  block_acc-fused (suc k) r v hr = rw (lt-has_row rows r hr) (
      ap
        (λ p.
          fl.fmadd (mem p) (vle32 fl mem (elem_addr (elem_addr g.src_b j) (mul32 k g.o)) v)
            (block_acc fl mem g i j rows k r v))
        (addr_a r k)
      ∙ ap
          (λ p.
            fl.fmadd (mem (elem_addr g.src_a (a_idx g.m g.n g.o g.trans_a (i + r) k))) (mem p)
              (block_acc fl mem g i j rows k r v))
          (addr_b k v)
      ∙ ap (fl.fmadd _ _) (block_acc-fused k r v hr))

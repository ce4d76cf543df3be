-- ===== src/Kernel/Compute/Entry.antt =====
-- The kernels of runtime/snitch/kernels/gemm_fp32_ssr.c, from their arguments to the product.
use k9r.Base.{ℕ, ◌+◌, ◌*◌, ◌<◌, ◌≡◌, ◌∙◌, refl, ap, Array, false, if_false}
use k9r.Kernel.Compute.{Float, Args, at_first, gemm, matmul}
use k9r.Kernel.Compute.Product.{entry}
use k9r.Kernel.Compute.Correct.{IsShape, AreStreams, gemm_ssr_product}

module _ {F : Type 0} (fl : Float F) (mem : ℕ → F) (cfg_a cfg_b : Array ℕ)
    (addr_a addr_b : Args → ℕ → ℕ → ℕ → ℕ → ℕ) (seq_a seq_b : Args → ℕ → ℕ)
    (generic : Args → Array F → Array F) where
  -- A shape that the kernel takes on, and streams that do what is documented.
  abbrev pub IsTaken : Args → Type 0
  IsTaken g =
      IsShape fl mem g cfg_a cfg_b (addr_a g) (addr_b g) (seq_a g) (seq_b g)
      × AreStreams fl mem g cfg_a cfg_b (addr_a g) (addr_b g) (seq_a g) (seq_b g)

  -- The kernel for matrices that may be transposed, with an optional C, fills Y with the product: in
  -- each row `i` and column `j`, Y is the sum over the elements that the index formulas name, in the
  -- order of `k`; fused and started from C in the columns of full blocks, and with C added at the
  -- end in the columns that are left. This is for a shape that is not left to the generic
  -- kernel, 32-bit sizes, and an address generator that does what is documented.
  pub gemm-entry :
      (g : Args) (y : Array F)
      → IsTaken g
      → (i j : ℕ) → i < g.m
      → j < g.o
      → gemm fl mem seq_a seq_b generic g y (i * g.o + j) ≡ entry fl mem g i j
  unfolding gemm
  gemm-entry g y (shape, streams) i j hi hj =
      ap (λ x. x (i * g.o + j)) (if_false (generic g y) shape.streamed)
      ∙ gemm_ssr_product fl mem g cfg_a cfg_b (addr_a g) (addr_b g) (seq_a g) (seq_b g)
          (at_first fl mem seq_a seq_b generic y) shape streams refl refl i j hi hj

  -- The kernel without C, on matrices as they are.
  matmul-entry :
      (g : Args) (y : Array F)
      → (let plain = record g { has_c = false; trans_a = 0; trans_b = 0 } in
          IsTaken plain
          → (i j : ℕ) → i < g.m
          → j < g.o
          → matmul fl mem seq_a seq_b generic g y (i * g.o + j) ≡ entry fl mem plain i j)
  unfolding matmul
  matmul-entry g y (shape, streams) i j hi hj =
      let plain = record g { has_c = false; trans_a = 0; trans_b = 0 } in
      ap (λ x. x (i * g.o + j)) (if_false (generic plain y) shape.streamed)
      ∙ gemm_ssr_product fl mem plain cfg_a cfg_b (addr_a plain) (addr_b plain) (seq_a plain)
          (seq_b plain) (at_first fl mem seq_a seq_b generic y) shape streams refl refl i j hi hj

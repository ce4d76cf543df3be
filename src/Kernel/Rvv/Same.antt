-- ===== src/Kernel/Rvv/Same.antt =====
-- The kernels of the two clusters, runtime/spatz/kernels/gemm_fp32_rvv.c and
-- runtime/snitch/kernels/gemm_fp32_ssr.c, on the same matrices.
use k9r.Base.{ℕ, ◌+◌, ◌*◌, ◌<◌, ◌≡◌, ◌∙◌, refl, sym, Array, arith, u32_mod, some, lt→ltb}
use k9r.Kernel.Gemm.{unroll, blocks}
use k9r.Kernel.Compute.{Float, State, Args, gemm_ssr}
use k9r.Kernel.Compute.Product.{fused, entry}
use k9r.Kernel.Compute.Correct
use k9r.Kernel.Rvv.{gemm_rvv}
use k9r.Kernel.Rvv.Store.{IsShape}
use k9r.Kernel.Rvv.Column.{IsPlain}
use k9r.Kernel.Rvv.Correct.{Grants, gemm_rvv_product}

module _ {F : Type 0} (fl : Float F) (mem : ℕ → F) (g : Args) (cfg_a cfg_b : Array ℕ)
    (addr_a addr_b : ℕ → ℕ → ℕ → ℕ → ℕ) (seq_a seq_b : ℕ → ℕ) (vsetvl : ℕ → ℕ) where
  -- On matrices that are not transposed and that both take on, the two kernels give the same floats,
  -- operation for operation, in every column of a full block of the streamed kernel: the vector
  -- kernel ends, and its Y there is that of the streamed kernel. This is for streams at their start,
  -- an address generator and a vector unit that do what is documented, and 32-bit sizes.
  pub rvv-ssr :
      (s : State F) (y : Array F)
      → Correct.IsShape fl mem g cfg_a cfg_b addr_a addr_b seq_a seq_b
      → Correct.AreStreams fl mem g cfg_a cfg_b addr_a addr_b seq_a seq_b
      → s.pos_a ≡ 0
      → s.pos_b ≡ 0
      → g.m + 3 < u32_mod
      → IsPlain g
      → Grants vsetvl
      → (y' : Array F) × (gemm_rvv fl mem vsetvl g y ≡ some y')
        × ((i j : ℕ)
            → i < g.m
            → j < unroll * blocks g.o
            → (gemm_ssr fl mem seq_a seq_b g s).y (i * g.o + j) ≡ y' (i * g.o + j))
  rvv-ssr s y w st ha hb height pl gr =
      let w' : IsShape g = record { height = height; width = w.width; size = w.size } in
      let (y', ends, product) = gemm_rvv_product fl mem vsetvl g gr w' pl y in
      (
        y',
        ends,
        λ i j hi hj.
            Correct.gemm_ssr_product fl mem g cfg_a cfg_b addr_a addr_b seq_a seq_b s w st ha hb i j
              hi (omega arith)
            ∙ full_block i j hj
            ∙ sym (product i j hi (omega arith)),
      )
    where
      full_block : (i j : ℕ) → j < unroll * blocks g.o → entry fl mem g i j ≡ fused fl mem g i j g.n
      full_block i j h = rw (lt→ltb j (unroll * blocks g.o) h) refl

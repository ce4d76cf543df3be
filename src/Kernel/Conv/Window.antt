-- ===== src/Kernel/Conv/Window.antt =====
-- The streams of `Conv2d_fp32_fp32_fp32_NCHW` against the index formulas of its scalar loop.
use native.Mathlib.Nat.{add-mul, mul-le-mul_right}
use k9r.Base.{
  ℕ, ◌+◌, ◌-◌, ◌*◌, ◌%◌, ◌<◌, ◌≡◌, ◌∙◌, refl, ap, Array, mul32, mul32-u32, u32_mod, arith,
}
use k9r.Ssr.{reg_repeat, ssr_2d, ssr_3d, loop_2d, loop_3d, repeat, read}
use k9r.Ssr.Walk.{Delivers, InTurn}
use k9r.Ssr.Nest.{IsCount, loop_2d-walks, loop_3d-walks}
use k9r.Kernel.Gemm.{stride, elem_addr}
use k9r.Kernel.Compute.Order.{Counts, position, position_2d}
use k9r.Kernel.Conv.{Shape, filters, taps, stream_a, stream_b, window, weights, in_idx, weight_idx}

-- The address generators do what is documented, whatever the pointer is.
pub record AreStreams (g : Shape) (cfg_a cfg_b : Array ℕ) (gen_a gen_b : ℕ → ℕ → ℕ) : Type 0 where
  pub addr_a : ℕ → ℕ → ℕ → ℕ → ℕ → ℕ
  pub addr_b : ℕ → ℕ → ℕ → ℕ → ℕ → ℕ
  pub delivers_a : (ptr : ℕ) → Delivers (stream_a g ptr cfg_a) ssr_3d (addr_a ptr)
  pub turn_a : (ptr : ℕ) → InTurn (stream_a g ptr cfg_a) ssr_3d (addr_a ptr) (gen_a ptr)
  pub delivers_b : (ptr : ℕ) → Delivers (stream_b g ptr cfg_b) ssr_2d (addr_b ptr)
  pub turn_b : (ptr : ℕ) → InTurn (stream_b g ptr cfg_b) ssr_2d (addr_b ptr) (gen_b ptr)
  pub once : cfg_b reg_repeat ≡ 0

-- A window that is not empty, in 32-bit sizes.
pub record IsWindow (g : Shape) : Type 0 where
  pub channels : IsCount g.c
  pub rows : IsCount g.p
  pub columns : IsCount g.q
  pub elements : g.c * g.p * g.q < u32_mod

module _ (g : Shape) (w : IsWindow g) (cfg_a cfg_b : Array ℕ) (gen_a gen_b : ℕ → ℕ → ℕ)
    (st : AreStreams g cfg_a cfg_b gen_a gen_b) where
  Counts-a : (ptr : ℕ) → Counts (stream_a g ptr cfg_a) g.q g.p g.c filters
  unfolding stream_a read repeat loop_3d
  Counts-a ptr = record {
    loop_0 = omega (arith, w.columns);
    loop_1 = omega (arith, w.rows);
    loop_2 = omega (arith, w.channels);
    again = omega arith;
  }

  affine_a :
      (ht wd c p q : ℕ)
      → (window g ht wd + c * mul32 (mul32 g.h g.w) stride + p * mul32 g.w stride + q * stride)
          % u32_mod
        ≡ elem_addr g.src_a (in_idx g ht wd c p q)
  affine_a ht wd c p q = omega (
    arith,
    mul32-u32 (mul32 g.h g.w * stride) c,
    mul32-u32 (g.h * g.w) (stride * c),
    mul32-u32 (g.w * stride) p,
    mul32-u32 (c * g.h) g.w,
    mul32-u32 (mul32 ht g.sp + p) g.w,
    mul32-u32 (ht * g.sp) g.w,
  )

  pub stream_a-window :
      (ht wd c p q u : ℕ)
      → c < g.c
      → p < g.p
      → q < g.q
      → u < filters
      → gen_a (window g ht wd) (((c * g.p + p) * g.q + q) * filters + u)
        ≡ elem_addr g.src_a (in_idx g ht wd c p q)
  unfolding stream_a
  stream_a-window ht wd c p q u hc hp hq hu =
      let ptr = window g ht wd in
      ap (gen_a ptr) (omega arith)
      ∙ position (stream_a g ptr cfg_a) ssr_3d (st.addr_a ptr) (gen_a ptr) g.q g.p g.c filters
          (Counts-a ptr) (omega arith) (st.turn_a ptr) q p c 0 u hq hp hc
          (λ deep. absurd (omega arith), λ lt. refl) hu
      ∙ loop_3d-walks g.q g.p g.c stride (mul32 g.w stride) (mul32 (mul32 g.h g.w) stride) ptr
          filters cfg_a (st.addr_a ptr) w.columns w.rows w.channels (st.delivers_a ptr) q p c hq hp
          hc
      ∙ affine_a ht wd c p q

  -- The product of the extents does not wrap.
  pub taps_lem : taps g ≡ g.c * g.p * g.q
  taps_lem = omega (arith, mul32-u32 (g.c * g.p) g.q, w.elements)

  affine_b :
      (f u c p q : ℕ)
      → (weights g f + ((c * g.p + p) * g.q + q) * stride + u * mul32 (taps g) stride) % u32_mod
        ≡ elem_addr g.src_b (weight_idx g (f + u) c p q)
  affine_b f u c p q =
      omega (arith, mul32-u32 (taps g * stride) u, mul32-u32 (c * g.p) g.q, add-mul f u (taps g))

  -- The taps before that of channel `c`, row `p` and column `q`.
  abbrev pub before : (c p q : ℕ) → ℕ
  before c p q = (c * g.p + p) * g.q + q

  pub before-lt : (c p q : ℕ) → c < g.c → p < g.p → q < g.q → before c p q < taps g
  before-lt c p q hc hp hq =
      let row : c * g.p + p < g.c * g.p = omega (arith, mul-le-mul_right g.p hc) in
      omega (arith, taps_lem, mul-le-mul_right g.q row)

  pub stream_b-weights :
      (f c p q u : ℕ)
      → c < g.c
      → p < g.p
      → q < g.q
      → u < filters
      → gen_b (weights g f) (before c p q * filters + u)
        ≡ elem_addr g.src_b (weight_idx g (f + u) c p q)
  unfolding stream_b read loop_2d
  stream_b-weights f c p q u hc hp hq hu =
      let ptr = weights g f in
      let lt = before-lt c p q hc hp hq in
      let count : IsCount (taps g) = (omega (arith, lt), omega arith) in
      ap (gen_b ptr) (omega arith)
      ∙ position_2d (stream_b g ptr cfg_b) (st.addr_b ptr) (gen_b ptr) filters (taps g - 1) 1
          (omega arith) (omega arith) (omega (arith, st.once)) (st.turn_b ptr) u (before c p q) 0 hu
          (omega (arith, lt)) (omega arith)
      ∙ loop_2d-walks filters (taps g) (mul32 (taps g) stride) stride ptr cfg_b (st.addr_b ptr)
          (omega arith) count (st.delivers_b ptr) u (before c p q) hu lt
      ∙ affine_b f u c p q

-- ===== src/Kernel/Conv/Taps.antt =====
-- The accumulators of a pixel of `Conv2d_fp32_fp32_fp32_NCHW` against the loops over its taps.
use k9r.Base.{ℕ, zero, suc, ◌+◌, ◌-◌, ◌*◌, ◌≤◌, ◌<◌, ◌≡◌, ◌∙◌, refl, ap, Array, arith, for}
use k9r.Kernel.Gemm.{elem_addr}
use k9r.Kernel.Compute.{Float, State}
use k9r.Kernel.Compute.Block.{fma_at, column, frep-Replayed}
use k9r.Kernel.Conv.{
  Shape, filters, taps, window, weights, in_idx, weight_idx, over_taps, pixel_acc, scalar_sum,
}
use k9r.Kernel.Conv.Window.{
  AreStreams, IsWindow, before-lt, taps_lem, stream_a-window, stream_b-weights,
}

module _ {F : Type 0} (fl : Float F) (mem : ℕ → F) (g : Shape) where
  -- One tap of filter `f`: a fused multiply-add of an element of the window and a weight.
  abbrev pub fused_tap : (f h w : ℕ) → (c p q : ℕ) → F → F
  fused_tap f h w c p q x =
      fl.fmadd (mem (elem_addr g.src_a (in_idx g h w c p q)))
        (mem (elem_addr g.src_b (weight_idx g f c p q))) x

  -- A pixel of filter `f`: all taps from 0 on, channel by channel, row by row.
  unfoldable pub fused_pixel : (f h w : ℕ) → F
  unfolding over_taps
  fused_pixel f h w = over_taps g (fused_tap f h w) fl.fzero

  -- One tap by a multiplication and an addition, and a pixel of such taps.
  abbrev pub plain_tap : (f h w : ℕ) → (c p q : ℕ) → F → F
  plain_tap f h w c p q x = fl.fadd x (
      fl.fmul (mem (elem_addr g.src_a (in_idx g h w c p q)))
        (mem (elem_addr g.src_b (weight_idx g f c p q))))

  unfoldable pub plain_pixel : (f h w : ℕ) → F
  unfolding over_taps
  plain_pixel f h w = over_taps g (plain_tap f h w) fl.fzero

  pub scalar_sum-plain : (f h w : ℕ) → scalar_sum fl mem g f h w ≡ plain_pixel f h w
  unfolding scalar_sum plain_pixel
  scalar_sum-plain f h w = refl

  module _ (win : IsWindow g) (cfg_a cfg_b : Array ℕ) (gen_a gen_b : ℕ → ℕ → ℕ)
      (st : AreStreams g cfg_a cfg_b gen_a gen_b) (f h w u : ℕ) (hu : u < filters) where
    abbrev col : ℕ → F
    col = column fl mem (gen_a (window g h w)) (gen_b (weights g f)) filters 0 u fl.fzero

    col-suc :
        (c p q : ℕ)
        → c < g.c
        → p < g.p
        → q < g.q
        → col (suc ((c * g.p + p) * g.q + q))
          ≡ fused_tap (f + u) h w c p q (col ((c * g.p + p) * g.q + q))
    unfolding column
    col-suc c p q hc hp hq =
        let k : ℕ = (c * g.p + p) * g.q + q in
        let first : 0 + k * filters + u ≡ k * filters + u = omega arith in
        ap (λ n. fma_at fl mem (gen_a (window g h w)) (gen_b (weights g f)) filters n (col k)) first
        ∙ ap (λ a. fl.fmadd (mem a) (mem (gen_b (weights g f) (k * filters + u))) (col k))
            (stream_a-window g win cfg_a cfg_b gen_a gen_b st h w c p q u hc hp hq hu)
        ∙ ap (λ b. fl.fmadd (mem (elem_addr g.src_a (in_idx g h w c p q))) (mem b) (col k))
            (stream_b-weights g win cfg_a cfg_b gen_a gen_b st f c p q u hc hp hq hu)

    columns-eq :
        (c p q : ℕ)
        → c < g.c
        → p < g.p
        → q ≤ g.q
        → col ((c * g.p + p) * g.q + q)
          ≡ for q (fused_tap (f + u) h w c p) (col ((c * g.p + p) * g.q))
    unfolding for
    columns-eq c p zero hc hp hq = ap col (omega arith)
    columns-eq c p (suc q) hc hp hq =
        ap col (omega arith)
        ∙ col-suc c p q hc hp (omega arith)
        ∙ ap (fused_tap (f + u) h w c p q) (columns-eq c p q hc hp (omega arith))

    rows-eq :
        (c p : ℕ)
        → c < g.c
        → p ≤ g.p
        → col ((c * g.p + p) * g.q)
          ≡ for p (λ p'. for g.q (fused_tap (f + u) h w c p')) (col (c * g.p * g.q))
    unfolding for
    rows-eq c zero hc hp = ap col (omega arith)
    rows-eq c (suc p) hc hp =
        ap col (omega arith)
        ∙ columns-eq c p g.q hc (omega arith) (omega arith)
        ∙ ap (for g.q (fused_tap (f + u) h w c p)) (rows-eq c p hc (omega arith))

    channels-eq :
        (c : ℕ)
        → c ≤ g.c
        → col (c * g.p * g.q)
          ≡ for c (λ c'. for g.p (λ p'. for g.q (fused_tap (f + u) h w c' p'))) fl.fzero
    unfolding for column
    channels-eq zero hc = let none_yet : zero * g.p * g.q ≡ 0 = omega arith in ap col none_yet
    channels-eq (suc c) hc =
        ap col (omega arith)
        ∙ rows-eq c g.p (omega arith) (omega arith)
        ∙ ap (for g.p (λ p'. for g.q (fused_tap (f + u) h w c p'))) (channels-eq c (omega arith))

    pub pixel_acc-fused :
        (y : Array F) → pixel_acc fl mem gen_a gen_b g f h w y u ≡ fused_pixel (f + u) h w
    unfolding pixel_acc fused_pixel over_taps
    pixel_acc-fused y =
        let start : State F = record { acc = λ v. fl.fzero; pos_a = 0; pos_b = 0; y = y } in
        let some_taps =
          before-lt g win cfg_a cfg_b gen_a gen_b st 0 0 0 win.channels.0 win.rows.0
            win.columns.0 in
        let all : taps g - 1 + 1 ≡ g.c * g.p * g.q =
          omega (arith, some_taps, taps_lem g win cfg_a cfg_b gen_a gen_b st) in
        (frep-Replayed fl mem (gen_a (window g h w)) (gen_b (weights g f)) filters 0
            (taps g - 1 + 1) start refl refl).acc
          u hu
        ∙ ap col all
        ∙ channels-eq g.c (omega arith)

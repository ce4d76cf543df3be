-- ===== src/Kernel/Conv/Correct.antt =====
-- `Conv2d_fp32_fp32_fp32_NCHW` of runtime/snitch/kernels/conv2d_fp32_ssr.c computes the convolution.
use k9r.Base.{
  ℕ, ◌+◌, ◌-◌, ◌*◌, ◌/◌, ◌%◌, ◌≤◌, ◌<◌, ◌≡◌, ◌∙◌, inl, inr, sym, ap, Array, arith, for, for_out,
  for_at, lt→ltb, le→ltb, if_true, if_false, dec_lt,
}
use k9r.Kernel.Compute.{Float}
use k9r.Kernel.Conv.{
  Shape, filters, h_out, w_out, groups, with_bias, pixel, scalar_pixel, scalar_sum, conv2d,
}
use k9r.Kernel.Conv.Window.{AreStreams, IsWindow}
use k9r.Kernel.Conv.Taps.{fused_pixel, plain_pixel, scalar_sum-plain}
use k9r.Kernel.Conv.Places.{IsOutput, over_plane, plane_out, plane_at, place}
use k9r.Kernel.Conv.Pixel.{output, scalar_here, scalar_out, pixel_out, pixel_here}

module _ {F : Type 0} (fl : Float F) (mem : ℕ → F) (g : Shape) (o : IsOutput g) (win : IsWindow g)
    (cfg_a cfg_b : Array ℕ) (gen_a gen_b : ℕ → ℕ → ℕ)
    (st : AreStreams g cfg_a cfg_b gen_a gen_b) where
  -- The loops of the kernel.
  abbrev streamed : Array F → Array F
  streamed =
      for (groups g)
        (λ b. over_plane (pixel fl mem gen_a gen_b g (filters * b)) (h_out g) (w_out g))

  abbrev rest : ℕ → Array F → Array F
  rest r = over_plane (scalar_pixel fl mem g (filters * groups g + r)) (h_out g) (w_out g)

  streamed_at :
      (f h w : ℕ) (y : Array F)
      → f < filters * groups g
      → h < h_out g
      → w < w_out g
      → streamed y (place g o f h w) ≡ with_bias fl mem g f (fused_pixel fl mem g f h w)
  streamed_at f h w y hf hh hw =
      let b : ℕ = f / filters in
      let u : ℕ = f % filters in
      let p = place g o f h w in
      let split : filters * b + u ≡ f = omega arith in
      for_at (λ b'. over_plane (pixel fl mem gen_a gen_b g (filters * b')) (h_out g) (w_out g)) p
        (groups g) b _ y (omega arith)
        (λ b' lt ne x.
          plane_out (pixel fl mem gen_a gen_b g (filters * b')) p (h_out g) (w_out g) x
            (λ h' w' hh' hw' x'.
              pixel_out fl mem g o win cfg_a cfg_b gen_a gen_b st f h w (filters * b') h' w' hh hw
                (omega arith) hh' hw' (λ v lt'. inl (λ e. ne (omega arith))) x'))
        (λ x.
          plane_at (pixel fl mem gen_a gen_b g (filters * b)) p (h_out g) (w_out g) h w _ x hh hw
            (λ h' w' hh' hw' d x'.
              pixel_out fl mem g o win cfg_a cfg_b gen_a gen_b st f h w (filters * b) h' w' hh hw
                (omega arith) hh' hw' (λ v lt'. inr d) x')
            (λ x'.
              ap (λ f'. pixel fl mem gen_a gen_b g (filters * b) h w x' (place g o f' h w))
                (sym split)
              ∙ pixel_here fl mem g o win cfg_a cfg_b gen_a gen_b st (filters * b) u h w
                  (omega arith) (omega arith) hh hw x'
              ∙ ap (λ f'. with_bias fl mem g f' (fused_pixel fl mem g f' h w)) split))

  rest_out :
      (f h w n : ℕ) (y : Array F)
      → f < filters * groups g
      → filters * groups g + n ≤ g.f
      → h < h_out g
      → w < w_out g
      → for n rest y (place g o f h w) ≡ y (place g o f h w)
  rest_out f h w n y hf hn hh hw =
      let p = place g o f h w in
      for_out rest p n y (λ r lt x.
        plane_out (scalar_pixel fl mem g (filters * groups g + r)) p (h_out g) (w_out g) x
          (λ h' w' hh' hw' x'.
            scalar_out fl mem g o f h w (filters * groups g + r) h' w' hh hw (omega arith) hh' hw'
              (inl (λ e. absurd (omega arith))) x'))

  rest_at :
      (f h w n : ℕ) (y : Array F)
      → filters * groups g ≤ f
      → f < filters * groups g + n
      → filters * groups g + n ≤ g.f
      → h < h_out g
      → w < w_out g
      → for n rest y (place g o f h w) ≡ with_bias fl mem g f (scalar_sum fl mem g f h w)
  rest_at f h w n y ge lt hn hh hw =
      let p = place g o f h w in
      let r : ℕ = f - filters * groups g in
      let this : filters * groups g + r ≡ f = omega arith in
      for_at rest p n r _ y (omega arith)
        (λ r' lt' ne x.
          plane_out (scalar_pixel fl mem g (filters * groups g + r')) p (h_out g) (w_out g) x
            (λ h' w' hh' hw' x'.
              scalar_out fl mem g o f h w (filters * groups g + r') h' w' hh hw (omega arith) hh'
                hw' (inl (λ e. ne (omega arith))) x'))
        (λ x.
          ap (λ f'. over_plane (scalar_pixel fl mem g f') (h_out g) (w_out g) x p) this
          ∙ plane_at (scalar_pixel fl mem g f) p (h_out g) (w_out g) h w _ x hh hw
              (λ h' w' hh' hw' d x'.
                scalar_out fl mem g o f h w f h' w' hh hw (omega arith) hh' hw' (inr d) x')
              (λ x'. scalar_here fl mem g o f h w (omega arith) hh hw x'))

  -- The kernel fills the output with the convolution: for every filter, row and column, the output
  -- is the sum over the taps of the window, channel by channel, row by row, with the bias added at
  -- the end if there is one; fused in the filters of full groups of four, and by a multiplication
  -- and an addition in the filters that are left. This is for a shape whose window and output are
  -- not empty, with 32-bit sizes, and address generators that do what is documented.
  pub conv2d_convolution :
      (y : Array F) (f h w : ℕ)
      → f < g.f
      → h < h_out g
      → w < w_out g
      → conv2d fl mem gen_a gen_b g y ((f * h_out g + h) * w_out g + w) ≡ output fl mem g f h w
  unfolding conv2d
  conv2d_convolution y f h w hf hh hw =
      let n : ℕ = g.f - filters * groups g in
      elim (dec_lt f (filters * groups g)) [
        | yes lt ↦
            rest_out f h w n (streamed y) lt (omega arith) hh hw
            ∙ streamed_at f h w y lt hh hw
            ∙ ap (with_bias fl mem g f)
                (sym (if_true (plain_pixel fl mem g f h w) (lt→ltb f (filters * groups g) lt)))
        | no ge ↦
            rest_at f h w n (streamed y) (omega arith) (omega arith) (omega arith) hh hw
            ∙ ap (with_bias fl mem g f) (
                scalar_sum-plain fl mem g f h w
                ∙ sym (
                    if_false (fused_pixel fl mem g f h w)
                      (le→ltb f (filters * groups g) (omega arith))))
      ]

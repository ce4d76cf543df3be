-- ===== src/Kernel/Conv/Pixel.antt =====
-- What one pixel of `Conv2d_fp32_fp32_fp32_NCHW` writes, streamed or scalar, and what it leaves.
use k9r.Base.{
  ℕ, ◌+◌, ◌*◌, ◌/◌, ◌≤◌, ◌<◌, ◌≡◌, ◌≢◌, ◌∙◌, ◌⊎◌, inl, inr, ap, Array, arith, for_out, for_at,
  mul32, update, update_self, update_ne, ltb, if◌then◌else◌,
}
use k9r.Kernel.Gemm.{elem_addr}
use k9r.Kernel.Compute.{Float}
use k9r.Kernel.Conv.{
  Shape, filters, h_out, w_out, out_idx, with_bias, pixel, pixel_acc, scalar_pixel, scalar_sum,
}
use k9r.Kernel.Conv.Window.{AreStreams, IsWindow}
use k9r.Kernel.Conv.Taps.{fused_pixel, plain_pixel, pixel_acc-fused}
use k9r.Kernel.Conv.Places.{IsOutput, place, out_idx-place, place_unique, pixel_place}

-- The output of filter `f`: the taps are fused in the filters of full groups of four, and not in those
-- that are left; the bias of the filter comes last.
abbrev pub output : {F : Type 0} → Float F → (ℕ → F) → Shape → (f h w : ℕ) → F
output fl mem g f h w =
    let sum =
      if ltb f (4 * (g.f / 4)) then fused_pixel fl mem g f h w else plain_pixel fl mem g f h w in
    if g.has_bias then fl.fadd sum (mem (elem_addr g.src_bias f)) else sum

module _ {F : Type 0} (fl : Float F) (mem : ℕ → F) (g : Shape) (o : IsOutput g) where
  -- An output that is not written by filter `f`, row `h` and column `w`.
  abbrev pub Elsewhere : (f h w f' h' w' : ℕ) → Type 0
  Elsewhere f h w f' h' w' = (f' ≢ f) ⊎ (h' ≢ h) ⊎ (w' ≢ w)

  place_ne :
      (f h w f' h' w' : ℕ)
      → h < h_out g
      → w < w_out g
      → h' < h_out g
      → w' < w_out g
      → Elsewhere f h w f' h' w'
      → place g o f' h' w' ≢ place g o f h w
  place_ne f h w f' h' w' hh hw hh' hw' d e =
      let (fe, he, we) = place_unique g o f' h' w' f h w hh' hw' hh hw e in
      elim d [ inl ne ↦ ne fe | inr rest ↦ elim rest [ inl ne ↦ ne he | inr ne ↦ ne we ] ]

  pub scalar_here :
      (f h w : ℕ)
      → f < g.f
      → h < h_out g
      → w < w_out g
      → (y : Array F)
      → scalar_pixel fl mem g f h w y (place g o f h w)
        ≡ with_bias fl mem g f (scalar_sum fl mem g f h w)
  unfolding scalar_pixel
  scalar_here f h w hf hh hw y =
      ap (λ p. update y p (with_bias fl mem g f (scalar_sum fl mem g f h w)) (place g o f h w))
        (out_idx-place g o f h w hf hh hw)
      ∙ update_self y (place g o f h w) _

  pub scalar_out :
      (f h w f' h' w' : ℕ)
      → h < h_out g
      → w < w_out g
      → f' < g.f
      → h' < h_out g
      → w' < w_out g
      → Elsewhere f h w f' h' w'
      → (y : Array F) → scalar_pixel fl mem g f' h' w' y (place g o f h w) ≡ y (place g o f h w)
  unfolding scalar_pixel
  scalar_out f h w f' h' w' hh hw hf' hh' hw' d y =
      ap (λ p. update y p (with_bias fl mem g f' (scalar_sum fl mem g f' h' w')) (place g o f h w))
        (out_idx-place g o f' h' w' hf' hh' hw')
      ∙ update_ne y (place g o f' h' w') _ (place_ne f h w f' h' w' hh hw hh' hw' d)

  module _ (win : IsWindow g) (cfg_a cfg_b : Array ℕ) (gen_a gen_b : ℕ → ℕ → ℕ)
      (st : AreStreams g cfg_a cfg_b gen_a gen_b) where
    abbrev px : (f h w : ℕ) → Array F → Array F
    px = pixel fl mem gen_a gen_b g

    -- The store of filter `f + u` of a pixel.
    abbrev put : (f h w u : ℕ) → (y x : Array F) → Array F
    put f h w u y x =
        update x (out_idx g f h w + mul32 u (mul32 (h_out g) (w_out g)))
          (with_bias fl mem g (f + u) (pixel_acc fl mem gen_a gen_b g f h w y u))

    put_out :
        (f h w f' u h' w' : ℕ)
        → h < h_out g
        → w < w_out g
        → f' + u < g.f
        → h' < h_out g
        → w' < w_out g
        → Elsewhere f h w (f' + u) h' w'
        → (y x : Array F) → put f' h' w' u y x (place g o f h w) ≡ x (place g o f h w)
    put_out f h w f' u h' w' hh hw hf' hh' hw' d y x =
        ap
          (λ p.
            update x p (with_bias fl mem g (f' + u) (pixel_acc fl mem gen_a gen_b g f' h' w' y u))
              (place g o f h w))
          (pixel_place g o f' h' w' u hf' hh' hw')
        ∙ update_ne x (place g o (f' + u) h' w') _ (place_ne f h w (f' + u) h' w' hh hw hh' hw' d)

    pub pixel_out :
        (f h w f' h' w' : ℕ)
        → h < h_out g
        → w < w_out g
        → f' + filters ≤ g.f
        → h' < h_out g
        → w' < w_out g
        → ((u : ℕ) → u < filters → Elsewhere f h w (f' + u) h' w')
        → (y : Array F) → px f' h' w' y (place g o f h w) ≡ y (place g o f h w)
    unfolding pixel
    pixel_out f h w f' h' w' hh hw hf' hh' hw' d y =
        for_out (λ u. put f' h' w' u y) (place g o f h w) filters y
          (λ u lt x. put_out f h w f' u h' w' hh hw (omega arith) hh' hw' (d u lt) y x)

    pub pixel_here :
        (f u h w : ℕ)
        → f + filters ≤ g.f
        → u < filters
        → h < h_out g
        → w < w_out g
        → (y : Array F)
        → px f h w y (place g o (f + u) h w)
          ≡ with_bias fl mem g (f + u) (fused_pixel fl mem g (f + u) h w)
    unfolding pixel
    pixel_here f u h w hf hu hh hw y =
        for_at (λ v. put f h w v y) (place g o (f + u) h w) filters u _ y hu
          (λ v lt ne x.
            put_out (f + u) h w f v h w hh hw (omega arith) hh hw (inl (λ e. ne (omega arith))) y x)
          (λ x.
            ap
              (λ p.
                update x p (with_bias fl mem g (f + u) (pixel_acc fl mem gen_a gen_b g f h w y u))
                  (place g o (f + u) h w))
              (pixel_place g o f h w u (omega arith) hh hw)
            ∙ update_self x (place g o (f + u) h w) _
            ∙ ap (with_bias fl mem g (f + u))
                (pixel_acc-fused fl mem g win cfg_a cfg_b gen_a gen_b st f h w u hu y))

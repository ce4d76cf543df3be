-- ===== src/Kernel/Conv.antt =====
-- `Conv2d_fp32_fp32_fp32_NCHW` of runtime/snitch/kernels/conv2d_fp32_ssr.c. Floats and memory are
-- those of the other kernels. Writing a stream's pointer rewinds the stream: `gen_a ptr` and
-- `gen_b ptr` are the addresses that the two deliver from then on.
pub mod Window
pub mod Taps
pub mod Places
pub mod Pixel
pub mod Correct
mod Tests
use k9r.Base.{
  ℕ, zero, suc, ◌+◌, ◌-◌, ◌*◌, ◌/◌, Array, update, add32, sub32, mul32, Bool, true, false, ◌||◌,
  ◌==◌, if◌then◌else◌, for,
}
use k9r.Ssr.{ssr_2d, ssr_3d, loop_2d, loop_3d, repeat, read}
use k9r.Kernel.Gemm.{stride, elem_addr}
use k9r.Kernel.Compute.{Float, State, frep}

-- F_UNROLL
abbrev pub filters : ℕ
filters = 4

-- The arguments; `h` and `w` are `H_padded` and `W_padded`.
pub record Shape : Type 0 where
  pub src_a : ℕ
  pub src_b : ℕ
  pub src_bias : ℕ
  pub has_bias : Bool
  pub c : ℕ
  pub h : ℕ
  pub w : ℕ
  pub f : ℕ
  pub p : ℕ
  pub q : ℕ
  pub sp : ℕ
  pub sq : ℕ

abbrev pub h_out : Shape → ℕ
h_out g = add32 (sub32 g.h g.p / g.sp) 1

abbrev pub w_out : Shape → ℕ
w_out g = add32 (sub32 g.w g.q / g.sq) 1

abbrev pub taps : Shape → ℕ
taps g = mul32 (mul32 g.c g.p) g.q

abbrev pub groups : Shape → ℕ
groups g = g.f / filters

-- The shapes that are left to the generic implementation.
abbrev pub is_generic : Shape → Bool
is_generic g = (groups g == 0) || ((taps g == 0) || ((h_out g == 0) || (w_out g == 0)))

-- The configurations of SSR_DM0 and SSR_DM1 while they read from `ptr`.
unfoldable pub stream_a : Shape → (ptr : ℕ) → Array ℕ → Array ℕ
stream_a g ptr cfg = read ssr_3d ptr (
    repeat filters
      (loop_3d g.q g.p g.c stride (mul32 g.w stride) (mul32 (mul32 g.h g.w) stride) cfg))

unfoldable pub stream_b : Shape → (ptr : ℕ) → Array ℕ → Array ℕ
stream_b g ptr cfg = read ssr_2d ptr (loop_2d filters (taps g) (mul32 (taps g) stride) stride cfg)

-- `&pSrcA[(h * SP) * W_padded + w * SQ]` and `&pSrcB[f * taps]`
abbrev pub window : Shape → (h w : ℕ) → ℕ
window g h w = elem_addr g.src_a (add32 (mul32 (mul32 h g.sp) g.w) (mul32 w g.sq))

abbrev pub weights : Shape → (f : ℕ) → ℕ
weights g f = elem_addr g.src_b (mul32 f (taps g))

-- The indices of the scalar loop.
abbrev pub in_idx : Shape → (h w c p q : ℕ) → ℕ
in_idx g h w c p q =
    add32 (add32 (mul32 (mul32 c g.h) g.w) (mul32 (add32 (mul32 h g.sp) p) g.w))
      (add32 (mul32 w g.sq) q)

abbrev pub weight_idx : Shape → (f c p q : ℕ) → ℕ
weight_idx g f c p q =
    add32 (add32 (add32 (mul32 f (taps g)) (mul32 (mul32 c g.p) g.q)) (mul32 p g.q)) q

abbrev pub out_idx : Shape → (f h w : ℕ) → ℕ
out_idx g f h w = add32 (add32 (mul32 (mul32 f (h_out g)) (w_out g)) (mul32 h (w_out g))) w

-- The loops over the taps of a window: channels, rows, columns.
unfoldable pub over_taps : {F : Type 0} → Shape → (ℕ → ℕ → ℕ → F → F) → F → F
unfolding for
over_taps g step = for g.c (λ c. for g.p (λ p. for g.q (λ q. step c p q)))

module _ {F : Type 0} (fl : Float F) (mem : ℕ → F) where
  abbrev pub with_bias : Shape → (f : ℕ) → F → F
  with_bias g f x = if g.has_bias then fl.fadd x (mem (elem_addr g.src_bias f)) else x

  -- A pixel of one filter by the scalar loop.
  unfoldable pub scalar_sum : Shape → (f h w : ℕ) → F
  unfolding over_taps
  scalar_sum g f h w =
      over_taps g
        (λ c p q sum. fl.fadd sum (
          fl.fmul (mem (elem_addr g.src_a (in_idx g h w c p q)))
            (mem (elem_addr g.src_b (weight_idx g f c p q)))))
        fl.fzero

  unfoldable pub scalar_pixel : Shape → (f h w : ℕ) → Array F → Array F
  scalar_pixel g f h w y = update y (out_idx g f h w) (with_bias g f (scalar_sum g f h w))

module _ {F : Type 0} (fl : Float F) (mem : ℕ → F) (gen_a gen_b : ℕ → ℕ → ℕ) where
  -- The accumulators of a pixel of the four filters from `f` on. The body runs `frep_rpt + 1` times.
  unfoldable pub pixel_acc : Shape → (f h w : ℕ) → Array F → ℕ → F
  pixel_acc g f h w y =
      let start : State F = record { acc = λ u. fl.fzero; pos_a = 0; pos_b = 0; y = y } in
      (frep fl mem (gen_a (window g h w)) (gen_b (weights g f)) filters (taps g - 1 + 1) start).acc

  -- `y[u * plane] = c + bias` for the four.
  unfoldable pub pixel : Shape → (f h w : ℕ) → Array F → Array F
  unfolding for pixel_acc
  pixel g f h w y =
      let plane = mul32 (h_out g) (w_out g) in
      for filters
        (λ u y'.
          update y' (out_idx g f h w + mul32 u plane)
            (with_bias fl mem g (f + u) (pixel_acc g f h w y u)))
        y

  -- The streamed filters, then the ones past the last full group.
  unfoldable pub conv2d : Shape → Array F → Array F
  unfolding for
  conv2d g y =
      let streamed =
        for (groups g) (λ b. for (h_out g) (λ h. for (w_out g) (λ w. pixel g (filters * b) h w)))
          y in
      for (g.f - filters * groups g)
        (λ r.
          for (h_out g)
            (λ h. for (w_out g) (λ w. scalar_pixel fl mem g (filters * groups g + r) h w)))
        streamed

  -- The kernel; `generic` takes the shapes that this one does not.
  unfoldable pub conv2d_nchw : (Shape → Array F → Array F) → Shape → Array F → Array F
  conv2d_nchw generic g y = if is_generic g then generic g y else conv2d g y

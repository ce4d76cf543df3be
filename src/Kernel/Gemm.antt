-- ===== src/Kernel/Gemm.antt =====
-- The streams of `gemm_ssr` in runtime/snitch/kernels/gemm_fp32_ssr.c, and the index formulas of its
-- scalar loop. Both are for matrices of `m` by `n` and `n` by `o` floats.
pub mod Streams
use k9r.Base.{ℕ, ◌/◌, Array, Bool, ◌==◌, if◌then◌else◌, ltb, ◌||◌, add32, mul32}
use k9r.Ssr.{ssr_3d, ssr_4d, loop_3d, loop_4d, repeat, read}

-- UNROLL and `sizeof(float32_t)`
abbrev pub unroll : ℕ
unroll = 8

abbrev pub stride : ℕ
stride = 4

abbrev pub blocks : ℕ → ℕ
blocks o = o / unroll

-- The shapes that the kernels leave to the generic implementation.
abbrev pub is_generic : (m n o : ℕ) → Bool
is_generic m n o = (m == 0) || (n == 0) || ltb o unroll

module _ (m n o : ℕ) where
  -- The configuration of SSR_DM0, from any one before.
  unfoldable pub stream_a : (trans_a src : ℕ) → Array ℕ → Array ℕ
  stream_a trans_a src cfg = read ssr_3d src (
      repeat unroll (
        if trans_a == 0
        then loop_3d n (blocks o) m stride 0 (mul32 n stride) cfg
        else loop_3d n (blocks o) m (mul32 m stride) 0 stride cfg))

  -- The configuration of SSR_DM1.
  unfoldable pub stream_b : (trans_b src : ℕ) → Array ℕ → Array ℕ
  stream_b trans_b src cfg = read ssr_4d src (
      if trans_b == 0
      then loop_4d unroll n (blocks o) m stride (mul32 o stride) (mul32 unroll stride) 0 cfg
      else loop_4d unroll n (blocks o) m (mul32 n stride) stride (mul32 (mul32 unroll n) stride) 0
          cfg)

  -- `a_idx` and `b_idx`
  abbrev pub a_idx : (trans_a i k : ℕ) → ℕ
  a_idx trans_a i k = if trans_a == 0 then add32 (mul32 i n) k else add32 (mul32 k m) i

  abbrev pub b_idx : (trans_b j k : ℕ) → ℕ
  b_idx trans_b j k = if trans_b == 0 then add32 (mul32 k o) j else add32 (mul32 j n) k

-- `&src[idx]`
abbrev pub elem_addr : ℕ → ℕ → ℕ
elem_addr src idx = add32 src (mul32 idx stride)

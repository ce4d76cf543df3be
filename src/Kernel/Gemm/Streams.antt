-- ===== src/Kernel/Gemm/Streams.antt =====
-- The streams of `gemm_ssr` against the index formulas of its scalar loop.
use mathlib.Core.Path.{subst}
use k9r.Base.{
  ℕ, ◌+◌, ◌*◌, ◌%◌, ◌≤◌, ◌<◌, ◌≡◌, Array, ◌==◌, if◌then◌else◌, add32, mul32, mul32-u32, u32_mod,
  arith, Bool-cases, inl, inr, Bool, true, false, refl,
}
use k9r.Ssr.{ssr_3d, ssr_4d, loop_3d, loop_4d, repeat, read}
use k9r.Ssr.Walk.{Delivers}
use k9r.Ssr.Nest.{IsCount, loop_3d-walks, loop_4d-walks}
use k9r.Kernel.Gemm.{unroll, stride, blocks, stream_a, stream_b, a_idx, b_idx, elem_addr}

module _ (m n o : ℕ) (hm : IsCount m) (hn : IsCount n) (ho : unroll ≤ o) (ho' : o < u32_mod) where
  IsCount-blocks : IsCount (blocks o)
  IsCount-blocks = omega arith

  config_a :
      (trans_a src : ℕ) (cfg : Array ℕ) (plain : Bool)
      → (trans_a == 0) ≡ plain
      → stream_a m n o trans_a src cfg
        ≡ read ssr_3d src (
            repeat unroll (
              if plain
              then loop_3d n (blocks o) m stride 0 (mul32 n stride) cfg
              else loop_3d n (blocks o) m (mul32 m stride) 0 stride cfg))
  unfolding stream_a
  config_a trans_a src cfg plain e = rw e refl

  config_b :
      (trans_b src : ℕ) (cfg : Array ℕ) (plain : Bool)
      → (trans_b == 0) ≡ plain
      → stream_b m n o trans_b src cfg
        ≡ read ssr_4d src (
            if plain
            then loop_4d unroll n (blocks o) m stride (mul32 o stride) (mul32 unroll stride) 0 cfg
            else loop_4d unroll n
                (blocks o)
                m
                (mul32 n stride)
                stride
                (mul32 (mul32 unroll n) stride)
                0
                cfg)
  unfolding stream_b
  config_b trans_b src cfg plain e = rw e refl

  -- The affine addresses are those of the indices.
  affine_a :
      (src i k : ℕ)
      → (src + i * mul32 n stride + k * stride) % u32_mod ≡ elem_addr src (add32 (mul32 i n) k)
  affine_a src i k = omega (arith, mul32-u32 (n * stride) i)

  affine_b :
      (src b k u : ℕ)
      → (src + b * mul32 (mul32 unroll n) stride + k * stride + u * mul32 n stride) % u32_mod
        ≡ elem_addr src (add32 (mul32 (unroll * b + u) n) k)
  affine_b src b k u = omega (
    arith,
    mul32-u32 (mul32 unroll n * stride) b,
    mul32-u32 (unroll * n) (stride * b),
    mul32-u32 (n * stride) u,
  )

  stream_a_lem :
      (trans_a src : ℕ) (cfg : Array ℕ) (addr : ℕ → ℕ → ℕ → ℕ → ℕ)
      → Delivers (stream_a m n o trans_a src cfg) ssr_3d addr
      → (i b k : ℕ) → i < m
      → b < blocks o
      → k < n
      → addr k b i 0 ≡ elem_addr src (a_idx m n o trans_a i k)
  stream_a_lem trans_a src cfg addr d i b k hi hb hk = elim (Bool-cases (trans_a == 0)) [
    | inl plain ↦
        let d' = subst (λ c. Delivers c ssr_3d addr) (config_a trans_a src cfg true plain) d in
        let walk =
          loop_3d-walks n (blocks o) m stride 0 (mul32 n stride) src unroll cfg addr hn
            IsCount-blocks hm d' k b i hk hb hi in
        rw plain (omega (arith, walk, affine_a src i k))
    | inr trans ↦
        let d' = subst (λ c. Delivers c ssr_3d addr) (config_a trans_a src cfg false trans) d in
        let walk =
          loop_3d-walks n (blocks o) m (mul32 m stride) 0 stride src unroll cfg addr hn
            IsCount-blocks hm d' k b i hk hb hi in
        rw trans (omega (arith, walk, mul32-u32 (m * stride) k))
  ]

  stream_b_lem :
      (trans_b src : ℕ) (cfg : Array ℕ) (addr : ℕ → ℕ → ℕ → ℕ → ℕ)
      → Delivers (stream_b m n o trans_b src cfg) ssr_4d addr
      → (i b k u : ℕ) → i < m
      → b < blocks o
      → k < n
      → u < unroll
      → addr u k b i ≡ elem_addr src (b_idx m n o trans_b (unroll * b + u) k)
  stream_b_lem trans_b src cfg addr d i b k u hi hb hk hu = elim (Bool-cases (trans_b == 0)) [
    | inl plain ↦
        let d' = subst (λ c. Delivers c ssr_4d addr) (config_b trans_b src cfg true plain) d in
        let walk =
          loop_4d-walks unroll n (blocks o) m stride (mul32 o stride) (mul32 unroll stride) 0 src
            cfg addr (omega arith) hn IsCount-blocks hm d' u k b i hu hk hb hi in
        rw plain (omega (arith, walk, mul32-u32 (o * stride) k))
    | inr trans ↦
        let d' = subst (λ c. Delivers c ssr_4d addr) (config_b trans_b src cfg false trans) d in
        let walk =
          loop_4d-walks unroll n (blocks o) m (mul32 n stride) stride
            (mul32 (mul32 unroll n) stride) 0 src cfg addr (omega arith) hn IsCount-blocks hm d' u k
            b i hu hk hb hi in
        rw trans (omega (arith, walk, affine_b src b k u))
  ]

-- The two streams of `gemm_ssr` deliver what the scalar loop reads by index: in row `i`, block `b`,
-- round `k` and column `u` of the block, the stream of A is at the element `a_idx` of row `i` and
-- round `k`, and the stream of B at the element `b_idx` of column `8 * b + u` and round `k`, as
-- 32-bit addresses, with each of the two matrices transposed or not. This is for `m` and `n` not 0,
-- at least 8 columns, sizes below 2 ^ 32, and an address generator that does what is documented.
pub gemm_streams :
    (m n o trans_a trans_b src_a src_b : ℕ) (cfg_a cfg_b : Array ℕ)
    (addr_a addr_b : ℕ → ℕ → ℕ → ℕ → ℕ)
    → IsCount m
    → IsCount n
    → unroll ≤ o
    → o < u32_mod
    → Delivers (stream_a m n o trans_a src_a cfg_a) ssr_3d addr_a
    → Delivers (stream_b m n o trans_b src_b cfg_b) ssr_4d addr_b
    → (i b k u : ℕ) → i < m
    → b < blocks o
    → k < n
    → u < unroll
    → (addr_a k b i 0 ≡ elem_addr src_a (a_idx m n o trans_a i k))
      × (addr_b u k b i ≡ elem_addr src_b (b_idx m n o trans_b (unroll * b + u) k))
gemm_streams m n o ta tb sa sb ca cb aa ab hm hn ho ho' da db i b k u hi hb hk hu = (
  stream_a_lem m n o hm hn ho ho' ta sa ca aa da i b k hi hb hk,
  stream_b_lem m n o hm hn ho ho' tb sb cb ab db i b k u hi hb hk hu,
)

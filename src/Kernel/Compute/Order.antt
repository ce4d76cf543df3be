-- ===== src/Kernel/Compute/Order.antt =====
-- Where an element stands in the streams of `gemm_ssr`.
use k9r.Base.{
  ℕ, ◌+◌, ◌*◌, ◌≤◌, ◌<◌, ◌≡◌, ◌∙◌, refl, ap, sym, Array, arith, mul32, if◌then◌else◌, Bool, true,
  false,
}
use k9r.Ssr.{reg_repeat, reg_bounds, ssr_2d, ssr_3d, ssr_4d, loop_3d, loop_4d, repeat, read}
use k9r.Ssr.Walk.{InTurn, InLoop}
use k9r.Ssr.Nest.{IsCount}
use k9r.Kernel.Gemm.{unroll, blocks, stride}

-- The registers that order a stream.
pub record Counts (cfg : Array ℕ) (b0 b1 b2 r : ℕ) : Type 0 where
  pub loop_0 : cfg reg_bounds + 1 ≡ b0
  pub loop_1 : cfg (reg_bounds + 1) + 1 ≡ b1
  pub loop_2 : cfg (reg_bounds + 2) + 1 ≡ b2
  pub again : cfg reg_repeat + 1 ≡ r

pub position :
    (cfg : Array ℕ) (dim : ℕ) (addr : ℕ → ℕ → ℕ → ℕ → ℕ) (seq : ℕ → ℕ) (b0 b1 b2 r : ℕ)
    → Counts cfg b0 b1 b2 r
    → 2 ≤ dim
    → InTurn cfg dim addr seq
    → (i0 i1 i2 i3 q : ℕ) → i0 < b0
    → i1 < b1
    → i2 < b2
    → InLoop dim 3 i3 (cfg (reg_bounds + 3))
    → q < r
    → seq ((((i3 * b2 + i2) * b1 + i1) * b0 + i0) * r + q) ≡ addr i0 i1 i2 i3
position cfg dim addr seq b0 b1 b2 r c deep t i0 i1 i2 i3 q h0 h1 h2 h3 hq =
    rw (sym c.loop_0, sym c.loop_1, sym c.loop_2, sym c.again)
      (t.turn i0 i1 i2 i3 q (omega (arith, c.loop_0))
        (λ _. omega (arith, c.loop_1), λ lt. absurd (omega arith))
        (λ _. omega (arith, c.loop_2), λ lt. absurd (omega arith)) h3 (omega (arith, c.again)))

-- The same for a stream of two loops, of which the outer one has the bound `n`.
pub position_2d :
    (cfg : Array ℕ) (addr : ℕ → ℕ → ℕ → ℕ → ℕ) (seq : ℕ → ℕ) (b0 n r : ℕ)
    → cfg reg_bounds + 1 ≡ b0
    → cfg (reg_bounds + 1) ≡ n
    → cfg reg_repeat + 1 ≡ r
    → InTurn cfg ssr_2d addr seq
    → (i0 i1 q : ℕ) → i0 < b0
    → i1 ≤ n
    → q < r
    → seq ((i1 * b0 + i0) * r + q) ≡ addr i0 i1 0 0
position_2d cfg addr seq b0 n r e0 e1 er t i0 i1 q h0 h1 hq =
    rw (sym e0, sym er)
      (ap seq (omega arith)
        ∙ t.turn i0 i1 0 0 q (omega (arith, e0))
            (λ _. omega (arith, e1), λ lt. absurd (omega arith))
            (λ deep. absurd (omega arith), λ lt. refl) (λ deep. absurd (omega arith), λ lt. refl)
            (omega (arith, er)))

pub Counts-a :
    (plain : Bool) (m n o src : ℕ) (cfg : Array ℕ)
    → IsCount m
    → IsCount n
    → IsCount (blocks o)
    → Counts
        (read ssr_3d src (
          repeat unroll (
            if plain
            then loop_3d n (blocks o) m stride 0 (mul32 n stride) cfg
            else loop_3d n (blocks o) m (mul32 m stride) 0 stride cfg)))
        n
        (blocks o)
        m
        unroll
unfolding read repeat loop_3d
Counts-a true m n o src cfg hm hn hb = record {
  loop_0 = omega arith;
  loop_1 = omega arith;
  loop_2 = omega arith;
  again = omega arith;
}
Counts-a false m n o src cfg hm hn hb = record {
  loop_0 = omega arith;
  loop_1 = omega arith;
  loop_2 = omega arith;
  again = omega arith;
}

pub Counts-b :
    (plain : Bool) (m n o src : ℕ) (cfg : Array ℕ)
    → IsCount n
    → IsCount (blocks o)
    → cfg reg_repeat ≡ 0
    → Counts
        (read ssr_4d src (
          if plain
          then loop_4d unroll n (blocks o) m stride (mul32 o stride) (mul32 unroll stride) 0 cfg
          else loop_4d unroll n
              (blocks o)
              m
              (mul32 n stride)
              stride
              (mul32 (mul32 unroll n) stride)
              0
              cfg))
        unroll
        n
        (blocks o)
        1
unfolding read loop_4d
Counts-b true m n o src cfg hn hb once = record {
  loop_0 = omega arith;
  loop_1 = omega arith;
  loop_2 = omega arith;
  again = omega arith;
}
Counts-b false m n o src cfg hn hb once = record {
  loop_0 = omega arith;
  loop_1 = omega arith;
  loop_2 = omega arith;
  again = omega arith;
}

pub outer_b :
    (plain : Bool) (m n o src : ℕ) (cfg : Array ℕ)
    → IsCount m
    → read ssr_4d src
          (if plain
            then loop_4d unroll n (blocks o) m stride (mul32 o stride) (mul32 unroll stride) 0 cfg
            else loop_4d unroll n
                (blocks o)
                m
                (mul32 n stride)
                stride
                (mul32 (mul32 unroll n) stride)
                0
                cfg)
          (reg_bounds + 3)
        + 1
      ≡ m
unfolding read loop_4d
outer_b true m n o src cfg hm = omega arith
outer_b false m n o src cfg hm = omega arith

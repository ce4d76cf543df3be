-- ===== src/Ssr/Nest.antt =====
-- The streams that `ssr_loop_2d`, `ssr_loop_3d` and `ssr_loop_4d` set up, in terms of their arguments.
use k9r.Base.{ℕ, ◌+◌, ◌*◌, ◌%◌, ◌≤◌, ◌<◌, ◌≡◌, ap, Array, add32, sub32, mul32, u32_mod, u32, arith}
use k9r.Ssr.{ssr_2d, ssr_3d, ssr_4d, loop_2d, loop_3d, loop_4d, read, repeat}
use k9r.Ssr.Walk.{Delivers, rounds_1, rounds_2, rounds_3}

-- A loop count that is not 0.
abbrev pub IsCount : ℕ → Type 0
IsCount b = (0 < b) × (b < u32_mod)

counter_lem : (b i : ℕ) → IsCount b → i < b → i ≤ u32 (sub32 b 1)
counter_lem b i h lt = omega arith

-- The way through one loop, as `_a` adds it up and as the counters go.
abbrev way : ℕ → ℕ → ℕ
way b s = u32 (sub32 b 1) * s

way_lem : (b s : ℕ) → mul32 s (sub32 b 1) ≡ way b s % u32_mod
way_lem b s = ap (λ t. t % u32_mod) (product (sub32 b 1) (u32 (sub32 b 1)) (omega arith))
  where
    product : (x y : ℕ) → x ≡ y → s * x ≡ y * s
    product x y e = omega (arith, ap (λ t. s * t) e)

-- A stride register holds its stride less the way of the loops inside.
delta_0 : (s : ℕ) → (u32 (sub32 s 0) + 0) % u32_mod ≡ s % u32_mod
delta_0 s = omega arith

delta_1 :
    (b0 s0 s : ℕ) → (u32 (sub32 s (mul32 s0 (sub32 b0 1))) + way b0 s0) % u32_mod ≡ s % u32_mod
delta_1 b0 s0 s = omega (arith, way_lem b0 s0)

delta_2 :
    (b0 b1 s0 s1 s : ℕ)
    → (u32 (sub32 s (add32 (mul32 s0 (sub32 b0 1)) (mul32 s1 (sub32 b1 1))))
          + (way b1 s1 + way b0 s0))
        % u32_mod
      ≡ s % u32_mod
delta_2 b0 b1 s0 s1 s = omega (arith, way_lem b0 s0, way_lem b1 s1)

delta_3 :
    (b0 b1 b2 s0 s1 s2 s : ℕ)
    → (u32 (
            sub32 s (
              add32
                (add32 (mul32 s0 (sub32 b0 1)) (mul32 s1 (sub32 b1 1)))
                (mul32 s2 (sub32 b2 1))))
          + (way b2 s2 + way b1 s1 + way b0 s0))
        % u32_mod
      ≡ s % u32_mod
delta_3 b0 b1 b2 s0 s1 s2 s = omega (arith, way_lem b0 s0, way_lem b1 s1, way_lem b2 s2)

-- The same of two loops.
pub loop_2d-walks :
    (b0 b1 s0 s1 ptr : ℕ) (cfg : Array ℕ) (addr : ℕ → ℕ → ℕ → ℕ → ℕ)
    → IsCount b0
    → IsCount b1
    → Delivers (read ssr_2d ptr (loop_2d b0 b1 s0 s1 cfg)) ssr_2d addr
    → (i0 i1 : ℕ) → i0 < b0
    → i1 < b1
    → addr i0 i1 0 0 ≡ (ptr + i1 * s1 + i0 * s0) % u32_mod
unfolding loop_2d read
loop_2d-walks b0 b1 s0 s1 ptr cfg addr h0 h1 d i0 i1 lt0 lt1 =
    rounds_1 d s0 s1 0 0 ptr i0 i1 0 0 (omega arith) (delta_0 s0, delta_1 b0 s0 s1) d.start
      (counter_lem b0 i0 h0 lt0) (counter_lem b1 i1 h1 lt1)

-- A stream of `count` repetitions over a nest of three loops visits the affine nest of its strides:
-- at counters below the loop counts, which are positive, its address is the pointer and each
-- counter times its stride, modulo 2 ^ 32. This is for an address generator that does what is
-- documented of it.
pub loop_3d-walks :
    (b0 b1 b2 s0 s1 s2 ptr count : ℕ) (cfg : Array ℕ) (addr : ℕ → ℕ → ℕ → ℕ → ℕ)
    → IsCount b0
    → IsCount b1
    → IsCount b2
    → Delivers (read ssr_3d ptr (repeat count (loop_3d b0 b1 b2 s0 s1 s2 cfg))) ssr_3d addr
    → (i0 i1 i2 : ℕ) → i0 < b0
    → i1 < b1
    → i2 < b2
    → addr i0 i1 i2 0 ≡ (ptr + i2 * s2 + i1 * s1 + i0 * s0) % u32_mod
unfolding loop_3d read repeat
loop_3d-walks b0 b1 b2 s0 s1 s2 ptr count cfg addr h0 h1 h2 d i0 i1 i2 lt0 lt1 lt2 =
    rounds_2 d s0 s1 s2 0 ptr i0 i1 i2 0 (omega arith)
      (delta_0 s0, delta_1 b0 s0 s1, delta_2 b0 b1 s0 s1 s2) d.start (counter_lem b0 i0 h0 lt0)
      (counter_lem b1 i1 h1 lt1) (counter_lem b2 i2 h2 lt2)

-- A stream over a nest of four loops visits the affine nest of its strides: at counters below the
-- loop counts, which are positive, its address is the pointer and each counter times its stride,
-- modulo 2 ^ 32. This is for an address generator that does what is documented of it.
pub loop_4d-walks :
    (b0 b1 b2 b3 s0 s1 s2 s3 ptr : ℕ) (cfg : Array ℕ) (addr : ℕ → ℕ → ℕ → ℕ → ℕ)
    → IsCount b0
    → IsCount b1
    → IsCount b2
    → IsCount b3
    → Delivers (read ssr_4d ptr (loop_4d b0 b1 b2 b3 s0 s1 s2 s3 cfg)) ssr_4d addr
    → (i0 i1 i2 i3 : ℕ) → i0 < b0
    → i1 < b1
    → i2 < b2
    → i3 < b3
    → addr i0 i1 i2 i3 ≡ (ptr + i3 * s3 + i2 * s2 + i1 * s1 + i0 * s0) % u32_mod
unfolding loop_4d read
loop_4d-walks b0 b1 b2 b3 s0 s1 s2 s3 ptr cfg addr h0 h1 h2 h3 d i0 i1 i2 i3 lt0 lt1 lt2 lt3 =
    rounds_3 d s0 s1 s2 s3 ptr i0 i1 i2 i3 (omega arith)
      (delta_0 s0, delta_1 b0 s0 s1, delta_2 b0 b1 s0 s1 s2, delta_3 b0 b1 b2 s0 s1 s2 s3) d.start
      (counter_lem b0 i0 h0 lt0) (counter_lem b1 i1 h1 lt1) (counter_lem b2 i2 h2 lt2)
      (counter_lem b3 i3 h3 lt3)

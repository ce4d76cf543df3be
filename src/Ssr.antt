-- ===== src/Ssr.antt =====
-- Stream semantic registers as runtime/snitch/snitch_ssr.h programs them: the configuration
-- registers of one data mover, and the loop macros that write them.
pub mod Walk
pub mod Nest
pub mod Line
mod Tests
use k9r.Base.{ℕ, ◌+◌, Array, update, add32, sub32, mul32, u32}

-- Register indices.
abbrev pub reg_repeat : ℕ
reg_repeat = 1

abbrev pub reg_bounds : ℕ
reg_bounds = 2

abbrev pub reg_strides : ℕ
reg_strides = 6

abbrev pub reg_rptr : ℕ
reg_rptr = 24

abbrev pub reg_wptr : ℕ
reg_wptr = 28

-- Dimensions of a stream.
abbrev pub ssr_1d : ℕ
ssr_1d = 0

abbrev pub ssr_2d : ℕ
ssr_2d = 1

abbrev pub ssr_3d : ℕ
ssr_3d = 2

abbrev pub ssr_4d : ℕ
ssr_4d = 3

-- `ssr_cfg_write`
abbrev pub cfg_write : ℕ → ℕ → Array ℕ → Array ℕ
cfg_write reg value cfg = update cfg reg (u32 value)

unfoldable pub loop_1d : (b0 s0 : ℕ) → Array ℕ → Array ℕ
loop_1d b0 s0 cfg = cfg_write reg_strides s0 (cfg_write reg_bounds (sub32 b0 1) cfg)

-- `a` is the variable `_a` at each stride: the way that the loops inside have gone.
unfoldable pub loop_2d : (b0 b1 s0 s1 : ℕ) → Array ℕ → Array ℕ
loop_2d b0 b1 s0 s1 cfg =
    let n0 = sub32 b0 1 in
    let a = mul32 s0 n0 in
    let bounded = cfg_write (reg_bounds + 1) (sub32 b1 1) (cfg_write reg_bounds n0 cfg) in
    cfg_write (reg_strides + 1) (sub32 s1 a) (cfg_write reg_strides (sub32 s0 0) bounded)

unfoldable pub loop_3d : (b0 b1 b2 s0 s1 s2 : ℕ) → Array ℕ → Array ℕ
loop_3d b0 b1 b2 s0 s1 s2 cfg =
    let n0 = sub32 b0 1 in
    let n1 = sub32 b1 1 in
    let n2 = sub32 b2 1 in
    let a = mul32 s0 n0 in
    let a' = add32 a (mul32 s1 n1) in
    let bounded =
      cfg_write (reg_bounds + 2) n2 (cfg_write (reg_bounds + 1) n1 (cfg_write reg_bounds n0 cfg)) in
    let strided =
      cfg_write (reg_strides + 1) (sub32 s1 a) (cfg_write reg_strides (sub32 s0 0) bounded) in
    cfg_write (reg_strides + 2) (sub32 s2 a') strided

unfoldable pub loop_4d : (b0 b1 b2 b3 s0 s1 s2 s3 : ℕ) → Array ℕ → Array ℕ
loop_4d b0 b1 b2 b3 s0 s1 s2 s3 cfg =
    let n0 = sub32 b0 1 in
    let n1 = sub32 b1 1 in
    let n2 = sub32 b2 1 in
    let n3 = sub32 b3 1 in
    let a = mul32 s0 n0 in
    let a' = add32 a (mul32 s1 n1) in
    let a'' = add32 a' (mul32 s2 n2) in
    let bounded = cfg_write (reg_bounds + 3) n3 (
      cfg_write (reg_bounds + 2) n2
        (cfg_write (reg_bounds + 1) n1 (cfg_write reg_bounds n0 cfg))) in
    let strided =
      cfg_write (reg_strides + 1) (sub32 s1 a) (cfg_write reg_strides (sub32 s0 0) bounded) in
    cfg_write (reg_strides + 3) (sub32 s3 a'') (cfg_write (reg_strides + 2) (sub32 s2 a') strided)

-- `ssr_repeat`
unfoldable pub repeat : ℕ → Array ℕ → Array ℕ
repeat count cfg = cfg_write reg_repeat (sub32 count 1) cfg

-- `ssr_read` and `ssr_write`
unfoldable pub read : ℕ → ℕ → Array ℕ → Array ℕ
read dim ptr cfg = cfg_write (reg_rptr + dim) ptr cfg

unfoldable pub write : ℕ → ℕ → Array ℕ → Array ℕ
write dim ptr cfg = cfg_write (reg_wptr + dim) ptr cfg

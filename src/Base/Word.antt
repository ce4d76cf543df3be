-- ===== src/Base/Word.antt =====
-- uint32_t arithmetic: a word is a native number below 2 ^ 32, and every operation wraps.
use Prim.Native.Nat.{ℕ, ◌+◌, ◌-◌, ◌*◌, ◌/◌, ◌%◌, ◌^◌}
use mathlib.Core.Path.{◌≡◌, ap}
use native.Mathlib.Nat.{div-add-mod}
use native.Mathlib.Omega.{arith}

abbrev pub u32_mod : ℕ
u32_mod = 2 ^ 32

abbrev pub u32 : ℕ → ℕ
u32 n = n % u32_mod

abbrev pub u64_mod : ℕ
u64_mod = 2 ^ 64

abbrev pub add64 : ℕ → ℕ → ℕ
add64 a b = (a + b) % u64_mod

abbrev pub add32 : ℕ → ℕ → ℕ
add32 a b = (a + b) % u32_mod

-- `-` on ℕ stops at 0, so the modulus is added first.
abbrev pub sub32 : ℕ → ℕ → ℕ
sub32 a b = (a + u32_mod - b) % u32_mod

abbrev pub mul32 : ℕ → ℕ → ℕ
mul32 a b = (a * b) % u32_mod

-- `(x + 63u) & ~63u`: the low six bits are cleared.
abbrev pub align64 : ℕ → ℕ
align64 x = add32 x 63 / 64 * 64

-- A product may be reduced before it is multiplied on.
pub mul32-u32 : (a b : ℕ) → mul32 (u32 a) b ≡ mul32 a b
mul32-u32 a b = omega (arith, ap (λ t. t * b) (div-add-mod a u32_mod))

-- ===== src/Io/Print.antt =====
-- How numbers are printed, runtime/common/miniio.h. The string `&buf[i]` is a list of character
-- codes that grows at the front; `none` is a write in front of `buf`, which has room for `rounds`
-- digits.
pub mod RoundTrip
use mathlib.Core.Option
use k9r.Base.{
  ℕ, zero, suc, ◌+◌, ◌-◌, ◌/◌, ◌%◌, ◌^◌, List, [], ◌∷◌, Option, none, some, ◌==◌, ltb, leb,
  if◌then◌else◌,
}

-- `'0' + d`
abbrev pub dec_char : ℕ → ℕ
dec_char d = 48 + d

-- `d < 10 ? '0' + d : 'a' + d - 10`
abbrev pub hex_char : ℕ → ℕ
hex_char d = if ltb d 10 then 48 + d else 97 + d - 10

-- The `while (v)` loop in base `base`.
unfoldable pub digits : ℕ → (ℕ → ℕ) → ℕ → ℕ → List ℕ → Option (List ℕ)
digits base char zero v buf = if v == 0 then some buf else none
digits base char (suc rounds) v buf =
    let rest = digits base char rounds (v / base) (char (v % base) ∷ buf) in
    if v == 0 then some buf else rest

-- The `'0'` of a zero, which the loop does not print.
abbrev pub zero_digit : ℕ → List ℕ
zero_digit v = if v == 0 then 48 ∷ [] else []

unfoldable pub print_u64 : ℕ → Option (List ℕ)
unfolding digits
print_u64 v = digits 10 dec_char 20 v (zero_digit v)

-- The sign, then the magnitude; `v` is the two's complement word. `-v` of the least number is
-- undefined in C; here it wraps.
unfoldable pub print_i64 : ℕ → Option (List ℕ)
unfolding print_u64
print_i64 v =
    if leb (2 ^ 63) v then Option.map (λ s. 45 ∷ s) (print_u64 (2 ^ 64 - v)) else print_u64 v

unfoldable pub print_hex : ℕ → Option (List ℕ)
unfolding digits
print_hex v = digits 16 hex_char 16 v (zero_digit v)

-- ===== src/Io/Print/RoundTrip.antt =====
-- Reading back what runtime/common/miniio.h prints.
use native.Mathlib.Nat.{div-add-mod, mod-lt, div-lt_iff_lt-mul, pow-zero, pow-suc}
use k9r.Base.{
  ℕ, zero, suc, ◌+◌, ◌-◌, ◌*◌, ◌/◌, ◌%◌, ◌^◌, ◌≤◌, ◌<◌, ◌≡◌, ◌∙◌, refl, sym, ap, List, [], ◌∷◌,
  Option, some, ltb, if◌then◌else◌, length, arith, ℕ_discrete, eq→beq, ne→beq,
}
use k9r.Io.Print.{dec_char, hex_char, digits, zero_digit, print_u64, print_hex}

-- The digit that a character stands for, and the number that a string continues `n` to.
abbrev pub digit_of : ℕ → ℕ
digit_of c = if ltb c 97 then c - 48 else c - 87

abbrev pub read : ℕ → ℕ → List ℕ → ℕ
read base n [] = n
read base n (c ∷ cs) = read base (n * base + digit_of c) cs

-- `s` is what the loop made of `v` in front of `buf`.
abbrev Prints : ℕ → Option (List ℕ) → ℕ → ℕ → List ℕ → Type 0
Prints base o rounds v buf =
    (s : List ℕ) × (o ≡ some s)
    × (length s ≤ rounds + length buf)
    × (read base 0 s ≡ read base v buf)

module _ (base : ℕ) (char : ℕ → ℕ) (big : 1 < base)
    (back : (d : ℕ) → d < base → digit_of (char d) ≡ d) where
  -- The quotient and the digit make up the number.
  div-digit : (v : ℕ) → v / base * base + digit_of (char (v % base)) ≡ v
  div-digit v = omega (arith, back (v % base) (mod-lt v (omega arith)), div-add-mod v base)

  digits-Prints :
      (rounds v : ℕ) (buf : List ℕ)
      → v < base ^ rounds
      → Prints base (digits base char rounds v buf) rounds v buf
  unfolding digits
  digits-Prints zero v buf h =
      let none_left : v ≡ 0 = omega (arith, pow-zero base) in
      (buf, rw (eq→beq v 0 none_left) refl, omega arith, ap (λ n. read base n buf) (sym none_left))
  digits-Prints (suc rounds) v buf h = elim (ℕ_discrete v 0) [
    | yes done ↦ (buf, rw (eq→beq v 0 done) refl, omega arith, ap (λ n. read base n buf) (sym done))
    | no more ↦
        let smaller : v / base < base ^ rounds =
          (div-lt_iff_lt-mul (omega arith)).1 (omega (arith, pow-suc base rounds)) in
        let (s, printed, fits, reads) =
          digits-Prints rounds (v / base) (char (v % base) ∷ buf) smaller in
        (
          s,
          rw (ne→beq v 0 more) printed,
          omega arith,
          reads ∙ ap (λ n. read base n buf) (div-digit v),
        )
  ]

-- A string of at most `room` characters that reads back as `v`.
abbrev pub ReadsAs : ℕ → Option (List ℕ) → ℕ → ℕ → Type 0
ReadsAs base o room v = (s : List ℕ) × (o ≡ some s) × (length s ≤ room) × (read base 0 s ≡ v)

digits-zero :
    (base : ℕ) (char : ℕ → ℕ) (rounds : ℕ) (buf : List ℕ) → digits base char rounds 0 buf ≡ some buf
unfolding digits
digits-zero base char zero buf = refl
digits-zero base char (suc rounds) buf = refl

print-ReadsAs :
    (base : ℕ) (char : ℕ → ℕ) (room v : ℕ)
    → 1 < base
    → ((d : ℕ) → d < base → digit_of (char d) ≡ d)
    → 0 < room
    → v < base ^ room
    → ReadsAs base (digits base char room v (zero_digit v)) room v
print-ReadsAs base char room v big back pos h = elim (ℕ_discrete v 0) [
  | yes none_left ↦ rw none_left (48 ∷ [], digits-zero base char room _, omega arith, omega arith)
  | no more ↦
      let (s, printed, fits, reads) = digits-Prints base char big back room v [] h in
      rw (ne→beq v 0 more) (s, printed, omega arith, reads)
]

-- A 64-bit number is printed in decimal: the loop ends, its characters fit the 20 places in front
-- of the terminator, and reading them gives the number back.
print_u64-ReadsAs : (v : ℕ) → v < 2 ^ 64 → ReadsAs 10 (print_u64 v) 20 v
unfolding print_u64
print_u64-ReadsAs v h =
    print-ReadsAs 10 dec_char 20 v (omega arith) (λ d lt. ground arith) (omega arith) (omega arith)

-- A 64-bit number is printed in hexadecimal: the loop ends, its characters fit the 16 places in
-- front of the terminator, and reading them gives the number back.
print_hex-ReadsAs : (v : ℕ) → v < 2 ^ 64 → ReadsAs 16 (print_hex v) 16 v
unfolding print_hex
print_hex-ReadsAs v h =
    print-ReadsAs 16 hex_char 16 v (omega arith) (λ d lt. ground arith) (omega arith) (omega arith)

-- A 64-bit number is printed in decimal and in hexadecimal: the loops end, their characters fit the
-- 20 and the 16 places in front of the terminator, and reading them gives the number back.
pub printed-ReadsAs :
    (v : ℕ) → v < 2 ^ 64 → ReadsAs 10 (print_u64 v) 20 v × ReadsAs 16 (print_hex v) 16 v
printed-ReadsAs v h = (print_u64-ReadsAs v h, print_hex-ReadsAs v h)

-- ===== src/Dram/Mapping/RoundTrip.antt =====
-- `decode` of targets/hetero/dram_core.hpp loses nothing of an address.
use native.Mathlib.Nat.{mod-add-div}
use k9r.Base.{
  ℕ, zero, suc, ◌+◌, ◌*◌, ◌/◌, ◌%◌, ◌^◌, ◌<◌, ◌≡◌, ◌≢◌, ◌∙◌, refl, sym, ap, List, [], ◌∷◌, All,
  arith, update, update_self, update_ne,
}
use k9r.Dram.{Params}
use k9r.Dram.Mapping.{Field, Coord, burst_bytes, log2i, decode_fields, decode}

-- No field twice.
abbrev pub IsDistinct : List Field → Type 0
IsDistinct [] = Unit
IsDistinct (f ∷ fs) = All (λ g. f.id ≢ g.id) fs × IsDistinct fs

-- The number of addresses that the fields tell apart, and the address of a coordinate.
abbrev pub capacity : List Field → ℕ
capacity [] = 1
capacity (f ∷ fs) = 2 ^ f.bits * capacity fs

abbrev pub encode_fields : List Field → Coord → ℕ
encode_fields [] k = 0
encode_fields (f ∷ fs) k = k f.id * capacity fs + encode_fields fs k

-- The fields other than `id` do not see its value.
encode-update :
    (fs : List Field) (k : Coord) (id v : ℕ)
    → All (λ g. id ≢ g.id) fs
    → encode_fields fs (update k id v) ≡ encode_fields fs k
encode-update [] k id v h = refl
encode-update (f ∷ fs) k id v (ne, hs) = rw (update_ne k id v ne, encode-update fs k id v hs) refl

glue : (x q e c a : ℕ) → e + c * a ≡ x → (a % q) * c + e + (q * c) * (a / q) ≡ x
glue x q e c a h = omega (arith, h, ap (λ t. c * t) (mod-add-div a q))

-- What the fields tell and what is left make up the address.
pub encode-decode_fields :
    (fs : List Field) (a : ℕ)
    → IsDistinct fs
    → let r = decode_fields fs a in encode_fields fs r.0 + capacity fs * r.1 ≡ a
unfolding decode_fields
encode-decode_fields [] a h = omega arith
encode-decode_fields (f ∷ fs) a (here, h) =
    let r = decode_fields fs a in
    rw (update_self r.0 f.id (r.1 % 2 ^ f.bits), encode-update fs r.0 f.id (r.1 % 2 ^ f.bits) here)
      (glue a (2 ^ f.bits) (encode_fields fs r.0) (capacity fs) r.1 (encode-decode_fields fs a h))

nothing_left : (e c x a : ℕ) → e + c * x ≡ a → a < c → e ≡ a
nothing_left e c zero a h lt = omega arith
nothing_left e c (suc x) a h lt = absurd (omega arith)

-- Different bursts have different coordinates: with each field at most once, two addresses whose
-- bursts are below the capacity of the fields, and whose coordinates are the same, are in one burst.
pub decode_injective :
    (p : Params) (fs : List Field) (a b : ℕ)
    → IsDistinct fs
    → a / 2 ^ log2i (burst_bytes p) < capacity fs
    → b / 2 ^ log2i (burst_bytes p) < capacity fs
    → decode p fs a ≡ decode p fs b
    → a / 2 ^ log2i (burst_bytes p) ≡ b / 2 ^ log2i (burst_bytes p)
unfolding decode
decode_injective p fs a b h la lb same =
    let x = a / 2 ^ log2i (burst_bytes p) in
    let y = b / 2 ^ log2i (burst_bytes p) in
    let of_x : encode_fields fs (decode_fields fs x).0 ≡ x =
      nothing_left (encode_fields fs (decode_fields fs x).0) (capacity fs) (decode_fields fs x).1 x
        (encode-decode_fields fs x h) la in
    let of_y : encode_fields fs (decode_fields fs y).0 ≡ y =
      nothing_left (encode_fields fs (decode_fields fs y).0) (capacity fs) (decode_fields fs y).1 y
        (encode-decode_fields fs y h) lb in
    sym of_x ∙ ap (encode_fields fs) same ∙ of_y

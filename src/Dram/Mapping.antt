-- ===== src/Dram/Mapping.antt =====
-- The address mapping of targets/hetero/dram_core.hpp: `parse_mapping` and `decode`. A string is the
-- list of its characters' codes. A coordinate is an array over the fields in the order of `names`:
-- row, rank, bank group, bank, column, channel.
pub mod RoundTrip
pub mod Parse
use k9r.Base.{
  ℕ, zero, suc, ◌+◌, ◌*◌, ◌/◌, ◌%◌, ◌^◌, ◌-◌, List, [], ◌∷◌, ◌++◌, Option, none, some, Bool, true,
  false, ◌&&◌, ◌||◌, not, if◌then◌else◌, ltb, leb, ◌==◌, update, Array, length, max,
}
use k9r.Dram.{Params}

-- `log2i`, from `b` on; an `int64_t` has 63 bits at most.
unfoldable pub log2_from : ℕ → ℕ → ℕ → ℕ
log2_from zero v b = b
log2_from (suc rounds) v b =
    let more = log2_from rounds v (b + 1) in if ltb (2 ^ b) v then more else b

abbrev pub log2i : ℕ → ℕ
log2i v = log2_from 63 v 0

-- A field: its number in `names`, and its bits.
pub record Field : Type 0 where
  pub id : ℕ
  pub bits : ℕ

abbrev pub Coord : Type 0
Coord = Array ℕ

abbrev pub burst_bytes : Params → ℕ
burst_bytes p = p.width_bits / 8 * p.burst_length

-- The two letters of a field's name.
abbrev pub index_of : ℕ → ℕ → Option ℕ
index_of a b =
    if (a == 82) && (b == 111)
    then some 0
    else if (a == 82) && (b == 97)
    then some 1
    else if (a == 66) && (b == 103)
    then some 2
    else if (a == 66) && (b == 97)
    then some 3
    else if (a == 67) && (b == 111)
    then some 4
    else if (a == 67) && (b == 104)
    then some 5
    else none

abbrev pub size_of : Params → ℕ → ℕ
size_of p k =
    if k == 0
    then p.rows
    else if k == 1
    then p.ranks
    else if k == 2
    then p.bankgroups
    else if k == 3
    then p.banks
    else if k == 4
    then p.page_bytes / burst_bytes p
    else p.channels

-- Why a mapping is refused.
pub data MappingError : Type 0 where
  odd_length : MappingError
  bad_field : ℕ → ℕ → MappingError
  repeated_field : ℕ → MappingError
  lacks_field : ℕ → MappingError

-- The fields, and which of `names` were seen.
pub data Parsed : Type 0 where
  parsed : List Field → Array Bool → Parsed
  refused : MappingError → Parsed

abbrev pub with_field : Field → Parsed → Parsed
with_field f (Parsed.parsed fs seen) = Parsed.parsed (f ∷ fs) seen
with_field f (Parsed.refused e) = Parsed.refused e

-- The loop over the string.
unfoldable pub parse_fields : Params → Array Bool → List ℕ → Parsed
parse_fields p seen [] = Parsed.parsed [] seen
parse_fields p seen (a ∷ []) = Parsed.refused MappingError.odd_length
parse_fields p seen (a ∷ b ∷ m) = elim (index_of a b) [
  | none ↦ Parsed.refused (MappingError.bad_field a b)
  | some k ↦
      let rest = parse_fields p (update seen k true) m in
      if seen k
      then Parsed.refused (MappingError.repeated_field k)
      else with_field (record { id = k; bits = log2i (size_of p k) }) rest
]

-- The loop over `names` for one that is not there and has more than one value, from `j` on.
unfoldable pub first_missing : Params → Array Bool → ℕ → ℕ → Option ℕ
first_missing p seen zero j = none
first_missing p seen (suc rounds) j =
    let rest = first_missing p seen rounds (j + 1) in
    if not (seen j) && ltb 1 (size_of p j) then some j else rest

abbrev pub check_missing : Params → Parsed → Parsed
check_missing p (Parsed.refused e) = Parsed.refused e
check_missing p (Parsed.parsed fs seen) = elim (first_missing p seen 6 0) [
  | none ↦ Parsed.parsed fs seen
  | some j ↦ Parsed.refused (MappingError.lacks_field j)
]

unfoldable pub parse_mapping : Params → List ℕ → Parsed
unfolding parse_fields
parse_mapping p m =
    if length m % 2 == 0
    then check_missing p (parse_fields p (λ j. false) m)
    else Parsed.refused MappingError.odd_length

-- The loop over the fields from the last one on, with what is left of the address.
unfoldable pub decode_fields : List Field → ℕ → Coord × ℕ
decode_fields [] a = (λ j. 0, a)
decode_fields (f ∷ fs) a =
    let rest = decode_fields fs a in (update rest.0 f.id (rest.1 % 2 ^ f.bits), rest.1 / 2 ^ f.bits)

unfoldable pub decode : Params → List Field → ℕ → Coord
unfolding decode_fields
decode p fs addr = (decode_fields fs (addr / 2 ^ log2i (burst_bytes p))).0

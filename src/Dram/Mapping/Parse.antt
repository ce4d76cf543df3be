-- ===== src/Dram/Mapping/Parse.antt =====
-- What `parse_mapping` of targets/hetero/dram_core.hpp accepts.
use mathlib.Core.Path.{subst}
use k9r.Base.{
  ℕ, zero, suc, ◌+◌, ◌<◌, ◌≤◌, ◌%◌, ◌≡◌, ◌≢◌, ◌∙◌, inl, inr, refl, sym, ap, List, [], ◌∷◌, All,
  Array, Bool, true, false, if◌then◌else◌, not, ◌&&◌, ◌||◌, ltb, ◌==◌, none, arith, update,
  update_self, update_ne, Bool-cases, Option-cases, ℕ_discrete, length, lt→ltb, if_both,
}
use k9r.Dram.{Params}
use k9r.Dram.Mapping.{
  Field, log2i, size_of, index_of, Parsed, with_field, parse_fields, first_missing, check_missing,
  parse_mapping,
}
use k9r.Dram.Mapping.RoundTrip.{IsDistinct}

abbrev pub has : ℕ → List Field → Bool
has j [] = false
has j (f ∷ fs) = (j == f.id) || has j fs

-- The fields of a string that comes after those `seen`: none of them again, each as wide as its
-- size asks, and those seen in the end are the ones seen before and they.
record IsParsed (p : Params) (seen : Array Bool) (fs : List Field) (last : Array Bool)
    : Type 0 where
  distinct : IsDistinct fs
  unseen : All (λ f. seen f.id ≡ false) fs
  wide : All (λ f. f.bits ≡ log2i (size_of p f.id)) fs
  held : (j : ℕ) → last j ≡ true → (seen j || has j fs) ≡ true

abbrev IsGood : Params → Array Bool → Parsed → Type 0
IsGood p seen (Parsed.parsed fs last) = IsParsed p seen fs last
IsGood p seen (Parsed.refused e) = Unit

true-ne-false : true ≢ false
true-ne-false e = cc

held_before : (s x f : Bool) → ((if x then true else s) || f) ≡ true → (s || (x || f)) ≡ true
held_before true x f h = refl
held_before false true f h = refl
held_before false false f h = h

module _ (p : Params) (seen : Array Bool) (k : ℕ) (new : seen k ≡ false) where
  abbrev field : Field
  field = record { id = k; bits = log2i (size_of p k) }

  still_unseen :
      (fs : List Field)
      → All (λ f. update seen k true f.id ≡ false) fs
      → All (λ f. k ≢ f.id) fs × All (λ f. seen f.id ≡ false) fs
  still_unseen [] h = (tt, tt)
  still_unseen (f ∷ fs) (h, hs) =
      let (apart, before) = still_unseen fs hs in
      elim (ℕ_discrete k f.id) [
        | yes same ↦
            absurd
              (true-ne-false (sym (update_self seen k true) ∙ ap (update seen k true) same ∙ h))
        | no ne ↦ ((ne, apart), (sym (update_ne seen k true ne) ∙ h, before))
      ]

  with_field-IsGood :
      (rest : Parsed) → IsGood p (update seen k true) rest → IsGood p seen (with_field field rest)
  with_field-IsGood (Parsed.refused e) h = tt
  with_field-IsGood (Parsed.parsed fs last) h =
      let (apart, before) = still_unseen fs h.unseen in
      record {
        distinct = (apart, h.distinct);
        unseen = (new, before);
        wide = (refl, h.wide);
        held = λ j e. held_before (seen j) (j == k) (has j fs) (h.held j e);
      }

parse_fields-IsGood :
    (p : Params) (seen : Array Bool) (m : List ℕ) → IsGood p seen (parse_fields p seen m)
unfolding parse_fields
parse_fields-IsGood p seen [] = record {
  distinct = tt;
  unseen = tt;
  wide = tt;
  held = λ j e. ground arith;
}
parse_fields-IsGood p seen (a ∷ []) = tt
parse_fields-IsGood p seen (a ∷ b ∷ m) = elim (Option-cases (index_of a b)) [
  | inl e ↦ rw (parse_fields, e) tt
  | inr (k, e) ↦ elim (Bool-cases (seen k)) [
    | inl again ↦ rw (parse_fields, e, again) tt
    | inr new ↦
        rw (parse_fields, e, new)
          (with_field-IsGood p seen k new (parse_fields p (update seen k true) m)
            (parse_fields-IsGood p (update seen k true) m))
  ]
]

seen_of : (s w : Bool) → (not s && w) ≡ false → w ≡ true → s ≡ true
seen_of true w h e = refl
seen_of false w h e = absurd (true-ne-false (sym e ∙ h))

first_missing-none :
    (p : Params) (seen : Array Bool) (rounds j k : ℕ)
    → first_missing p seen rounds j ≡ none
    → j ≤ k
    → k < j + rounds
    → 1 < size_of p k
    → seen k ≡ true
unfolding first_missing
first_missing-none p seen zero j k e from upto wide = absurd (omega arith)
first_missing-none p seen (suc rounds) j k e from upto wide =
    elim (Bool-cases (not (seen j) && ltb 1 (size_of p j))) [
      | inl missing ↦ absurd (ground arith)
      | inr here ↦ elim (ℕ_discrete k j) [
        | yes same ↦
            subst (λ i. seen i ≡ true) (sym same)
              (seen_of (seen j) (ltb 1 (size_of p j)) here
                (lt→ltb 1 (size_of p j) (subst (λ i. 1 < size_of p i) same wide)))
        | no ne ↦
            first_missing-none p seen rounds (j + 1) k (ground arith) (omega arith) (omega arith)
              wide
      ]
    ]

-- Fields that name each coordinate that has more than one value, none of them twice, each with the
-- bits that its size asks for.
pub record IsMapping (p : Params) (fs : List Field) : Type 0 where
  pub distinct : IsDistinct fs
  pub wide : All (λ f. f.bits ≡ log2i (size_of p f.id)) fs
  pub complete : (k : ℕ) → k < 6 → 1 < size_of p k → has k fs ≡ true

abbrev Maps : Params → Parsed → Type 0
Maps p (Parsed.parsed fs last) = IsMapping p fs
Maps p (Parsed.refused e) = Unit

check_missing-Maps :
    (p : Params) (r : Parsed) → IsGood p (λ j. false) r → Maps p (check_missing p r)
check_missing-Maps p (Parsed.refused e) h = tt
check_missing-Maps p (Parsed.parsed fs last) h = elim (Option-cases (first_missing p last 6 0)) [
  | inl e ↦
      rw (check_missing, e)
        (record {
          distinct = h.distinct;
          wide = h.wide;
          complete = λ k lt wide.
              h.held k (first_missing-none p last 6 0 k e (omega arith) (omega arith) wide);
        })
  | inr (j, e) ↦ rw (check_missing, e) tt
]

-- A mapping that is accepted names each coordinate that has more than one value, none of them twice,
-- and gives each field the bits that its size asks for.
pub parse_mapping-IsMapping :
    (p : Params) (m : List ℕ) (fs : List Field) (last : Array Bool)
    → parse_mapping p m ≡ Parsed.parsed fs last
    → IsMapping p fs
unfolding parse_mapping
parse_mapping-IsMapping p m fs last e = subst (Maps p) e (
    if_both (Maps p) (length m % 2 == 0)
      (check_missing-Maps p (parse_fields p (λ j. false) m) (parse_fields-IsGood p (λ j. false) m))
      tt)

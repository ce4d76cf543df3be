-- ===== src/Cache/Lru/Retain.antt =====
-- What LRU means for the cache of targets/hetero/timing_cache.cpp from its reset on: which lines
-- `lookup` finds again, in one cache and in a larger one.
use mathlib.Core.Path.{subst}
use native.Mathlib.Nat.{mod-lt}
use k9r.Base.{
  ℕ, zero, suc, ◌+◌, ◌≤◌, ◌<◌, ◌≡◌, ◌≢◌, ◌∙◌, inl, inr, refl, sym, ap, Array, List, [], ◌∷◌, map,
  Bool, true, false, arith, ◌==◌, beq→ne, update_self, update_ne, Bool-cases, ℕ_discrete, u64_mod,
  length, ◌%◌, eq→beq, All,
}
use k9r.Cache.{Config, State, line_invalid, nb_sets, set_of, lookup, reset}
use k9r.Cache.Lru.{holds, use_line, use_set}
use k9r.Cache.Lru.Order.{IsSorted, Older, All-map}
use k9r.Cache.Lru.Seat.{IsCache, IsBuilt}
use k9r.Cache.Lru.Refines.{is_found, lookup-refines, lookup-counter}
use k9r.Cache.Lru.Stack.{
  lookups, uses, AreLines, lookups-refines, take, use_line-take, holds-take, IsAmong, uses-IsAmong,
  look-true,
}

-- A set with no line.
abbrev pub empty : ℕ → List ℕ
empty zero = []
empty (suc n) = line_invalid ∷ empty n

-- The ways from `n` down.
abbrev below : ℕ → List ℕ
below zero = []
below (suc n) = n ∷ below n

below-inside : (n m : ℕ) → n ≤ m → All (λ w. w < m) (below n)
below-inside zero m le = tt
below-inside (suc n) m le = (le, below-inside n m (omega arith))

below-IsSorted : (n : ℕ) → IsSorted (λ w. 0) (below n)
below-IsSorted zero = tt
below-IsSorted (suc n) = (
  All-map (λ w. w < n) (λ w. Older (λ v. 0) w n) (below n)
      (λ w lt. (omega arith, λ le. absurd (omega arith))) (below-inside n n (omega arith)),
  below-IsSorted n,
)

holds-below : (w n : ℕ) → w < n → holds w (below n) ≡ true
holds-below w zero lt = absurd (omega arith)
holds-below w (suc n) lt = elim (Bool-cases (w == n)) [
  | inl here ↦ rw here refl
  | inr other ↦ rw other (holds-below w n (omega (arith, beq→ne w n other)))
]

map-below : (n : ℕ) → map (λ w. line_invalid) (below n) ≡ empty n
map-below zero = refl
map-below (suc n) = ap (λ t. line_invalid ∷ t) (map-below n)

length-empty : (n : ℕ) → length (empty n) ≡ n
length-empty zero = refl
length-empty (suc n) = omega (arith, length-empty n)

-- After a reset no set has a line.
pub reset-IsCache : (c : Config) (s : State) → IsCache c (reset s) (λ set. empty c.nb_ways)
unfolding reset
reset-IsCache c s set lt = record {
  order = below c.nb_ways;
  sorted = below-IsSorted c.nb_ways;
  inside = below-inside c.nb_ways c.nb_ways (omega arith);
  complete = λ w. holds-below w c.nb_ways;
  content = map-below c.nb_ways;
  unique = λ v w hv hw e ne. absurd (ne refl);
  recent = λ w lt. omega arith;
  full = length-empty c.nb_ways;
}

found-holds :
    (c : Config) (s : State) (sets : Array (List ℕ)) (line ready_time : ℕ) (allocate : Bool)
    → IsBuilt c
    → line ≢ line_invalid
    → s.lru_counter + 1 < u64_mod
    → IsCache c s sets
    → is_found (lookup c line allocate ready_time s).1 ≡ holds line (sets (set_of c line))
found-holds c s sets line ready_time allocate built valid small h =
    (lookup-refines c s sets line ready_time allocate built valid small h).1

-- A line that is used is the first of its set.
first-IsAmong :
    (line n : ℕ) (view : List ℕ)
    → length (use_line line view) ≡ n
    → IsAmong line 1 n (use_line line view)
first-IsAmong line n view full = (rw (eq→beq line line refl) refl, full)

-- After `others`, a line that was looked up before them.
module _ (c : Config) (s : State) (sets : Array (List ℕ)) (line t₀ : ℕ) (others : List (ℕ × ℕ))
    (built : IsBuilt c) (valid : line ≢ line_invalid) (lines : AreLines others)
    (small : s.lru_counter + length others + 2 < u64_mod) (few : length others < c.nb_ways)
    (h : IsCache c s sets) where
  abbrev used : State
  used = (lookup c line true t₀ s).0

  abbrev used_sets : Array (List ℕ)
  used_sets = use_set sets (set_of c line) line

  used-IsCache : IsCache c used used_sets
  used-IsCache =
      subst (IsCache c used) (look-true c line sets)
        (lookup-refines c s sets line t₀ true built valid (omega arith) h).0

  held : holds line (uses c others used_sets (set_of c line)) ≡ true
  held =
      let full = (used-IsCache (set_of c line) (mod-lt line built.sets)).full in
      let now = update_self sets (set_of c line) (use_line line (sets (set_of c line))) in
      holds-take line (1 + length others) (uses c others used_sets (set_of c line))
        (uses-IsAmong c line 1 others used_sets (omega arith) (
          subst (IsAmong line 1 c.nb_ways) (sym now)
            (first-IsAmong line c.nb_ways (sets (set_of c line)) (ap length (sym now) ∙ full)))).0

  -- A cache with at least one set and one way that has abstract sets finds a line again if it was
  -- looked up and, since then, fewer lookups than there are ways were made, of whichever lines,
  -- where there are fewer than 2 ^ 64 - 2 uses in all.
  pub lookup-retains : (t₁ : ℕ) → is_found (lookup c line false t₁ (lookups c others used)).1 ≡ true
  lookup-retains t₁ =
      let count = lookup-counter c s line t₀ true (omega arith) in
      let rest = lookups-refines c others used used_sets built lines (omega arith) used-IsCache in
      found-holds c (lookups c others used) (uses c others used_sets) line t₁ false built valid
        (omega arith) rest.0
      ∙ held

take-empty : (n m : ℕ) → n ≤ m → empty n ≡ take n (empty m)
take-empty zero m le = refl
take-empty (suc n) zero le = absurd (omega arith)
take-empty (suc n) (suc m) le = ap (λ t. line_invalid ∷ t) (take-empty n m (omega arith))

use_set-take :
    (n : ℕ) (small large : Array (List ℕ)) (i line set : ℕ)
    → 0 < n
    → ((j : ℕ) → small j ≡ take n (large j))
    → use_set small i line set ≡ take n (use_set large i line set)
use_set-take n small large i line set pos h = elim (ℕ_discrete i set) [
  | yes same ↦
      subst (λ j. use_set small i line j ≡ take n (use_set large i line j)) same
        (rw
          (
            update_self small i (use_line line (small i)),
            update_self large i (use_line line (large i)),
            h i,
          )
          (use_line-take line n (large i) pos))
  | no ne ↦
      rw
        (
          update_ne small i (use_line line (small i)) ne,
          update_ne large i (use_line line (large i)) ne,
        )
        (h set)
]

-- Two caches with as many sets, the second with as many ways as the first or more.
module _ (c d : Config) (built : IsBuilt c) (same : nb_sets c ≡ nb_sets d)
    (le : c.nb_ways ≤ d.nb_ways) where
  abbrev IsStart : Array (List ℕ) → Array (List ℕ) → Type 0
  IsStart small large = (set : ℕ) → small set ≡ take c.nb_ways (large set)

  uses-IsStart :
      (lines : List (ℕ × ℕ)) (small large : Array (List ℕ))
      → IsStart small large
      → IsStart (uses c lines small) (uses d lines large)
  uses-IsStart [] small large h = h
  uses-IsStart ((line, ready_time) ∷ rest) small large h =
      uses-IsStart rest (use_set small (set_of c line) line) (use_set large (set_of d line) line)
        (λ set.
          subst
            (λ k.
              use_set small (set_of c line) line set
              ≡ take c.nb_ways (use_set large (line % k) line set))
            same (use_set-take c.nb_ways small large (set_of c line) line set built.ways h))

  -- LRU caches are inclusive: from the reset on and after the same lookups, fewer than 2 ^ 64 - 1,
  -- of two caches with the same number of sets, at least one, the one with more ways finds each line
  -- that the other, of at least one way, finds.
  pub lookup-inclusive :
      (s t : State) (lines : List (ℕ × ℕ)) (line t₀ t₁ : ℕ)
      → AreLines lines
      → line ≢ line_invalid
      → length lines + 1 < u64_mod
      → is_found (lookup c line false t₀ (lookups c lines (reset s))).1 ≡ true
      → is_found (lookup d line false t₁ (lookups d lines (reset t))).1 ≡ true
  unfolding reset
  lookup-inclusive s t lines line t₀ t₁ valid ok small found =
      let built_d : IsBuilt d = record {
        ways = omega (arith, built.ways);
        sets = omega (arith, same, built.sets);
      } in
      let few =
        lookups-refines c lines (reset s) (λ set. empty c.nb_ways) built valid (omega arith)
          (reset-IsCache c s) in
      let many =
        lookups-refines d lines (reset t) (λ set. empty d.nb_ways) built_d valid (omega arith)
          (reset-IsCache d t) in
      let few_views = uses c lines (λ set. empty c.nb_ways) in
      let many_views = uses d lines (λ set. empty d.nb_ways) in
      let start : IsStart few_views many_views =
        uses-IsStart lines (λ set. empty c.nb_ways) (λ set. empty d.nb_ways)
          (λ set. take-empty c.nb_ways d.nb_ways le) in
      let held : holds line (few_views (set_of c line)) ≡ true =
        sym (
          found-holds c (lookups c lines (reset s)) few_views line t₀ false built ok (omega arith)
            few.0)
        ∙ found in
      found-holds d (lookups d lines (reset t)) many_views line t₁ false built_d ok (omega arith)
        many.0
      ∙ holds-take line c.nb_ways (many_views (set_of d line)) (
          subst (λ k. holds line (take c.nb_ways (many_views (line % k))) ≡ true) same
            (ap (holds line) (sym (start (set_of c line))) ∙ held))

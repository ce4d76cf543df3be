-- ===== src/Cache/Lru/Stack.antt =====
-- Sequences of `lookup` of targets/hetero/timing_cache.cpp that allocate, and what follows from LRU
-- for them: lines stay for a while, and more ways never find fewer lines.
use mathlib.Core.Path.{subst}
use k9r.Base.{
  ℕ, zero, suc, ◌+◌, ◌≤◌, ◌<◌, ◌≡◌, ◌≢◌, ◌∙◌, inl, inr, refl, sym, ap, Array, List, [], ◌∷◌, true,
  arith, ◌==◌, update_self, update_ne, beq→eq, beq→ne, ne→beq, Bool-cases, ℕ_discrete, u64_mod,
  length, All,
}
use k9r.Cache.{Config, State, line_invalid, set_of, lookup}
use k9r.Cache.Lru.{holds, without, use_line, use_set}
use k9r.Cache.Lru.Order.{length-without}
use k9r.Cache.Lru.Seat.{IsCache, IsBuilt}
use k9r.Cache.Lru.Refines.{look, lookup-refines, lookup-counter}

-- Lookups of lines, each with the time at which a refill would land.
unfoldable pub lookups : Config → List (ℕ × ℕ) → State → State
lookups c [] s = s
lookups c ((line, ready_time) ∷ rest) s = lookups c rest (lookup c line true ready_time s).0

abbrev pub uses : Config → List (ℕ × ℕ) → Array (List ℕ) → Array (List ℕ)
uses c [] sets = sets
uses c ((line, ready_time) ∷ rest) sets = uses c rest (use_set sets (set_of c line) line)

abbrev pub AreLines : List (ℕ × ℕ) → Type 0
AreLines lines = All (λ l. l.0 ≢ line_invalid) lines

pub look-true :
    (c : Config) (line : ℕ) (sets : Array (List ℕ))
    → look c line true sets ≡ use_set sets (set_of c line) line
look-true c line sets = elim (Bool-cases (holds line (sets (set_of c line)))) [
  | inl here ↦ rw here refl
  | inr absent ↦ rw absent refl
]

-- The refinement of a sequence.
pub lookups-refines :
    (c : Config) (lines : List (ℕ × ℕ)) (s : State) (sets : Array (List ℕ))
    → IsBuilt c
    → AreLines lines
    → s.lru_counter + length lines < u64_mod
    → IsCache c s sets
    → IsCache c (lookups c lines s) (uses c lines sets)
      × ((lookups c lines s).lru_counter ≤ s.lru_counter + length lines)
unfolding lookups
lookups-refines c [] s sets built valid small h = (h, omega arith)
lookups-refines c ((line, ready_time) ∷ rest) s sets built valid small h =
    let t = (lookup c line true ready_time s).0 in
    let one = lookup-refines c s sets line ready_time true built valid.0 (omega arith) h in
    let count = lookup-counter c s line ready_time true (omega arith) in
    let more =
      lookups-refines c rest t (use_set sets (set_of c line) line) built valid.1 (omega arith)
        (subst (IsCache c t) (look-true c line sets) one.0) in
    (more.0, omega arith)

-- The first entries of a list; the library's `take` is over another ℕ.
abbrev pub take : ℕ → List ℕ → List ℕ
take zero xs = []
take (suc n) [] = []
take (suc n) (x ∷ xs) = x ∷ take n xs

-- A set with fewer ways is the start of one with more, also after a use.
without-take : (x n : ℕ) (xs : List ℕ) → without x (take (suc n) xs) ≡ take n (without x xs)
without-take x zero [] = refl
without-take x (suc n) [] = refl
without-take x zero (y ∷ ys) = refl
without-take x (suc n) (y ∷ []) = refl
without-take x (suc n) (y ∷ z ∷ zs) = elim (Bool-cases (x == y)) [
  | inl here ↦ rw here refl
  | inr other ↦ rw other (ap (λ t. y ∷ t) (without-take x n (z ∷ zs)))
]

pub use_line-take :
    (x n : ℕ) (xs : List ℕ) → 0 < n → use_line x (take n xs) ≡ take n (use_line x xs)
use_line-take x zero xs pos = absurd (omega arith)
use_line-take x (suc n) xs pos = ap (λ t. x ∷ t) (without-take x n xs)

pub holds-take : (x n : ℕ) (xs : List ℕ) → holds x (take n xs) ≡ true → holds x xs ≡ true
holds-take x zero xs h = absurd (ground arith)
holds-take x (suc n) [] h = h
holds-take x (suc n) (y ∷ ys) h = elim (Bool-cases (x == y)) [
  | inl here ↦ rw here refl
  | inr other ↦ rw other (holds-take x n ys (ground arith))
]

past_head : (x y : ℕ) (ys : List ℕ) → x ≢ y → holds x (y ∷ ys) ≡ true → holds x ys ≡ true
past_head x y ys ne h = ground (arith, ne→beq x y ne)

holds-take_more :
    (x n : ℕ) (xs : List ℕ) → holds x (take n xs) ≡ true → holds x (take (suc n) xs) ≡ true
holds-take_more x zero xs h = absurd (ground arith)
holds-take_more x (suc n) [] h = h
holds-take_more x (suc n) (y ∷ ys) h = elim (Bool-cases (x == y)) [
  | inl here ↦ rw here refl
  | inr other ↦ rw other (holds-take_more x n ys (past_head x y (take n ys) (beq→ne x y other) h))
]

-- What stands among the first entries stands one further back at most after a use.
take-without :
    (x y k : ℕ) (xs : List ℕ)
    → k < length xs
    → x ≢ y
    → holds x (take k xs) ≡ true
    → holds x (take k (without y xs)) ≡ true
take-without x y zero xs lt ne h = h
take-without x y (suc k) [] lt ne h = h
take-without x y (suc k) (z ∷ []) lt ne h = absurd (omega arith)
take-without x y (suc k) (z ∷ w ∷ ws) lt ne h = elim (Bool-cases (y == z)) [
  | inl here ↦ rw here (
      holds-take_more x k (w ∷ ws)
        (past_head x z (take k (w ∷ ws)) (λ e. ne (e ∙ sym (beq→eq y z here))) h))
  | inr other ↦ rw other (elim (Bool-cases (x == z)) [
    | inl head ↦ rw head refl
    | inr tail ↦ rw tail (
        take-without x y k (w ∷ ws) (omega arith) ne
          (past_head x z (take k (w ∷ ws)) (beq→ne x z tail) h))
  ])
]

-- A line among the first `k` of the `n` entries of a set.
abbrev pub IsAmong : ℕ → ℕ → ℕ → List ℕ → Type 0
IsAmong line k n view = (holds line (take k view) ≡ true) × (length view ≡ n)

use-IsAmong :
    (line other k n : ℕ) (view : List ℕ)
    → k < n
    → IsAmong line k n view
    → IsAmong line (suc k) n (use_line other view)
use-IsAmong line other k n view lt (here, full) = (
  elim (Bool-cases (line == other)) [
    | inl same ↦ rw same refl
    | inr ne ↦ rw ne (take-without line other k view (omega arith) (beq→ne line other ne) here)
  ],
  omega (arith, length-without other view),
)

use-IsAmong_set :
    (c : Config) (line other k : ℕ) (sets : Array (List ℕ))
    → k < c.nb_ways
    → IsAmong line k c.nb_ways (sets (set_of c line))
    → IsAmong line (suc k) c.nb_ways (use_set sets (set_of c other) other (set_of c line))
use-IsAmong_set c line other k sets lt h = elim (ℕ_discrete (set_of c other) (set_of c line)) [
  | yes same ↦
      subst (λ j. IsAmong line (suc k) c.nb_ways (use_set sets (set_of c other) other j)) same
        (rw (update_self sets (set_of c other) (use_line other (sets (set_of c other)))) (
          use-IsAmong line other k c.nb_ways (sets (set_of c other)) lt
            (subst (λ j. IsAmong line k c.nb_ways (sets j)) (sym same) h)))
  | no ne ↦
      rw (update_ne sets (set_of c other) (use_line other (sets (set_of c other))) ne)
        (holds-take_more line k (sets (set_of c line)) h.0, h.1)
]

pub uses-IsAmong :
    (c : Config) (line k : ℕ) (others : List (ℕ × ℕ)) (sets : Array (List ℕ))
    → k + length others ≤ c.nb_ways
    → IsAmong line k c.nb_ways (sets (set_of c line))
    → IsAmong line (k + length others) c.nb_ways (uses c others sets (set_of c line))
uses-IsAmong c line k [] sets le h =
    subst (λ j. IsAmong line j c.nb_ways (sets (set_of c line))) (omega arith) h
uses-IsAmong c line k ((other, ready_time) ∷ rest) sets le h =
    subst (λ j. IsAmong line j c.nb_ways (uses c ((other, ready_time) ∷ rest) sets (set_of c line)))
      (omega arith)
      (uses-IsAmong c line (suc k) rest (use_set sets (set_of c other) other) (omega arith)
        (use-IsAmong_set c line other k sets (omega arith) h))

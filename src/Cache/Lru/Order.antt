-- ===== src/Cache/Lru/Order.antt =====
-- The ways of a set of targets/hetero/timing_cache.cpp in the order of their last use: lists of
-- ways, each older than those before it, where of two that are equally old the first is the older.
use k9r.Base.{
  ℕ, length, ◌-◌, ◌≤◌, ◌<◌, ◌≡◌, ◌≢◌, inl, inr, refl, Array, List, [], ◌∷◌, true, arith, All, ◌==◌,
  beq→eq, beq→ne, Bool-cases,
}
use k9r.Cache.Lru.{holds, without}

abbrev pub Older : Array ℕ → ℕ → ℕ → Type 0
Older age v w = (age v ≤ age w) × (w ≤ v → age v < age w)

abbrev pub IsSorted : Array ℕ → List ℕ → Type 0
IsSorted age [] = Unit
IsSorted age (w ∷ ws) = All (λ v. Older age v w) ws × IsSorted age ws

module _ (P : ℕ → Type 0) where
  pub All-without : (x : ℕ) (xs : List ℕ) → All P xs → All P (without x xs)
  All-without x [] h = tt
  All-without x (y ∷ []) h = tt
  All-without x (y ∷ z ∷ zs) h = elim (Bool-cases (x == y)) [
    | inl here ↦ rw here h.1
    | inr other ↦ rw other (h.0, All-without x (z ∷ zs) h.1)
  ]

  pub All-of : ((x : ℕ) → P x) → (xs : List ℕ) → All P xs
  All-of f [] = tt
  All-of f (x ∷ xs) = (f x, All-of f xs)

  pub All-map : (Q : ℕ → Type 0) (xs : List ℕ) → ((x : ℕ) → P x → Q x) → All P xs → All Q xs
  All-map Q [] f h = tt
  All-map Q (x ∷ xs) f h = (f x h.0, All-map Q xs f h.1)

  pub All-both :
      (Q R : ℕ → Type 0) (xs : List ℕ)
      → ((x : ℕ) → P x → Q x → R x)
      → All P xs
      → All Q xs
      → All R xs
  All-both Q R [] f h k = tt
  All-both Q R (x ∷ xs) f h k = (f x h.0 k.0, All-both Q R xs f h.1 k.1)

  pub All-holds : (x : ℕ) (xs : List ℕ) → All P xs → holds x xs ≡ true → P x
  All-holds x [] h e = absurd (ground arith)
  All-holds x (y ∷ ys) h e = elim (Bool-cases (x == y)) [
    | inl here ↦ rw (beq→eq x y here) h.0
    | inr other ↦ All-holds x ys h.1 (ground arith)
  ]

-- Only `x` leaves a list with `x` in it.
pub holds-without :
    (x v : ℕ) (xs : List ℕ)
    → holds x xs ≡ true
    → x ≢ v
    → holds v xs ≡ true
    → holds v (without x xs) ≡ true
holds-without x v [] hx ne hv = hv
holds-without x v (y ∷ []) hx ne hv = absurd (ground arith)
holds-without x v (y ∷ z ∷ zs) hx ne hv = elim (Bool-cases (x == y)) [
  | inl here ↦ rw here (ground arith)
  | inr other ↦ rw other (elim (Bool-cases (v == y)) [
    | inl head ↦ rw head refl
    | inr tail ↦ rw tail (holds-without x v (z ∷ zs) (ground arith) ne (ground arith))
  ])
]

module _ (age : Array ℕ) where
  pub IsSorted-without : (x : ℕ) (xs : List ℕ) → IsSorted age xs → IsSorted age (without x xs)
  IsSorted-without x [] h = tt
  IsSorted-without x (y ∷ []) h = tt
  IsSorted-without x (y ∷ z ∷ zs) h = elim (Bool-cases (x == y)) [
    | inl here ↦ rw here h.1
    | inr other ↦
        rw other (All-without (λ v. Older age v y) x (z ∷ zs) h.0, IsSorted-without x (z ∷ zs) h.1)
  ]

  pub younger : (x y v : ℕ) → (x == y) ≡ true → Older age v y → x ≢ v
  younger x y v here older same = grind (arith, beq→eq x y here, older.1)

  -- A sorted list has an entry once.
  pub without-removes : (x : ℕ) (xs : List ℕ) → IsSorted age xs → All (λ v. x ≢ v) (without x xs)
  without-removes x [] h = tt
  without-removes x (y ∷ []) h = tt
  without-removes x (y ∷ z ∷ zs) h = elim (Bool-cases (x == y)) [
    | inl here ↦ rw here (
        All-map (λ v. Older age v y) (λ v. x ≢ v) (z ∷ zs)
          (λ v older same. younger x y v here older same) h.0)
    | inr other ↦ rw other (beq→ne x y other, without-removes x (z ∷ zs) h.1)
  ]

  -- What an order says of the ages alone.
  pub IsSorted-congr :
      (new : Array ℕ) (xs : List ℕ)
      → All (λ v. new v ≡ age v) xs
      → IsSorted age xs
      → IsSorted new xs
  IsSorted-congr new [] same h = tt
  IsSorted-congr new (x ∷ xs) same h = (
    All-both (λ v. new v ≡ age v) (λ v. Older age v x) (λ v. Older new v x) xs
        (λ v e older.
          (omega (arith, e, same.0, older.0), λ le. omega (arith, e, same.0, older.1 le)))
        same.1 h.0,
    IsSorted-congr new xs same.1 h.1,
  )

pub length-without : (x : ℕ) (xs : List ℕ) → length (without x xs) ≡ length xs - 1
length-without x [] = refl
length-without x (y ∷ []) = refl
length-without x (y ∷ z ∷ zs) = elim (Bool-cases (x == y)) [
  | inl here ↦ rw here (omega arith)
  | inr other ↦ rw other (omega (arith, length-without x (z ∷ zs)))
]

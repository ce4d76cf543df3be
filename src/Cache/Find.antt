-- ===== src/Cache/Find.antt =====
-- The two loops over the ways of a set of targets/hetero/timing_cache.cpp: which way they find.
use mathlib.Core.Path.{subst}
use k9r.Base.{
  ℕ, zero, suc, ◌+◌, ◌-◌, ◌≤◌, ◌<◌, ◌≡◌, ◌≢◌, inl, inr, Array, none, some, arith, ltb, ltb→lt,
  ltb→le, ◌==◌, beq→eq, beq→ne, Bool-cases, ℕ_discrete,
}
use k9r.Cache.{find, oldest_way}

-- A tag that `find` finds is there.
pub find-some :
    (tags : Array ℕ) (base line rounds way w : ℕ)
    → find tags base line rounds way ≡ some w
    → (way ≤ w) × (w < way + rounds) × (tags (base + w) ≡ line)
unfolding find
find-some tags base line zero way w e = ground arith
find-some tags base line (suc rounds) way w e = elim (Bool-cases (tags (base + way) == line)) [
  | inl here ↦ ground (arith, beq→eq (tags (base + way)) line here)
  | inr other ↦ ground (arith, find-some tags base line rounds (way + 1) w)
]

-- A tag that it does not find is not there.
pub find-none :
    (tags : Array ℕ) (base line rounds way w : ℕ)
    → find tags base line rounds way ≡ none
    → way ≤ w
    → w < way + rounds
    → tags (base + w) ≢ line
unfolding find
find-none tags base line zero way w e from upto = absurd (omega arith)
find-none tags base line (suc rounds) way w e from upto =
    elim (Bool-cases (tags (base + way) == line)) [
      | inl here ↦ ground arith
      | inr other ↦ elim (ℕ_discrete w way) [
        | yes same ↦ rw same (beq→ne (tags (base + way)) line other)
        | no ne ↦
            find-none tags base line rounds (way + 1) w (ground arith) (omega arith) (omega arith)
      ]
    ]

-- The first of the ways with the least age.
pub record IsFirstMin (age : Array ℕ) (n best : ℕ) : Type 0 where
  pub inside : best < n
  pub least : (w : ℕ) → w < n → age best ≤ age w
  pub first : (w : ℕ) → w < best → age best < age w

the_first : (w : ℕ) → w < 1 → w ≡ 0
the_first w lt = omega arith

module _ (lru : Array ℕ) (base : ℕ) where
  abbrev pub age : Array ℕ
  age w = lru (base + w)

  take-IsFirstMin :
      (way best : ℕ) → IsFirstMin age way best → age way < age best → IsFirstMin age (way + 1) way
  take-IsFirstMin way best m less = record {
    inside = omega arith;
    least = λ w lt. elim (ℕ_discrete w way) [
      | yes same ↦ rw same (omega arith)
      | no ne ↦ omega (arith, m.least w (omega arith))
    ];
    first = λ w lt. omega (arith, m.least w lt);
  }

  keep-IsFirstMin :
      (way best : ℕ) → IsFirstMin age way best → age best ≤ age way → IsFirstMin age (way + 1) best
  keep-IsFirstMin way best m more = record {
    inside = omega (arith, m.inside);
    least = λ w lt. elim (ℕ_discrete w way) [
      | yes same ↦ rw same more
      | no ne ↦ m.least w (omega arith)
    ];
    first = m.first;
  }

  oldest_way-IsFirstMin :
      (rounds way best n : ℕ)
      → way + rounds ≡ n
      → IsFirstMin age way best
      → IsFirstMin age n (oldest_way lru base rounds way best (age best))
  unfolding oldest_way
  oldest_way-IsFirstMin zero way best n e m = subst (λ k. IsFirstMin age k best) (omega arith) m
  oldest_way-IsFirstMin (suc rounds) way best n e m = elim (Bool-cases (ltb (age way) (age best))) [
    | inl less ↦ rw less (
        oldest_way-IsFirstMin rounds (way + 1) way n (omega arith)
          (take-IsFirstMin way best m (ltb→lt (age way) (age best) less)))
    | inr more ↦ rw more (
        oldest_way-IsFirstMin rounds (way + 1) best n (omega arith)
          (keep-IsFirstMin way best m (ltb→le (age way) (age best) more)))
  ]

  -- The loop over all ways of a set, from the first one on.
  pub oldest-IsFirstMin :
      (n : ℕ) → 0 < n → IsFirstMin age n (oldest_way lru base (n - 1) 1 0 (lru base))
  oldest-IsFirstMin n pos =
      subst (λ k. IsFirstMin age n (oldest_way lru base (n - 1) 1 0 (lru k))) (omega arith)
        (oldest_way-IsFirstMin (n - 1) 1 0 n (omega arith) (record {
          inside = omega arith;
          least = λ w lt. rw (the_first w lt) (omega arith);
          first = λ w lt. absurd (omega arith);
        }))

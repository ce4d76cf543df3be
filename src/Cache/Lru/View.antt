-- ===== src/Cache/Lru/View.antt =====
-- A set of the tag array of targets/hetero/timing_cache.cpp and its abstract view.
use k9r.Base.{
  ℕ, length, ◌+◌, ◌≤◌, ◌<◌, ◌≡◌, ◌≢◌, ◌∙◌, inl, inr, refl, sym, ap, Array, List, [], ◌∷◌, map, true,
  false, arith, All, ◌==◌, beq→eq, beq→ne, ne→beq, eq→beq, Bool-cases, ℕ_discrete,
}
use k9r.Cache.{line_invalid}
use k9r.Cache.Find.{IsFirstMin}
use k9r.Cache.Lru.{holds, without, use_line}
use k9r.Cache.Lru.Order.{
  Older, IsSorted, All-without, All-map, All-both, holds-without, without-removes, younger,
  IsSorted-without, IsSorted-congr, length-without,
}

-- `order` lists the ways of a set, the last one used first; `view` is their tags.
pub record IsView (tag age : Array ℕ) (n counter : ℕ) (view : List ℕ) : Type 0 where
  pub order : List ℕ
  pub sorted : IsSorted age order
  pub inside : All (λ w. w < n) order
  pub complete : (w : ℕ) → w < n → holds w order ≡ true
  pub content : map tag order ≡ view
  pub unique : (v w : ℕ) → v < n → w < n → tag v ≡ tag w → tag v ≢ line_invalid → v ≡ w
  pub recent : (w : ℕ) → w < n → age w ≤ counter
  pub full : length view ≡ n

module _ (tag : Array ℕ) where
  pub map-congr :
      (new : Array ℕ) (xs : List ℕ) → All (λ v. new v ≡ tag v) xs → map new xs ≡ map tag xs
  map-congr new [] same = refl
  map-congr new (x ∷ xs) same = rw (same.0, map-congr new xs same.1) refl

  -- The way of the line leaves the ways, and the line the tags.
  map-without_hit :
      (x line : ℕ) (xs : List ℕ)
      → All (λ v. (line == tag v) ≡ (x == v)) xs
      → map tag (without x xs) ≡ without line (map tag xs)
  map-without_hit x line [] h = refl
  map-without_hit x line (y ∷ []) h = refl
  map-without_hit x line (y ∷ z ∷ zs) h = elim (Bool-cases (x == y)) [
    | inl here ↦ rw (h.0, here) refl
    | inr other ↦ rw (h.0, other) (ap (λ t. tag y ∷ t) (map-without_hit x line (z ∷ zs) h.1))
  ]

  clash : (age : Array ℕ) (x y z : ℕ) → (x == y) ≡ true → Older age z y → Older age x z → ⊥
  clash age x y z e older oldest = grind (arith, beq→eq x y e, older.0, older.1, oldest.0, oldest.1)

  -- The oldest way is the last one, and so is its tag.
  map-without_miss :
      (age : Array ℕ) (x line : ℕ) (xs : List ℕ)
      → IsSorted age xs
      → All (λ v. x ≢ v → Older age x v) xs
      → All (λ v. line ≢ tag v) xs
      → map tag (without x xs) ≡ without line (map tag xs)
  map-without_miss age x line [] s o h = refl
  map-without_miss age x line (y ∷ []) s o h = refl
  map-without_miss age x line (y ∷ z ∷ zs) s o h = elim (Bool-cases (x == y)) [
    | inl here ↦ absurd (clash age x y z here s.0.0 (o.1.0 (younger age x y z here s.0.0)))
    | inr other ↦
        rw (ne→beq line (tag y) h.0, other)
          (ap (λ t. tag y ∷ t) (map-without_miss age x line (z ∷ zs) s.1 o.1 h.1))
  ]

  pub holds-map : (w : ℕ) (xs : List ℕ) → holds w xs ≡ true → holds (tag w) (map tag xs) ≡ true
  holds-map w [] h = h
  holds-map w (x ∷ xs) h = elim (Bool-cases (w == x)) [
    | inl here ↦ ground (arith, ap tag (beq→eq w x here), eq→beq (tag w) (tag x))
    | inr other ↦ ground (arith, holds-map w xs)
  ]

  pub holds-map_none :
      (line : ℕ) (xs : List ℕ) → All (λ v. line ≢ tag v) xs → holds line (map tag xs) ≡ false
  holds-map_none line [] h = refl
  holds-map_none line (x ∷ xs) h = rw (ne→beq line (tag x) h.0) (holds-map_none line xs h.1)

-- A way is used for `line`: the way that has the line, or the oldest one if none has it.
module _ (tag age new_tag new_age : Array ℕ) (n counter w line : ℕ) (inside : w < n)
    (newest : new_age w ≡ counter + 1) (old_age : (u : ℕ) → w ≢ u → new_age u ≡ age u)
    (at : new_tag w ≡ line) (old_tag : (u : ℕ) → w ≢ u → new_tag u ≡ tag u)
    (elsewhere : (u : ℕ) → u < n → w ≢ u → line ≢ tag u) where
  module _ {view : List ℕ} (v : IsView tag age n counter view) where
    rest-old : All (λ u. w ≢ u) (without w v.order)
    rest-old = without-removes age w v.order v.sorted

    rest-inside : All (λ u. u < n) (without w v.order)
    rest-inside = All-without (λ u. u < n) w v.order v.inside

    use-IsSorted : IsSorted new_age (w ∷ without w v.order)
    use-IsSorted = (
      All-both (λ u. w ≢ u) (λ u. u < n) (λ u. Older new_age u w) (without w v.order)
          (λ u ne lt. (
            omega (arith, old_age u ne, v.recent u lt, newest),
            λ le. omega (arith, old_age u ne, v.recent u lt, newest),
          ))
          rest-old rest-inside,
      IsSorted-congr age new_age (without w v.order)
          (All-map (λ u. w ≢ u) (λ u. new_age u ≡ age u) (without w v.order) old_age rest-old)
          (IsSorted-without age w v.order v.sorted),
    )

    use_unique :
        (a b : ℕ) → a < n → b < n → new_tag a ≡ new_tag b → new_tag a ≢ line_invalid → a ≡ b
    use_unique a b ha hb e ne = elim (ℕ_discrete w a) [
      | yes same_a ↦ elim (ℕ_discrete w b) [
        | yes same_b ↦ sym same_a ∙ same_b
        | no other_b ↦
            absurd (elsewhere b hb other_b (sym at ∙ ap new_tag same_a ∙ e ∙ old_tag b other_b))
      ]
      | no other_a ↦ elim (ℕ_discrete w b) [
        | yes same_b ↦
            absurd (elsewhere a ha other_a (sym at ∙ ap new_tag same_b ∙ sym e ∙ old_tag a other_a))
        | no other_b ↦
            v.unique a b ha hb (sym (old_tag a other_a) ∙ e ∙ old_tag b other_b)
              (λ i. ne (old_tag a other_a ∙ i))
      ]
    ]

    use_complete : (u : ℕ) → u < n → holds u (w ∷ without w v.order) ≡ true
    use_complete u lt = elim (Bool-cases (u == w)) [
      | inl here ↦ rw here refl
      | inr other ↦ rw other (
          holds-without w u v.order (v.complete w inside) (λ e. beq→ne u w other (sym e))
            (v.complete u lt))
    ]

    use_content :
        map tag (without w v.order) ≡ without line (map tag v.order)
        → map new_tag (w ∷ without w v.order) ≡ use_line line view
    use_content leaves =
        rw
          (
            at,
            map-congr tag new_tag (without w v.order) (
                All-map (λ u. w ≢ u) (λ u. new_tag u ≡ tag u) (without w v.order) old_tag rest-old),
            leaves,
            v.content,
          )
          refl

    use_recent : (u : ℕ) → u < n → new_age u ≤ counter + 1
    use_recent u lt = elim (ℕ_discrete w u) [
      | yes same ↦ omega (arith, ap new_age same, newest)
      | no other ↦ omega (arith, old_age u other, v.recent u lt)
    ]

    -- The view after the use, where the line leaves the tags as the way leaves the ways.
    pub use-IsView :
        map tag (without w v.order) ≡ without line (map tag v.order)
        → IsView new_tag new_age n (counter + 1) (use_line line view)
    use-IsView leaves = record {
      order = w ∷ without w v.order;
      sorted = use-IsSorted;
      inside = (inside, rest-inside);
      complete = use_complete;
      content = use_content leaves;
      unique = use_unique;
      recent = use_recent;
      full = omega (arith, length-without line view, v.full, inside);
    }

    -- The way has the line.
    pub hit-IsView : tag w ≡ line → IsView new_tag new_age n (counter + 1) (use_line line view)
    hit-IsView here = use-IsView (
        map-without_hit tag w line v.order (
          All-map (λ u. u < n) (λ u. (line == tag u) ≡ (w == u)) v.order
            (λ u lt. elim (ℕ_discrete w u) [
              | yes same ↦ eq→beq line (tag u) (sym here ∙ ap tag same) ∙ sym (eq→beq w u same)
              | no other ↦ ne→beq line (tag u) (elsewhere u lt other) ∙ sym (ne→beq w u other)
            ])
            v.inside))

    -- No way has it, and the way is the first of the oldest ones.
    pub miss-IsView :
        line ≢ tag w
        → IsFirstMin age n w
        → IsView new_tag new_age n (counter + 1) (use_line line view)
    miss-IsView absent oldest = use-IsView (
        map-without_miss tag age w line v.order v.sorted
          (All-map (λ u. u < n) (λ u. w ≢ u → Older age w u) v.order
            (λ u lt other. (oldest.least u lt, λ le. oldest.first u (omega arith))) v.inside)
          (All-map (λ u. u < n) (λ u. line ≢ tag u) v.order
            (λ u lt. elim (ℕ_discrete w u) [
              | yes same ↦ λ e. absent (e ∙ ap tag (sym same))
              | no other ↦ elsewhere u lt other
            ])
            v.inside))

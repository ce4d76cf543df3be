-- ===== src/Cache/Lru/Seat.antt =====
-- A way of a set takes a line: what that does to the tag array of
-- targets/hetero/timing_cache.cpp and to its abstract sets.
use mathlib.Core.Path.{subst}
use native.Mathlib.Nat.{mul-le-mul_right, mod-eq_of_lt}
use k9r.Base.{
  ℕ, suc, ◌+◌, ◌≤◌, ◌<◌, ◌≡◌, ◌≢◌, ◌∙◌, refl, sym, Array, List, true, false, arith, update,
  update_self, update_ne, ℕ_discrete, dec_lt, add64, u64_mod,
}
use k9r.Cache.{Config, State, line_invalid, nb_sets, slot, use_slot}
use k9r.Cache.Find.{IsFirstMin}
use k9r.Cache.Lru.{holds, use_line, use_set}
use k9r.Cache.Lru.Order.{All-map, IsSorted-congr}
use k9r.Cache.Lru.View.{IsView, map-congr, holds-map, holds-map_none, hit-IsView, miss-IsView}

-- The entries of a set in an array over all slots.
abbrev pub of_set {ℓ} : {A : Type ℓ} → Config → Array A → ℕ → Array A
of_set c xs set way = xs (slot c set way)

-- Each set of the tag array has the abstract set as its view.
abbrev pub HasViews : Config → Array ℕ → Array ℕ → ℕ → Array (List ℕ) → Type 0
HasViews c tags lru counter sets =
    (set : ℕ)
    → set < nb_sets c
    → IsView (of_set c tags set) (of_set c lru set) c.nb_ways counter (sets set)

abbrev pub IsCache : Config → State → Array (List ℕ) → Type 0
IsCache c s sets = HasViews c s.tags s.lru s.lru_counter sets

-- There is a way and a set.
pub record IsBuilt (c : Config) : Type 0 where
  pub ways : 0 < c.nb_ways
  pub sets : 0 < nb_sets c

module _ {tag age : Array ℕ} {n counter : ℕ} {view : List ℕ}
    (v : IsView tag age n counter view) where
  pub view-holds : (line w : ℕ) → w < n → tag w ≡ line → holds line view ≡ true
  view-holds line w lt here =
      rw (sym here, sym v.content) (holds-map tag w v.order (v.complete w lt))

  pub view-none : (line : ℕ) → ((u : ℕ) → u < n → tag u ≢ line) → holds line view ≡ false
  view-none line absent = rw (sym v.content) (
      holds-map_none tag line v.order
        (All-map (λ u. u < n) (λ u. line ≢ tag u) v.order (λ u lt e. absent u lt (sym e)) v.inside))

slot-lt : (c : Config) (i j u w : ℕ) → u < c.nb_ways → i < j → slot c i u ≢ slot c j w
slot-lt c i j u w hu before e =
    let step : suc i ≤ j = before in omega (arith, e, mul-le-mul_right c.nb_ways step)

-- Slots of different sets differ.
slot_ne :
    (c : Config) (i j u w : ℕ) → u < c.nb_ways → w < c.nb_ways → i ≢ j → slot c i u ≢ slot c j w
slot_ne c i j u w hu hw ne e = elim (dec_lt i j) [
  | yes before ↦ slot-lt c i j u w hu before e
  | no after ↦ slot-lt c j i w u hw (omega arith) (sym e)
]

slot-injective : (c : Config) (i u w : ℕ) → w ≢ u → slot c i w ≢ slot c i u
slot-injective c i u w ne e = ne (omega (arith, e))

pub IsView-congr :
    {tag age : Array ℕ} {n counter : ℕ} {view : List ℕ} (new_tag new_age : Array ℕ) (later : ℕ)
    → ((u : ℕ) → u < n → new_tag u ≡ tag u)
    → ((u : ℕ) → u < n → new_age u ≡ age u)
    → counter ≤ later
    → IsView tag age n counter view
    → IsView new_tag new_age n later view
IsView-congr {tag} {age} {n} new_tag new_age later tags ages le v = record {
  order = v.order;
  sorted =
      IsSorted-congr age new_age v.order
        (All-map (λ u. u < n) (λ u. new_age u ≡ age u) v.order ages v.inside) v.sorted;
  inside = v.inside;
  complete = v.complete;
  content =
      map-congr tag new_tag v.order
        (All-map (λ u. u < n) (λ u. new_tag u ≡ tag u) v.order tags v.inside)
      ∙ v.content;
  unique = λ a b ha hb e ne.
      v.unique a b ha hb (sym (tags a ha) ∙ e ∙ tags b hb) (λ i. ne (tags a ha ∙ i));
  recent = λ u lt. omega (arith, ages u lt, v.recent u lt);
  full = v.full;
}

-- A way of a set takes the line and is the last one used; the other sets stay.
module _ (c : Config) (s : State) (sets : Array (List ℕ)) (h : IsCache c s sets) (set w line : ℕ)
    (inside : w < c.nb_ways) (small : s.lru_counter + 1 < u64_mod) where
  abbrev after : Array ℕ
  after = update s.lru (slot c set w) (add64 s.lru_counter 1)

  next_counter : s.lru_counter + 1 ≡ add64 s.lru_counter 1
  next_counter = sym (mod-eq_of_lt small)

  newest : of_set c after set w ≡ s.lru_counter + 1
  newest = update_self s.lru (slot c set w) (add64 s.lru_counter 1) ∙ sym next_counter

  old_age : (u : ℕ) → w ≢ u → of_set c after set u ≡ of_set c s.lru set u
  old_age u ne =
      update_ne s.lru (slot c set w) (add64 s.lru_counter 1) (slot-injective c set u w ne)

  HasViews-seat :
      (tags : Array ℕ)
      → ((k : ℕ) → slot c set w ≢ k → tags k ≡ s.tags k)
      → IsView
          (of_set c tags set)
          (of_set c after set)
          c.nb_ways
          (s.lru_counter + 1)
          (use_line line (sets set))
      → HasViews c tags after (add64 s.lru_counter 1) (use_set sets set line)
  HasViews-seat tags same v i lt = elim (ℕ_discrete set i) [
    | yes here ↦
        subst
          (λ k.
            IsView (of_set c tags k) (of_set c after k) c.nb_ways (add64 s.lru_counter 1)
              (use_set sets set line k))
          here
          (rw (update_self sets set (use_line line (sets set))) (
            subst
              (λ k.
                IsView (of_set c tags set) (of_set c after set) c.nb_ways k
                  (use_line line (sets set)))
              next_counter v))
    | no other ↦ rw (update_ne sets set (use_line line (sets set)) other) (
        IsView-congr (of_set c tags i) (of_set c after i) (add64 s.lru_counter 1)
          (λ u hu. same (slot c i u) (slot_ne c set i w u inside hu other))
          (λ u hu.
            update_ne s.lru (slot c set w) (add64 s.lru_counter 1)
              (slot_ne c set i w u inside hu other))
          (omega (arith, next_counter)) (h i lt))
  ]

  module _ (is_set : set < nb_sets c) (valid : line ≢ line_invalid) where
    pub hit-IsCache :
        of_set c s.tags set w ≡ line → IsCache c (use_slot (slot c set w) s) (use_set sets set line)
    unfolding use_slot
    hit-IsCache here =
        HasViews-seat s.tags (λ k ne. refl)
          (hit-IsView (of_set c s.tags set) (of_set c s.lru set) (of_set c s.tags set)
            (of_set c after set) c.nb_ways s.lru_counter w line inside newest old_age here
            (λ u ne. refl)
            (λ u lt ne e.
              ne ((h set is_set).unique w u inside lt (here ∙ e) (λ i. valid (sym here ∙ i))))
            (h set is_set) here)

    pub miss-IsCache :
        ((u : ℕ) → u < c.nb_ways → of_set c s.tags set u ≢ line)
        → IsFirstMin (of_set c s.lru set) c.nb_ways w
        → HasViews c
            (update s.tags (slot c set w) line)
            after
            (add64 s.lru_counter 1)
            (use_set sets set line)
    miss-IsCache absent oldest =
        HasViews-seat (update s.tags (slot c set w) line)
          (λ k ne. update_ne s.tags (slot c set w) line ne)
          (miss-IsView (of_set c s.tags set) (of_set c s.lru set)
            (of_set c (update s.tags (slot c set w) line) set) (of_set c after set) c.nb_ways
            s.lru_counter w line inside newest old_age (update_self s.tags (slot c set w) line)
            (λ u ne. update_ne s.tags (slot c set w) line (slot-injective c set u w ne))
            (λ u lt ne e. absent u lt (sym e)) (h set is_set) (λ e. absent w inside (sym e)) oldest)

-- ===== src/Cache/Lru/Refines.antt =====
-- `lookup` of targets/hetero/timing_cache.cpp against the abstract sets.
use native.Mathlib.Nat.{mod-lt, mod-eq_of_lt}
use k9r.Base.{
  ℕ, ◌≤◌, ◌+◌, ◌*◌, ◌<◌, ◌≡◌, ◌≢◌, inl, inr, refl, sym, Array, List, Option, none, some, Bool, true,
  false, ◌||◌, arith, update, Bool-cases, Option-cases, ◌⊎◌, if◌then◌else◌, add64, u64_mod,
}
use k9r.Cache.{
  Config, State, line_invalid, nb_sets, set_of, slot, find_way, victim_way, use_slot, evict,
  fill_slot, lookup,
}
use k9r.Cache.Find.{find-some, find-none, IsFirstMin, oldest-IsFirstMin}
use k9r.Cache.Lru.{holds, use_set}
use k9r.Cache.Lru.Seat.{
  of_set, HasViews, IsCache, IsBuilt, view-holds, view-none, hit-IsCache, miss-IsCache,
}

abbrev pub is_found {ℓ} : {A : Type ℓ} → Option A → Bool
is_found none = false
is_found (some a) = true

-- What a lookup does to the abstract sets.
abbrev pub look : Config → ℕ → Bool → Array (List ℕ) → Array (List ℕ)
look c line allocate sets =
    if holds line (sets (set_of c line)) || allocate
    then use_set sets (set_of c line) line
    else sets

-- The line is in no way of its set, and `w` is the way to give up.
record IsMiss (c : Config) (s : State) (line w : ℕ) : Type 0 where
  missed : find_way c s line ≡ none
  inside : w < c.nb_ways
  victim : w ≡ victim_way c s (set_of c line)
  absent : (u : ℕ) → u < c.nb_ways → of_set c s.tags (set_of c line) u ≢ line
  oldest : IsFirstMin (of_set c s.lru (set_of c line)) c.nb_ways w

find-cases :
    (c : Config) (s : State) (line : ℕ)
    → IsBuilt c
    → ((w : ℕ) × (w < c.nb_ways)
        × (find_way c s line ≡ some w)
        × (of_set c s.tags (set_of c line) w ≡ line))
      ⊎ ((w : ℕ) × IsMiss c s line w)
find-cases c s line built =
    let base = set_of c line * c.nb_ways in
    elim (Option-cases (find_way c s line)) [
      | inl e ↦
          let m = oldest-IsFirstMin s.lru base c.nb_ways built.ways in
          inr (
            victim_way c s (set_of c line),
            record {
              missed = e;
              inside = m.inside;
              victim = refl;
              absent =
                  λ u lt. find-none s.tags base line c.nb_ways 0 u e (omega arith) (omega arith);
              oldest = m;
            },
          )
      | inr (w, e) ↦
          let f = find-some s.tags base line c.nb_ways 0 w e in inl (w, omega arith, e, f.2)
    ]

-- Whether a dirty line is evicted or not, a fill changes the tag array in the same way.
pub fill_slot-fields :
    (c : Config) (line ready_time i : ℕ) (s : State)
    → let t = fill_slot c line ready_time i s in
      (t.tags ≡ update s.tags i line)
      × (t.lru ≡ update s.lru i (add64 s.lru_counter 1))
      × (t.lru_counter ≡ add64 s.lru_counter 1)
unfolding fill_slot evict use_slot
fill_slot-fields c line ready_time i s = elim (Bool-cases c.writeback) [
  | inl on ↦ rw on (refl, refl, refl)
  | inr off ↦ rw off (refl, refl, refl)
]

-- A state with such arrays.
IsCache-of :
    (c : Config) (s : State) (sets : Array (List ℕ)) {tags lru : Array ℕ} {counter : ℕ}
    → (s.tags ≡ tags) × (s.lru ≡ lru) × (s.lru_counter ≡ counter)
    → HasViews c tags lru counter sets
    → IsCache c s sets
IsCache-of c s sets (tags, lru, counter) h = rw (tags, lru, counter) h

-- The three ways through `lookup`.
pub lookup-hit :
    (c : Config) (s : State) (line ready_time w : ℕ) (allocate : Bool)
    → find_way c s line ≡ some w
    → let i = slot c (set_of c line) w in
      lookup c line allocate ready_time s ≡ (use_slot i s, some (s.line_ready i))
unfolding lookup
lookup-hit c s line ready_time w allocate e = rw (lookup, e) refl

pub lookup-fill :
    (c : Config) (s : State) (line ready_time : ℕ)
    → find_way c s line ≡ none
    → let i = slot c (set_of c line) (victim_way c s (set_of c line)) in
      lookup c line true ready_time s ≡ (fill_slot c line ready_time i s, none)
unfolding lookup
lookup-fill c s line ready_time e = rw (lookup, e) refl

pub lookup-skip :
    (c : Config) (s : State) (line ready_time : ℕ)
    → find_way c s line ≡ none
    → lookup c line false ready_time s ≡ (s, none)
unfolding lookup
lookup-skip c s line ready_time e = rw (lookup, e) refl

lookup-refines_miss :
    (c : Config) (s : State) (sets : Array (List ℕ)) (line ready_time w : ℕ) (allocate : Bool)
    → set_of c line < nb_sets c
    → line ≢ line_invalid
    → s.lru_counter + 1 < u64_mod
    → IsCache c s sets
    → IsMiss c s line w
    → let r = lookup c line allocate ready_time s in
      IsCache c r.0 (look c line allocate sets) × (is_found r.1 ≡ holds line (sets (set_of c line)))
lookup-refines_miss c s sets line ready_time w true lt valid small h m =
    rw
      (
        lookup-fill c s line ready_time m.missed,
        view-none (h (set_of c line) lt) line m.absent,
        sym m.victim,
      )
      (
        IsCache-of c (fill_slot c line ready_time (slot c (set_of c line) w) s)
            (use_set sets (set_of c line) line)
            (fill_slot-fields c line ready_time (slot c (set_of c line) w) s)
            (miss-IsCache c s sets h (set_of c line) w line m.inside small lt valid m.absent
              m.oldest),
        refl,
      )
lookup-refines_miss c s sets line ready_time w false lt valid small h m =
    rw (lookup-skip c s line ready_time m.missed, view-none (h (set_of c line) lt) line m.absent)
      (h, refl)

-- With at least one set and one way, a line whose number is not the invalid tag, and fewer than
-- 2 ^ 64 - 1 uses so far, `lookup` does to a cache with the abstract sets what `look` does to them,
-- and finds the line iff its abstract set holds it.
pub lookup-refines :
    (c : Config) (s : State) (sets : Array (List ℕ)) (line ready_time : ℕ) (allocate : Bool)
    → IsBuilt c
    → line ≢ line_invalid
    → s.lru_counter + 1 < u64_mod
    → IsCache c s sets
    → let r = lookup c line allocate ready_time s in
      IsCache c r.0 (look c line allocate sets) × (is_found r.1 ≡ holds line (sets (set_of c line)))
unfolding lookup
lookup-refines c s sets line ready_time allocate built valid small h =
    let lt : set_of c line < nb_sets c = mod-lt line built.sets in
    elim (find-cases c s line built) [
      | inl (w, inside, e, here) ↦
          rw
            (
              lookup-hit c s line ready_time w allocate e,
              view-holds (h (set_of c line) lt) line w inside here,
            )
            (hit-IsCache c s sets h (set_of c line) w line inside small lt valid here, refl)
      | inr (w, m) ↦ lookup-refines_miss c s sets line ready_time w allocate lt valid small h m
    ]

-- A lookup counts one use at most.
pub lookup-counter :
    (c : Config) (s : State) (line ready_time : ℕ) (allocate : Bool)
    → s.lru_counter + 1 < u64_mod
    → (lookup c line allocate ready_time s).0.lru_counter ≤ s.lru_counter + 1
unfolding use_slot
lookup-counter c s line ready_time true small = elim (Option-cases (find_way c s line)) [
  | inl e ↦ rw (lookup-fill c s line ready_time e) (
      omega (
        arith,
        mod-eq_of_lt small,
        (fill_slot-fields c line ready_time
            (slot c (set_of c line) (victim_way c s (set_of c line))) s).2,
      ))
  | inr (w, e) ↦ rw (lookup-hit c s line ready_time w true e) (omega (arith, mod-eq_of_lt small))
]
lookup-counter c s line ready_time false small = elim (Option-cases (find_way c s line)) [
  | inl e ↦ rw (lookup-skip c s line ready_time e) (omega arith)
  | inr (w, e) ↦ rw (lookup-hit c s line ready_time w false e) (omega (arith, mod-eq_of_lt small))
]

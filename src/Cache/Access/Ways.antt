-- ===== src/Cache/Access/Ways.antt =====
-- The three ways through a round of the loop of `access` of targets/hetero/timing_cache.cpp, and
-- what each leaves as it was.
use mathlib.Core.Path.{subst}
use k9r.Base.{
  ℕ, zero, suc, ◌+◌, ◌≡◌, inl, inr, refl, sym, ap, ◌∙◌, Array, Option, none, some, Bool, true,
  false, max, Bool-cases, Option-cases,
}
use k9r.Cache.{
  Config, State, set_of, slot, find_way, victim_way, use_slot, evict, fill_slot, lookup, mark_dirty,
  nb_lines, first_line,
}
use k9r.Cache.Lru.Refines.{lookup-hit, lookup-fill, lookup-skip}
use k9r.Cache.Access.{
  allocates, port_start, refill_done, count_hit, count_miss, transfer, settle, touch, mark_from,
  store_through, store,
}

-- The slot that a line takes when it is filled.
abbrev pub fill_place : Config → State → ℕ → ℕ
fill_place c s line = slot c (set_of c line) (victim_way c s (set_of c line))

module _ (c : Config) (now : ℕ) (is_write : Bool) (next_latency line : ℕ) (s : State)
    (ready : ℕ) where
  abbrev done : ℕ
  done = refill_done c now next_latency s

  abbrev settled : Bool → State × Option ℕ → State × ℕ
  settled = settle c (port_start now s) done ready

  touch-hit :
      (w : ℕ)
      → find_way c s line ≡ some w
      → let i = slot c (set_of c line) w in
        touch c now is_write next_latency line s ready
        ≡ (count_hit (use_slot i s), max ready (s.line_ready i))
  unfolding touch settle
  touch-hit w e =
      ap (settled (allocates c is_write)) (lookup-hit c s line done w (allocates c is_write) e)

  touch-fill :
      find_way c s line ≡ none
      → allocates c is_write ≡ true
      → touch c now is_write next_latency line s ready ≡ (
        transfer c (port_start now s) (count_miss (fill_slot c line done (fill_place c s line) s)),
        max ready done,
      )
  unfolding touch settle
  touch-fill e on =
      ap (λ b. settled b (lookup c line b done s)) on
      ∙ ap (settled true) (lookup-fill c s line done e)

  touch-skip :
      find_way c s line ≡ none
      → allocates c is_write ≡ false
      → touch c now is_write next_latency line s ready ≡ (count_miss s, ready)
  unfolding touch settle
  touch-skip e off =
      ap (λ b. settled b (lookup c line b done s)) off
      ∙ ap (settled false) (lookup-skip c s line done e)

  -- A property of a round is one of its three ways.
  pub touch-cases :
      (P : State × ℕ → Type 0)
      → ((w : ℕ)
          → find_way c s line ≡ some w
          → let i = slot c (set_of c line) w in
            P (count_hit (use_slot i s), max ready (s.line_ready i)))
      → (find_way c s line ≡ none
          → allocates c is_write ≡ true
          → P (
            transfer c
                (port_start now s)
                (count_miss (fill_slot c line done (fill_place c s line) s)),
            max ready done,
          ))
      → (find_way c s line ≡ none → allocates c is_write ≡ false → P (count_miss s, ready))
      → P (touch c now is_write next_latency line s ready)
  touch-cases P hit fill skip = elim (Option-cases (find_way c s line)) [
    | inl e ↦ elim (Bool-cases (allocates c is_write)) [
      | inl on ↦ subst P (sym (touch-fill e on)) (fill e on)
      | inr off ↦ subst P (sym (touch-skip e off)) (skip e off)
    ]
    | inr (w, e) ↦ subst P (sym (touch-hit w e)) (hit w e)
  ]

-- What a fill leaves.
pub fill_slot-keeps :
    (c : Config) (line ready_time i : ℕ) (s : State)
    → let t = fill_slot c line ready_time i s in
      (t.next_level_free ≡ s.next_level_free) × (t.nb_hit ≡ s.nb_hit) × (t.nb_miss ≡ s.nb_miss)
unfolding fill_slot evict use_slot
fill_slot-keeps c line ready_time i s = elim (Bool-cases c.writeback) [
  | inl on ↦ rw on (refl, refl, refl)
  | inr off ↦ rw off (refl, refl, refl)
]

-- A store marks lines dirty and does nothing else.
mark_dirty-only :
    (c : Config) (line : ℕ) (s : State) (d : Array Bool)
    → record (mark_dirty c line s) { dirty = d } ≡ record s { dirty = d }
unfolding mark_dirty
mark_dirty-only c line s d = elim (Option-cases (find_way c s line)) [
  | inl e ↦ rw (mark_dirty, e) refl
  | inr (w, e) ↦ rw (mark_dirty, e) refl
]

pub mark_from-only :
    (c : Config) (rounds line : ℕ) (s : State)
    → mark_from c rounds line s ≡ record s { dirty = (mark_from c rounds line s).dirty }
unfolding mark_from
mark_from-only c zero line s = refl
mark_from-only c (suc rounds) line s =
    let t = mark_dirty c line s in
    mark_from-only c rounds (line + 1) t
    ∙ mark_dirty-only c line s (mark_from c rounds (line + 1) t).dirty

-- A store is written back, written through or no store.
pub store-cases :
    (c : Config) (now addr size : ℕ) (is_write : Bool) (s : State) (ready : ℕ)
    → (P : State × ℕ → Type 0)
    → ((d : Array Bool) → c.writeback ≡ true → is_write ≡ true → P (record s { dirty = d }, ready))
    → (c.writeback ≡ false → is_write ≡ true → P (store_through c now s ready))
    → (is_write ≡ false → P (s, ready))
    → P (store c now addr size is_write s ready)
unfolding store
store-cases c now addr size false s ready P back through no_store = no_store refl
store-cases c now addr size true s ready P back through no_store = elim (Bool-cases c.writeback) [
  | inl on ↦
      let t = mark_from c (nb_lines c addr size) (first_line c addr) s in
      rw on (
        subst (λ u. P (u, ready))
          (sym (mark_from-only c (nb_lines c addr size) (first_line c addr) s))
          (back t.dirty on refl))
  | inr off ↦ rw off (through off refl)
]

-- ===== src/Cache/Access/Dirty.antt =====
-- With write-back, `access` of targets/hetero/timing_cache.cpp forgets no dirty line.
use k9r.Base.{
  ℕ, zero, suc, ◌+◌, ◌≡◌, ◌≢◌, ◌⊎◌, inl, inr, refl, sym, ap, ◌∙◌, List, [], ◌∷◌, ◌++◌, Bool, true,
  false, not, ◌&&◌, arith, update, update_ne, ◌==◌, eq→beq, ne→beq, Bool-cases, Option-cases,
  ℕ_discrete, if◌then◌else◌, if_true, if_both,
}
use k9r.Cache.{
  Config, State, line_invalid, slot, set_of, find_way, use_slot, evict, fill_slot, mark_dirty,
  first_line, nb_lines,
}
use k9r.Cache.Lru.{holds}
use k9r.Cache.Access.{
  refill_done, count_access, count_hit, count_miss, transfer, touch, touch_from, mark_from, store,
  access,
}
use k9r.Cache.Access.Ways.{touch-cases, fill_place}

-- A line that memory does not hold yet: it is in the cache and dirty, or it waits to be written
-- back.
abbrev pub IsKept : ℕ → State → Type 0
IsKept line s = ((i : ℕ) × (s.tags i ≡ line) × (s.dirty i ≡ true)) ⊎ (holds line s.victims ≡ true)

holds-append : (x : ℕ) (xs ys : List ℕ) → holds x xs ≡ true → holds x (xs ++ ys) ≡ true
holds-append x [] ys h = absurd (ground arith)
holds-append x (y ∷ xs) ys h = elim (Bool-cases (x == y)) [
  | inl here ↦ rw here refl
  | inr other ↦ rw other (holds-append x xs ys (ground arith))
]

holds-last : (x : ℕ) (xs : List ℕ) → holds x (xs ++ x ∷ []) ≡ true
holds-last x [] = rw (eq→beq x x refl) refl
holds-last x (y ∷ xs) = elim (Bool-cases (x == y)) [
  | inl here ↦ rw here refl
  | inr other ↦ rw other (holds-last x xs)
]

module _ (c : Config) (on : c.writeback ≡ true) (line : ℕ) (valid : line ≢ line_invalid) where
  -- The line of the slot is dirty, and waits after its eviction.
  dirty_victim :
      (i : ℕ) (s : State)
      → s.tags i ≡ line
      → s.dirty i ≡ true
      → holds line (
          if not (s.tags i == line_invalid) && s.dirty i
          then s.victims ++ s.tags i ∷ []
          else s.victims)
        ≡ true
  dirty_victim i s here dirty =
      let chosen : (not (s.tags i == line_invalid) && s.dirty i) ≡ true =
        rw (ne→beq (s.tags i) line_invalid (λ e. valid (sym here ∙ e)), dirty) refl in
      ap (holds line) (if_true s.victims chosen)
      ∙ ap (λ t. holds line (s.victims ++ t ∷ [])) here
      ∙ holds-last line s.victims

  fill_slot-IsKept :
      (new ready_time i : ℕ) (s : State)
      → IsKept line s
      → IsKept line (fill_slot c new ready_time i s)
  unfolding fill_slot evict use_slot
  fill_slot-IsKept new ready_time i s (inr waits) = rw on (
      inr (
        if_both (λ v. holds line v ≡ true) (not (s.tags i == line_invalid) && s.dirty i)
          (holds-append line s.victims (s.tags i ∷ []) waits) waits))
  fill_slot-IsKept new ready_time i s (inl (j, here, dirty)) = elim (ℕ_discrete i j) [
    | yes same ↦ rw on (inr (dirty_victim i s (ap s.tags same ∙ here) (ap s.dirty same ∙ dirty)))
    | no ne ↦
        rw on (inl (j, update_ne s.tags i new ne ∙ here, update_ne s.dirty i false ne ∙ dirty))
  ]

  touch-IsKept :
      (now : ℕ) (is_write : Bool) (next_latency new : ℕ) (s : State) (ready : ℕ)
      → IsKept line s
      → IsKept line (touch c now is_write next_latency new s ready).0
  unfolding count_hit count_miss use_slot transfer
  touch-IsKept now is_write next_latency new s ready h =
      touch-cases c now is_write next_latency new s ready (λ r. IsKept line r.0) (λ w e. h)
        (λ e alloc.
          fill_slot-IsKept new (refill_done c now next_latency s) (fill_place c s new) s h)
        (λ e skip. h)

  touch_from-IsKept :
      (now : ℕ) (is_write : Bool) (next_latency rounds new : ℕ) (s : State) (ready : ℕ)
      → IsKept line s
      → IsKept line (touch_from c now is_write next_latency rounds new s ready).0
  unfolding touch_from
  touch_from-IsKept now is_write next_latency zero new s ready h = h
  touch_from-IsKept now is_write next_latency (suc rounds) new s ready h =
      let t = touch c now is_write next_latency new s ready in
      touch_from-IsKept now is_write next_latency rounds (new + 1) t.0 t.1
        (touch-IsKept now is_write next_latency new s ready h)

  mark_slot-IsKept :
      (i : ℕ) (s : State) → IsKept line s → IsKept line (record s { dirty = update s.dirty i true })
  mark_slot-IsKept i s (inr waits) = inr waits
  mark_slot-IsKept i s (inl (j, here, dirty)) =
      inl (j, here, if_both (λ b. b ≡ true) (j == i) refl dirty)

  mark_dirty-IsKept : (new : ℕ) (s : State) → IsKept line s → IsKept line (mark_dirty c new s)
  unfolding mark_dirty
  mark_dirty-IsKept new s h = elim (Option-cases (find_way c s new)) [
    | inl e ↦ rw (mark_dirty, e) h
    | inr (w, e) ↦ rw (mark_dirty, e) (mark_slot-IsKept (slot c (set_of c new) w) s h)
  ]

  mark_from-IsKept :
      (rounds new : ℕ) (s : State) → IsKept line s → IsKept line (mark_from c rounds new s)
  unfolding mark_from
  mark_from-IsKept zero new s h = h
  mark_from-IsKept (suc rounds) new s h =
      mark_from-IsKept rounds (new + 1) (mark_dirty c new s) (mark_dirty-IsKept new s h)

  store-IsKept :
      (now addr size : ℕ) (is_write : Bool) (s : State) (ready : ℕ)
      → IsKept line s
      → IsKept line (store c now addr size is_write s ready).0
  unfolding store
  store-IsKept now addr size false s ready h = h
  store-IsKept now addr size true s ready h =
      rw on (mark_from-IsKept (nb_lines c addr size) (first_line c addr) s h)

  count_access-IsKept :
      (is_write : Bool) (s : State) → IsKept line s → IsKept line (count_access c is_write s)
  unfolding count_access
  count_access-IsKept true s h = h
  count_access-IsKept false s h = h

  -- With write-back, a valid line that is dirty in the cache, or waits to be written back, is dirty
  -- or waits also after an access, whichever lines the access evicts.
  pub access-IsKept :
      (now addr size : ℕ) (is_write : Bool) (next_latency : ℕ) (s : State)
      → IsKept line s
      → IsKept line (access c now addr size is_write next_latency s).0
  unfolding access
  access-IsKept now addr size is_write next_latency s h =
      let u = count_access c is_write s in
      let t =
        touch_from c now is_write next_latency (nb_lines c addr size) (first_line c addr) u
          (now + c.hit_latency) in
      store-IsKept now addr size is_write t.0 t.1 (
        touch_from-IsKept now is_write next_latency (nb_lines c addr size) (first_line c addr) u
          (now + c.hit_latency) (count_access-IsKept is_write s h))

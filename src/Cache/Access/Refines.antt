-- ===== src/Cache/Access/Refines.antt =====
-- `access` of targets/hetero/timing_cache.cpp against the abstract sets.
use native.Mathlib.Nat.{mod-eq_of_lt}
use k9r.Base.{
  not, ◌||◌, ℕ, zero, suc, ◌+◌, ◌-◌, ◌*◌, ◌/◌, ◌^◌, ◌≤◌, ◌<◌, ◌≡◌, ◌∙◌, ap, max, add64, ◌==◌,
  if◌then◌else◌, Array, List, Option, none, some, Bool, true, false, arith, u64_mod, if_both,
}
use k9r.Cache.{Config, State, line_invalid, lookup, line_bits, first_line, nb_lines}
use k9r.Base.Powers.{power_pos, blocks_between}
use k9r.Cache.Lru.Seat.{IsCache, IsBuilt}
use k9r.Cache.Lru.Refines.{look, lookup-refines, lookup-counter}
use k9r.Cache.Access.{
  allocates, port_start, refill_done, count_access, count_hit, count_miss, transfer, settle, touch,
  touch_from, store_through, access,
}
use k9r.Cache.Access.Ways.{store-cases}

-- A cache with these sets that has counted `uses` uses at most.
record IsUsed (c : Config) (s : State) (sets : Array (List ℕ)) (uses : ℕ) : Type 0 where
  cache : IsCache c s sets
  few : s.lru_counter ≤ uses

-- What the loop over the lines does to the abstract sets.
abbrev pub looks : Config → Bool → ℕ → ℕ → Array (List ℕ) → Array (List ℕ)
looks c allocate zero line sets = sets
looks c allocate (suc rounds) line sets =
    looks c allocate rounds (line + 1) (look c line allocate sets)

settle-IsUsed :
    (c : Config) (start done ready : ℕ) (allocate : Bool) (s : State) (o : Option ℕ)
    (sets : Array (List ℕ)) (uses : ℕ)
    → IsUsed c s sets uses
    → IsUsed c (settle c start done ready allocate (s, o)).0 sets uses
unfolding settle count_hit count_miss transfer
settle-IsUsed c start done ready allocate s (some t) sets uses h = record {
  cache = h.cache;
  few = h.few;
}
settle-IsUsed c start done ready true s none sets uses h = record { cache = h.cache; few = h.few }
settle-IsUsed c start done ready false s none sets uses h = record { cache = h.cache; few = h.few }

extent_max : (size : ℕ) → (if size == 0 then 1 else size) ≡ max 1 size
extent_max zero = omega arith
extent_max (suc n) = ground arith

module _ (c : Config) (built : IsBuilt c) (now : ℕ) (is_write : Bool) (next_latency : ℕ) where
  touch-IsUsed :
      (line : ℕ) (s : State) (ready uses : ℕ) (sets : Array (List ℕ))
      → line < line_invalid
      → uses + 1 < u64_mod
      → IsUsed c s sets uses
      → IsUsed c
          (touch c now is_write next_latency line s ready).0
          (look c line (allocates c is_write) sets)
          (uses + 1)
  unfolding touch
  touch-IsUsed line s ready uses sets valid small h =
      let done = refill_done c now next_latency s in
      let allocate = allocates c is_write in
      let r = lookup c line allocate done s in
      settle-IsUsed c (port_start now s) done ready allocate r.0 r.1 (look c line allocate sets)
        (uses + 1)
        (record {
          cache =
              (lookup-refines c s sets line done allocate built (λ e. omega arith)
                (omega (arith, h.few)) h.cache).0;
          few = omega (arith, h.few, lookup-counter c s line done allocate (omega (arith, h.few)));
        })

  touch_from-IsUsed :
      (rounds line : ℕ) (s : State) (ready uses : ℕ) (sets : Array (List ℕ))
      → line + rounds ≤ line_invalid
      → uses + rounds < u64_mod
      → IsUsed c s sets uses
      → IsUsed c
          (touch_from c now is_write next_latency rounds line s ready).0
          (looks c (allocates c is_write) rounds line sets)
          (uses + rounds)
  unfolding touch_from
  touch_from-IsUsed zero line s ready uses sets valid small h = record {
    cache = h.cache;
    few = omega (arith, h.few);
  }
  touch_from-IsUsed (suc rounds) line s ready uses sets valid small h =
      let t = touch c now is_write next_latency line s ready in
      let more =
        touch_from-IsUsed rounds (line + 1) t.0 t.1 (uses + 1)
          (look c line (allocates c is_write) sets) (omega arith) (omega arith)
          (touch-IsUsed line s ready uses sets (omega arith) (omega arith) h) in
      record { cache = more.cache; few = omega (arith, more.few) }

  count_access-IsCache :
      (s : State) (sets : Array (List ℕ))
      → IsCache c s sets
      → IsUsed c (count_access c is_write s) sets s.lru_counter
  unfolding count_access
  count_access-IsCache s sets h =
      if_both (λ t. IsUsed c t sets s.lru_counter) is_write
        (record { cache = h; few = omega arith }) (record { cache = h; few = omega arith })

  access-looks :
      (addr size : ℕ) (s : State) (sets : Array (List ℕ))
      → first_line c addr + nb_lines c addr size ≤ line_invalid
      → s.lru_counter + nb_lines c addr size < u64_mod
      → IsCache c s sets
      → IsCache c
          (access c now addr size is_write next_latency s).0
          (looks c (allocates c is_write) (nb_lines c addr size) (first_line c addr) sets)
  unfolding access store_through
  access-looks addr size s sets valid small h =
      let u = count_access c is_write s in
      let t =
        touch_from c now is_write next_latency (nb_lines c addr size) (first_line c addr) u
          (now + c.hit_latency) in
      let after = looks c (allocates c is_write) (nb_lines c addr size) (first_line c addr) sets in
      let lines =
        touch_from-IsUsed (nb_lines c addr size) (first_line c addr) u (now + c.hit_latency)
          s.lru_counter sets valid small (count_access-IsCache s sets h) in
      store-cases c now addr size is_write t.0 t.1 (λ r. IsCache c r.0 after)
        (λ d back write. lines.cache) (λ through write. lines.cache) (λ load. lines.cache)

  -- An access looks up the lines from that of its first byte to that of its last one, in their order,
  -- and does to the abstract sets of the cache what these lookups do, where a miss brings its line in
  -- except for a store without write-allocate. A size of 0 counts as 1. This
  -- is for an access that ends within the 64-bit address space, lines below the invalid tag, and
  -- fewer than 2 ^ 64 uses in all.
  pub access-refines :
      (addr size : ℕ) (s : State) (sets : Array (List ℕ))
      → addr + max 1 size ≤ u64_mod
      → first_line c addr + nb_lines c addr size ≤ line_invalid
      → s.lru_counter + nb_lines c addr size < u64_mod
      → IsCache c s sets
      → (first n : ℕ) × (first * 2 ^ line_bits c ≤ addr)
        × (addr < (first + 1) * 2 ^ line_bits c)
        × (addr + max 1 size ≤ (first + n) * 2 ^ line_bits c)
        × ((first + n) * 2 ^ line_bits c < addr + max 1 size + 2 ^ line_bits c)
        × IsCache c
            (access c now addr size is_write next_latency s).0
            (looks c (not is_write || c.write_allocate) n first sets)
  access-refines addr size s sets inside valid small h =
      let line = 2 ^ line_bits c in
      let extent : ℕ = if size == 0 then 1 else size in
      let byte = add64 addr (extent - 1) in
      let long : extent ≡ max 1 size = extent_max size in
      let last : byte ≡ addr + max 1 size - 1 =
        mod-eq_of_lt (omega (arith, long)) ∙ omega (arith, long) in
      let (order, low, low', high, high') =
        blocks_between line addr byte (power_pos (line_bits c)) (omega (arith, last)) in
      let end : first_line c addr + nb_lines c addr size ≡ byte / line + 1 = omega (arith, order) in
      let up : (first_line c addr + nb_lines c addr size) * line ≡ (byte / line + 1) * line =
        ap (λ x. x * line) end in
      (
        first_line c addr,
        nb_lines c addr size,
        low,
        low',
        omega (arith, up, high', last),
        omega (arith, up, high, last),
        access-looks addr size s sets valid small h,
      )

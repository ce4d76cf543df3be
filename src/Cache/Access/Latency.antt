-- ===== src/Cache/Access/Latency.antt =====
-- The latency that `access` of targets/hetero/timing_cache.cpp returns, and the port to the next
-- level.
use k9r.Base.{ℕ, zero, suc, ◌+◌, ◌≤◌, ◌≡◌, refl, Bool, true, false, arith}
use k9r.Cache.{Config, State, use_slot, first_line, nb_lines}
use k9r.Cache.Access.{
  count_access, count_hit, count_miss, transfer, touch, touch_from, store_through, store, access,
}
use k9r.Cache.Access.Ways.{touch-cases, store-cases}

-- The access is done later, and the port is free later.
abbrev pub IsLater : State → ℕ → State × ℕ → Type 0
IsLater s ready r = (ready ≤ r.1) × (s.next_level_free ≤ r.0.next_level_free)

touch-IsLater :
    (c : Config) (now : ℕ) (is_write : Bool) (next_latency line : ℕ) (s : State) (ready : ℕ)
    → IsLater s ready (touch c now is_write next_latency line s ready)
unfolding count_hit count_miss use_slot transfer
touch-IsLater c now is_write next_latency line s ready =
    touch-cases c now is_write next_latency line s ready (IsLater s ready)
      (λ w e. (omega arith, omega arith)) (λ e on. (omega arith, omega arith))
      (λ e off. (omega arith, omega arith))

pub touch_from-IsLater :
    (c : Config) (now : ℕ) (is_write : Bool) (next_latency rounds line : ℕ) (s : State) (ready : ℕ)
    → IsLater s ready (touch_from c now is_write next_latency rounds line s ready)
unfolding touch_from
touch_from-IsLater c now is_write next_latency zero line s ready = (omega arith, omega arith)
touch_from-IsLater c now is_write next_latency (suc rounds) line s ready =
    let t = touch c now is_write next_latency line s ready in
    let one = touch-IsLater c now is_write next_latency line s ready in
    let more = touch_from-IsLater c now is_write next_latency rounds (line + 1) t.0 t.1 in
    (omega (arith, one.0, more.0), omega (arith, one.1, more.1))

store-IsLater :
    (c : Config) (now addr size : ℕ) (is_write : Bool) (s : State) (ready : ℕ)
    → IsLater s ready (store c now addr size is_write s ready)
unfolding store_through
store-IsLater c now addr size is_write s ready =
    store-cases c now addr size is_write s ready (IsLater s ready)
      (λ d back write. (omega arith, omega arith)) (λ through write. (omega arith, omega arith))
      (λ read. (omega arith, omega arith))

count_access-free :
    (c : Config) (is_write : Bool) (s : State)
    → (count_access c is_write s).next_level_free ≡ s.next_level_free
unfolding count_access
count_access-free c true s = refl
count_access-free c false s = refl

-- An access takes the hit latency at least, and never makes the port to the next level free
-- earlier.
access-IsLater :
    (c : Config) (now addr size : ℕ) (is_write : Bool) (next_latency : ℕ) (s : State)
    → let r = access c now addr size is_write next_latency s in
      (c.hit_latency ≤ r.1) × (s.next_level_free ≤ r.0.next_level_free)
unfolding access
access-IsLater c now addr size is_write next_latency s =
    let t =
      touch_from c now is_write next_latency (nb_lines c addr size) (first_line c addr)
        (count_access c is_write s) (now + c.hit_latency) in
    let lines =
      touch_from-IsLater c now is_write next_latency (nb_lines c addr size) (first_line c addr)
        (count_access c is_write s) (now + c.hit_latency) in
    let done = store-IsLater c now addr size is_write t.0 t.1 in
    (omega (arith, lines.0, done.0), omega (arith, lines.1, done.1, count_access-free c is_write s))

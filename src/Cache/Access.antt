-- ===== src/Cache/Access.antt =====
-- `access` of targets/hetero/timing_cache.cpp: the loop over the lines, the store buffer, and the
-- latency. `now` is what the clock says, and `next_latency` what the next level took.
pub mod Ways
pub mod Latency
pub mod Counts
pub mod Dirty
pub mod Reads
pub mod Refines
use k9r.Base.{
  ℕ, zero, suc, ◌+◌, ◌-◌, Bool, true, false, not, ◌&&◌, ◌||◌, Option, none, some, if◌then◌else◌,
  max, add64,
}
use k9r.Cache.{
  Config, State, store_buffer_cycles, quantum, lookup, mark_dirty, first_line, nb_lines,
}

unfoldable pub count_access : Config → Bool → State → State
count_access c is_write s =
    if is_write
    then record s { nb_write = add64 s.nb_write 1; write_quanta = quantum c s.write_quanta }
    else record s { nb_read = add64 s.nb_read 1; read_quanta = quantum c s.read_quanta }

-- When the port to the next level takes a transfer, and when a refill that starts now is there.
abbrev pub port_start : ℕ → State → ℕ
port_start now s = max now s.next_level_free

abbrev pub refill_done : Config → ℕ → ℕ → State → ℕ
refill_done c now next_latency s =
    port_start now s + next_latency + c.miss_latency + c.refill_cycles

abbrev pub allocates : Config → Bool → Bool
allocates c is_write = not is_write || c.write_allocate

unfoldable pub count_hit : State → State
count_hit s = record s { nb_hit = add64 s.nb_hit 1 }

unfoldable pub count_miss : State → State
count_miss s = record s { nb_miss = add64 s.nb_miss 1 }

-- The line is transferred, from `start` on.
unfoldable pub transfer : Config → ℕ → State → State
transfer c start s = record s {
  refill_quanta = quantum c s.refill_quanta;
  next_level_free = start + c.refill_cycles;
}

-- What a round of the loop over the lines does once `lookup` has answered; `ready` is when the
-- access is done so far.
unfoldable pub settle : Config → ℕ → ℕ → ℕ → Bool → State × Option ℕ → State × ℕ
unfolding count_hit count_miss transfer
settle c start done ready allocate (t, some line_ready) = (count_hit t, max ready line_ready)
settle c start done ready true (t, none) = (transfer c start (count_miss t), max ready done)
settle c start done ready false (t, none) = (count_miss t, ready)

unfoldable pub touch : Config → ℕ → Bool → ℕ → ℕ → State → ℕ → State × ℕ
unfolding lookup settle
touch c now is_write next_latency line s ready =
    let done = refill_done c now next_latency s in
    let allocate = allocates c is_write in
    settle c (port_start now s) done ready allocate (lookup c line allocate done s)

unfoldable pub touch_from : Config → ℕ → Bool → ℕ → ℕ → ℕ → State → ℕ → State × ℕ
unfolding touch
touch_from c now is_write next_latency zero line s ready = (s, ready)
touch_from c now is_write next_latency (suc rounds) line s ready =
    let t = touch c now is_write next_latency line s ready in
    touch_from c now is_write next_latency rounds (line + 1) t.0 t.1

-- The loop of a store with write-back.
unfoldable pub mark_from : Config → ℕ → ℕ → State → State
unfolding mark_dirty
mark_from c zero line s = s
mark_from c (suc rounds) line s = mark_from c rounds (line + 1) (mark_dirty c line s)

-- A store with write-through: the store buffer takes it.
unfoldable pub store_through : Config → ℕ → State → ℕ → State × ℕ
store_through c now s ready =
    let free = port_start now s + c.write_cycles in
    (record s { next_level_free = free }, max ready (free - store_buffer_cycles c))

unfoldable pub store : Config → ℕ → ℕ → ℕ → Bool → State → ℕ → State × ℕ
unfolding mark_from store_through
store c now addr size is_write s ready =
    if is_write && c.writeback
    then (mark_from c (nb_lines c addr size) (first_line c addr) s, ready)
    else if is_write
    then store_through c now s ready
    else (s, ready)

-- The new state and the latency. `ready` starts at `now` or later and only grows, so that the
-- `max` with 0 is what `-` on ℕ does.
unfoldable pub access : Config → ℕ → ℕ → ℕ → Bool → ℕ → State → State × ℕ
unfolding count_access touch_from store
access c now addr size is_write next_latency s =
    let ready = now + c.hit_latency in
    let lines =
      touch_from c now is_write next_latency (nb_lines c addr size) (first_line c addr)
        (count_access c is_write s) ready in
    let done = store c now addr size is_write lines.0 lines.1 in
    let latency = done.1 - now in
    (record done.0 { nb_latency_cycles = add64 done.0.nb_latency_cycles latency }, latency)

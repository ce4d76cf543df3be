-- ===== src/Cache/Tests.antt =====
-- A write-back cache of two sets and two ways with lines of 16 bytes, one of four ways, and a memory
-- of bytes below them.
use k9r.Base.{
  ℕ, ◌+◌, ◌*◌, ◌^◌, ◌<◌, max, ◌≤◌, ◌≡◌, refl, Array, [], ◌∷◌, some, true, false, arith, inl,
  if◌then◌else◌, if_true, if_false, if_both, ◌==◌,
}
use k9r.Cache.{
  Config, State, reset, line_bits, line_bits_from, find, oldest_way, lookup, use_slot, evict,
  fill_slot, is_resident, probe_from, probe, mark_dirty, is_valid_geometry,
}
use k9r.Cache.Access.{
  count_access, count_hit, count_miss, transfer, settle, touch, touch_from, mark_from, store,
  access,
}
use k9r.Cache.Access.Counts.{LeavesLines, access-LeavesLines}
use k9r.Cache.Access.Reads.{read-waits, read-hits}
use k9r.Cache.Access.Refines.{looks, access-refines}
use k9r.Cache.Access.Dirty.{IsKept, access-IsKept}
use k9r.Cache.Request.{Request, Status, Answer, Reply, req}
use k9r.Cache.Request.Memory.{bytes_at, stores, IsMemory, Serves, req-Serves}
use k9r.Cache.Lru.Seat.{IsCache, IsBuilt}
use k9r.Cache.Lru.Refines.{is_found, look, lookup-refines}
use k9r.Cache.Lru.Stack.{lookups}
use k9r.Cache.Lru.Retain.{empty, reset-IsCache, lookup-retains, lookup-inclusive}

abbrev small : Config
small = record {
  size = 64;
  line_size = 16;
  nb_ways = 2;
  hit_latency = 1;
  miss_latency = 10;
  refill_cycles = 4;
  write_cycles = 2;
  store_buffer_size = 2;
  write_allocate = true;
  writeback = true;
  power = false;
}

abbrev wide : Config
wide = record small { size = 128; nb_ways = 4 }

abbrev blank : State
blank = record {
  tags = λ i. 0;
  lru = λ i. 0;
  line_ready = λ i. 0;
  dirty = λ i. false;
  victims = [];
  lru_counter = 7;
  next_level_free = 0;
  nb_read = 0;
  nb_write = 0;
  nb_hit = 0;
  nb_miss = 0;
  nb_latency_cycles = 0;
  nb_writeback = 0;
  read_quanta = 0;
  write_quanta = 0;
  refill_quanta = 0;
}

geometry : is_valid_geometry small ≡ true
unfolding is_valid_geometry line_bits_from
geometry = refl

-- Two lines of a set of two ways stay, the third one evicts the first one.
abbrev full : State
full = lookups small ((2, 0) ∷ (4, 0) ∷ []) (reset blank)

full_hit : is_found (lookup small 2 false 0 full).1 ≡ true
unfolding lookups lookup reset find oldest_way fill_slot evict use_slot
full_hit = refl

evicted : is_found (lookup small 2 false 0 (lookups small ((6, 0) ∷ []) full)).1 ≡ false
unfolding lookups lookup reset find oldest_way fill_slot evict use_slot
evicted = refl

IsBuilt-small : IsBuilt small
IsBuilt-small = record { ways = omega arith; sets = omega arith }

lookup-refines_example :
    let r = lookup small 6 true 30 (reset blank) in
    IsCache small r.0 (look small 6 true (λ set. empty 2)) × (is_found r.1 ≡ false)
unfolding reset
lookup-refines_example =
    lookup-refines small (reset blank) (λ set. empty 2) 6 30 true IsBuilt-small (omega arith)
      (omega arith) (reset-IsCache small blank)

lookup_keeps_line :
    let t = lookups small ((4, 9) ∷ []) (lookup small 2 true 0 (reset blank)).0 in
    is_found (lookup small 2 false 20 t).1 ≡ true
unfolding reset
lookup_keeps_line =
    lookup-retains small (reset blank) (λ set. empty 2) 2 0 ((4, 9) ∷ []) IsBuilt-small
      (omega arith) (omega arith, tt) (omega arith) (omega arith) (reset-IsCache small blank) 20

lookup-inclusive_example :
    is_found (lookup wide 4 false 0 (lookups wide ((2, 0) ∷ (4, 0) ∷ []) (reset blank))).1 ≡ true
unfolding lookups lookup reset find oldest_way fill_slot evict use_slot
lookup-inclusive_example =
    lookup-inclusive small wide IsBuilt-small refl (omega arith) blank blank ((2, 0) ∷ (4, 0) ∷ [])
      4 0 0 (omega arith, (omega arith, tt)) (omega arith) (omega arith) refl

-- A read of a line that was filled at cycle 0 and landed at cycle 14.
abbrev filled : State
filled = (access small 0 32 4 false 0 (reset blank)).0

probed : probe small 32 4 filled ≡ true
unfolding access count_access touch_from touch settle count_hit count_miss transfer store lookup
    reset find oldest_way fill_slot evict use_slot probe probe_from is_resident line_bits_from
probed = refl

access-LeavesLines_example : LeavesLines filled (access small 20 32 4 false 0 filled).0
access-LeavesLines_example = access-LeavesLines small 20 32 4 0 filled probed

missed : probe small 32 4 (reset blank) ≡ false
unfolding reset find probe probe_from is_resident line_bits_from
missed = refl

missed_read_waits : 19 ≤ (access small 0 32 4 false 5 (reset blank)).1
missed_read_waits = read-waits small 0 32 4 5 (reset blank) missed

landed : (i : ℕ) → filled.line_ready i ≤ 20 + 1
unfolding access count_access touch_from touch settle count_hit count_miss transfer store lookup
    reset find oldest_way fill_slot evict use_slot line_bits_from
landed i = if_both (λ t. t ≤ 21) (i == 0) (omega arith) (omega arith)

second_read_hits : (access small 20 32 4 false 5 filled).1 ≡ 1
second_read_hits = read-hits small 20 32 4 5 filled probed landed

-- A store to bytes 24 to 39, in two lines.
access-refines_example :
    (first n : ℕ) × (first * 2 ^ line_bits small ≤ 24)
    × (24 < (first + 1) * 2 ^ line_bits small)
    × (24 + max 1 16 ≤ (first + n) * 2 ^ line_bits small)
    × ((first + n) * 2 ^ line_bits small < 24 + max 1 16 + 2 ^ line_bits small)
    × IsCache small
        (access small 0 24 16 true 0 (reset blank)).0
        (looks small true n first (λ set. empty 2))
unfolding reset line_bits_from
access-refines_example =
    access-refines small IsBuilt-small 0 true 0 24 16 (reset blank) (λ set. empty 2) (omega arith)
      (omega arith) (omega arith) (reset-IsCache small blank)

-- Line 2 is stored to, and then three reads of its set evict it.
abbrev stored : State
stored = (access small 0 32 4 true 0 (reset blank)).0

access-IsKept_example : IsKept 2 (access small 9 64 48 false 0 stored).0
unfolding access count_access touch_from touch settle count_hit count_miss transfer store mark_from
    mark_dirty lookup reset find oldest_way fill_slot evict use_slot line_bits_from
access-IsKept_example =
    access-IsKept small refl 2 (omega arith) 9 64 48 false 0 stored (inl (0, refl, refl))

-- A memory whose accesses take three cycles.
abbrev memory : Request → Array ℕ → Array ℕ × Answer
memory r m = (
  if r.is_write then stores m r.addr r.bytes else m,
  record { status = Status.ok; latency = 3; bytes = bytes_at m r.addr r.size },
)

memory-IsMemory : IsMemory memory (λ m. m)
memory-IsMemory = record {
  synchronous = λ r m. refl;
  read = λ r m load. if_false (stores m r.addr r.bytes) load;
  fetch = λ r m load. refl;
  store = λ r m write. if_true m write;
}

abbrev zeros : Array ℕ
zeros i = 0

abbrev store_request : Request
store_request = record {
  addr = 32;
  size = 2;
  is_write = true;
  is_debug = false;
  bytes = 7 ∷ 8 ∷ [];
}

req-Serves_example :
    (reply : Reply (Array ℕ)) × (req memory small 0 store_request (reset blank) zeros ≡ some reply)
    × Serves memory (λ m. m) memory-IsMemory small store_request zeros reply
req-Serves_example =
    req-Serves memory (λ m. m) memory-IsMemory small 0 store_request (reset blank) zeros

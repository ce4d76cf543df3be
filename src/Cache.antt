-- ===== src/Cache.antt =====
-- The timing cache of targets/hetero/timing_cache.cpp: geometry, tag array, LRU replacement. Cycle
-- counts and latencies are not negative, so that `int64_t` is a natural number here, and -1 for a
-- missing line is `none`.
pub mod Find
pub mod Lru
pub mod Access
pub mod Request
mod Tests
use k9r.Base.{
  ℕ, zero, suc, ◌+◌, ◌-◌, ◌*◌, ◌/◌, ◌%◌, ◌^◌, Array, List, [], ◌∷◌, ◌++◌, Option, none, some, Bool,
  true, false, not, ◌&&◌, ◌||◌, ◌==◌, ltb, if◌then◌else◌, update, add64, bit_and,
}

-- What the constructor takes from the configuration.
pub record Config : Type 0 where
  pub size : ℕ
  pub line_size : ℕ
  pub nb_ways : ℕ
  pub hit_latency : ℕ
  pub miss_latency : ℕ
  pub refill_cycles : ℕ
  pub write_cycles : ℕ
  pub store_buffer_size : ℕ
  pub write_allocate : Bool
  pub writeback : Bool
  pub power : Bool

-- `LINE_INVALID`
abbrev pub line_invalid : ℕ
line_invalid = 2 ^ 64 - 1

-- `nb_sets`, `store_buffer_cycles`; a division by zero is undefined in C, and gives 0 here.
abbrev pub nb_sets : Config → ℕ
nb_sets c = c.size / c.line_size / c.nb_ways

abbrev pub store_buffer_cycles : Config → ℕ
store_buffer_cycles c = c.store_buffer_size * c.write_cycles

-- The loop for `line_bits`, from `bits` on.
unfoldable pub line_bits_from : ℕ → ℕ → ℕ → ℕ
line_bits_from zero line_size bits = bits
line_bits_from (suc rounds) line_size bits =
    let more = line_bits_from rounds line_size (bits + 1) in
    if ltb (2 ^ bits) line_size then more else bits

-- `1 << line_bits` of an `int` has 31 bits at most.
abbrev pub line_bits : Config → ℕ
line_bits c = line_bits_from 31 c.line_size 0

-- The state: the arrays are indexed by `set * nb_ways + way`, and the last three fields count the
-- energy quanta.
pub record State : Type 0 where
  pub tags : Array ℕ
  pub lru : Array ℕ
  pub line_ready : Array ℕ
  pub dirty : Array Bool
  pub victims : List ℕ
  pub lru_counter : ℕ
  pub next_level_free : ℕ
  pub nb_read : ℕ
  pub nb_write : ℕ
  pub nb_hit : ℕ
  pub nb_miss : ℕ
  pub nb_latency_cycles : ℕ
  pub nb_writeback : ℕ
  pub read_quanta : ℕ
  pub write_quanta : ℕ
  pub refill_quanta : ℕ

-- `reset(true)`; the quanta are the simulator's and stay.
unfoldable pub reset : State → State
reset s = record s {
  tags = λ i. line_invalid;
  lru = λ i. 0;
  line_ready = λ i. 0;
  dirty = λ i. false;
  victims = [];
  lru_counter = 0;
  next_level_free = 0;
  nb_read = 0;
  nb_write = 0;
  nb_hit = 0;
  nb_miss = 0;
  nb_latency_cycles = 0;
  nb_writeback = 0;
}

-- `line & set_mask`: the number of sets is a power of two.
abbrev pub set_of : Config → ℕ → ℕ
set_of c line = line % nb_sets c

abbrev pub slot : Config → ℕ → ℕ → ℕ
slot c set way = set * c.nb_ways + way

-- `account_energy_quantum` under `power.is_enabled()`
abbrev pub quantum : Config → ℕ → ℕ
quantum c n = if c.power then n + 1 else n

-- The loop over the ways of a set for a tag, from `way` on.
unfoldable pub find : Array ℕ → ℕ → ℕ → ℕ → ℕ → Option ℕ
find tags base line zero way = none
find tags base line (suc rounds) way =
    let rest = find tags base line rounds (way + 1) in
    if tags (base + way) == line then some way else rest

abbrev pub find_way : Config → State → ℕ → Option ℕ
find_way c s line = find s.tags (set_of c line * c.nb_ways) line c.nb_ways 0

-- The loop over the ways for the least recent use, from `way` on; `oldest` is that of `victim`.
unfoldable pub oldest_way : Array ℕ → ℕ → ℕ → ℕ → ℕ → ℕ → ℕ
oldest_way lru base zero way victim oldest = victim
oldest_way lru base (suc rounds) way victim oldest =
    oldest_way lru base rounds (way + 1) (if ltb (lru (base + way)) oldest then way else victim)
      (if ltb (lru (base + way)) oldest then lru (base + way) else oldest)

abbrev pub victim_way : Config → State → ℕ → ℕ
victim_way c s set =
    let base = set * c.nb_ways in oldest_way s.lru base (c.nb_ways - 1) 1 0 (s.lru base)

-- A way is used: its last use is now.
unfoldable pub use_slot : ℕ → State → State
use_slot i s = record s {
  lru = update s.lru i (add64 s.lru_counter 1);
  lru_counter = add64 s.lru_counter 1;
}

-- The victim's tag goes to the victims if the line is dirty, and the slot is clean.
unfoldable pub evict : Config → ℕ → State → State
evict c i s =
    if c.writeback
    then record s {
      victims =
          if not (s.tags i == line_invalid) && s.dirty i
          then s.victims ++ s.tags i ∷ []
          else s.victims;
      dirty = update s.dirty i false;
    }
    else s

unfoldable pub fill_slot : Config → ℕ → ℕ → ℕ → State → State
unfolding evict use_slot
fill_slot c line ready_time i s =
    let e = evict c i s in
    let u = use_slot i (record e { tags = update e.tags i line }) in
    record u { line_ready = update u.line_ready i ready_time }

-- The new state, and the cycle at which the line is readable if it was there.
unfoldable pub lookup : Config → ℕ → Bool → ℕ → State → State × Option ℕ
unfolding use_slot fill_slot
lookup c line allocate ready_time s =
    let set = set_of c line in
    elim (find_way c s line) [
      | some way ↦ (use_slot (slot c set way) s, some (s.line_ready (slot c set way)))
      | none ↦
          if allocate
          then (fill_slot c line ready_time (slot c set (victim_way c s set)) s, none)
          else (s, none)
    ]

-- `line`s from `addr` to `addr + size - 1`; a size of 0 counts as 1.
abbrev pub first_line : Config → ℕ → ℕ
first_line c addr = addr / 2 ^ line_bits c

abbrev pub last_line : Config → ℕ → ℕ → ℕ
last_line c addr size = add64 addr ((if size == 0 then 1 else size) - 1) / 2 ^ line_bits c

-- The number of lines that an access touches.
abbrev pub nb_lines : Config → ℕ → ℕ → ℕ
nb_lines c addr size = last_line c addr size + 1 - first_line c addr

unfoldable pub is_resident : Config → State → ℕ → Bool
is_resident c s line = elim (find_way c s line) [ none ↦ false | some way ↦ true ]

-- The loop of `probe`, from `line` on.
unfoldable pub probe_from : Config → State → ℕ → ℕ → Bool
probe_from c s zero line = true
probe_from c s (suc rounds) line =
    let rest = probe_from c s rounds (line + 1) in if is_resident c s line then rest else false

unfoldable pub probe : Config → ℕ → ℕ → State → Bool
probe c addr size s = probe_from c s (nb_lines c addr size) (first_line c addr)

unfoldable pub mark_dirty : Config → ℕ → State → State
mark_dirty c line s = elim (find_way c s line) [
  | none ↦ s
  | some way ↦ record s { dirty = update s.dirty (slot c (set_of c line) way) true }
]

-- What makes the constructor refuse to run.
unfoldable pub is_valid_geometry : Config → Bool
is_valid_geometry c =
    (2 ^ line_bits c == c.line_size)
    && (bit_and (nb_sets c) (nb_sets c - 1) == 0)
    && (nb_sets c * c.nb_ways * c.line_size == c.size)
    && (not c.writeback || c.write_allocate)

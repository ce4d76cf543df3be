-- ===== src/Cache/Access/Counts.antt =====
-- What `access` of targets/hetero/timing_cache.cpp counts, and what it leaves alone if `probe` says
-- that all lines are there.
use k9r.Base.{
  ℕ, zero, suc, ◌+◌, ◌*◌, ◌%◌, ◌≡◌, refl, ap, ◌∙◌, Option, none, some, Bool, true, false, arith,
  if◌then◌else◌, add64, u64_mod,
}
use k9r.Cache.{
  Config, State, set_of, find, find_way, use_slot, is_resident, probe_from, probe, first_line,
  nb_lines,
}
use k9r.Cache.Access.{
  refill_done, count_access, count_hit, count_miss, transfer, touch, touch_from, store, access,
  store_through,
}
use k9r.Cache.Access.Ways.{touch-cases, store-cases, fill_place, fill_slot-keeps}

-- Hits and misses, modulo 2 ^ 64.
abbrev Counts : ℕ → State → State → Type 0
Counts n s t = (t.nb_hit + t.nb_miss) % u64_mod ≡ (s.nb_hit + s.nb_miss + n) % u64_mod

touch-Counts :
    (c : Config) (now : ℕ) (is_write : Bool) (next_latency line : ℕ) (s : State) (ready : ℕ)
    → Counts 1 s (touch c now is_write next_latency line s ready).0
unfolding count_hit count_miss use_slot transfer
touch-Counts c now is_write next_latency line s ready =
    touch-cases c now is_write next_latency line s ready (λ r. Counts 1 s r.0) (λ w e. omega arith)
      (λ e on.
        omega (
          arith,
          fill_slot-keeps c line (refill_done c now next_latency s) (fill_place c s line) s,
        ))
      (λ e off. omega arith)

touch_from-Counts :
    (c : Config) (now : ℕ) (is_write : Bool) (next_latency rounds line : ℕ) (s : State) (ready : ℕ)
    → Counts rounds s (touch_from c now is_write next_latency rounds line s ready).0
unfolding touch_from
touch_from-Counts c now is_write next_latency zero line s ready = omega arith
touch_from-Counts c now is_write next_latency (suc rounds) line s ready =
    let t = touch c now is_write next_latency line s ready in
    omega (
      arith,
      touch-Counts c now is_write next_latency line s ready,
      touch_from-Counts c now is_write next_latency rounds (line + 1) t.0 t.1,
    )

-- What a line that is there leaves alone.
pub record LeavesLines (s t : State) : Type 0 where
  pub tags : t.tags ≡ s.tags
  pub line_ready : t.line_ready ≡ s.line_ready
  pub dirty : t.dirty ≡ s.dirty
  pub victims : t.victims ≡ s.victims
  pub next_level_free : t.next_level_free ≡ s.next_level_free
  pub nb_miss : t.nb_miss ≡ s.nb_miss

pub resident-none :
    (c : Config) (s : State) (line : ℕ) → find_way c s line ≡ none → is_resident c s line ≡ false
unfolding is_resident
resident-none c s line e = rw (is_resident, e) refl

pub touch-LeavesLines :
    (c : Config) (now : ℕ) (is_write : Bool) (next_latency line : ℕ) (s : State) (ready : ℕ)
    → is_resident c s line ≡ true
    → LeavesLines s (touch c now is_write next_latency line s ready).0
unfolding count_hit use_slot
touch-LeavesLines c now is_write next_latency line s ready here =
    touch-cases c now is_write next_latency line s ready (λ r. LeavesLines s r.0)
      (λ w e. record {
        tags = refl;
        line_ready = refl;
        dirty = refl;
        victims = refl;
        next_level_free = refl;
        nb_miss = refl;
      })
      (λ e on. absurd (ground (arith, resident-none c s line e)))
      (λ e off. absurd (ground (arith, resident-none c s line e)))

pub resident-some :
    (c : Config) (s : State) (line w : ℕ) → find_way c s line ≡ some w → is_resident c s line ≡ true
unfolding is_resident
resident-some c s line w e = rw (is_resident, e) refl

is_resident-tags :
    (c : Config) (s t : State) (line : ℕ)
    → t.tags ≡ s.tags
    → is_resident c t line ≡ is_resident c s line
unfolding is_resident
is_resident-tags c s t line e =
    let answer : Option ℕ → Bool = λ o. elim o [ none ↦ false | some way ↦ true ] in
    ap (λ tags. answer (find tags (set_of c line * c.nb_ways) line c.nb_ways 0)) e

pub probe_from-tags :
    (c : Config) (s t : State) (rounds line : ℕ)
    → t.tags ≡ s.tags
    → probe_from c t rounds line ≡ probe_from c s rounds line
unfolding probe_from
probe_from-tags c s t zero line e = refl
probe_from-tags c s t (suc rounds) line e =
    rw (is_resident-tags c s t line e, probe_from-tags c s t rounds (line + 1) e) refl

pub probe_from-first :
    (c : Config) (s : State) (rounds line : ℕ)
    → probe_from c s (suc rounds) line ≡ true
    → (is_resident c s line ≡ true) × (probe_from c s rounds (line + 1) ≡ true)
unfolding probe_from
probe_from-first c s rounds line h = ground arith

LeavesLines-trans : (s t u : State) → LeavesLines s t → LeavesLines t u → LeavesLines s u
LeavesLines-trans s t u a b = record {
  tags = b.tags ∙ a.tags;
  line_ready = b.line_ready ∙ a.line_ready;
  dirty = b.dirty ∙ a.dirty;
  victims = b.victims ∙ a.victims;
  next_level_free = b.next_level_free ∙ a.next_level_free;
  nb_miss = b.nb_miss ∙ a.nb_miss;
}

LeavesLines-refl : (s : State) → LeavesLines s s
LeavesLines-refl s = record {
  tags = refl;
  line_ready = refl;
  dirty = refl;
  victims = refl;
  next_level_free = refl;
  nb_miss = refl;
}

touch_from-LeavesLines :
    (c : Config) (now : ℕ) (is_write : Bool) (next_latency rounds line : ℕ) (s : State) (ready : ℕ)
    → probe_from c s rounds line ≡ true
    → LeavesLines s (touch_from c now is_write next_latency rounds line s ready).0
unfolding touch_from
touch_from-LeavesLines c now is_write next_latency zero line s ready h = LeavesLines-refl s
touch_from-LeavesLines c now is_write next_latency (suc rounds) line s ready h =
    let t = touch c now is_write next_latency line s ready in
    let (here, rest) = probe_from-first c s rounds line h in
    let one = touch-LeavesLines c now is_write next_latency line s ready here in
    LeavesLines-trans s t.0 (touch_from c now is_write next_latency rounds (line + 1) t.0 t.1).0 one
      (touch_from-LeavesLines c now is_write next_latency rounds (line + 1) t.0 t.1
        (probe_from-tags c s t.0 rounds (line + 1) one.tags ∙ rest))

pub count_access-keeps :
    (c : Config) (is_write : Bool) (s : State)
    → let t = count_access c is_write s in
      (t.nb_hit ≡ s.nb_hit)
      × (t.nb_miss ≡ s.nb_miss)
      × LeavesLines s t
      × (t.nb_read ≡ (if is_write then s.nb_read else add64 s.nb_read 1))
      × (t.nb_write ≡ (if is_write then add64 s.nb_write 1 else s.nb_write))
unfolding count_access
count_access-keeps c true s = (
  refl,
  refl,
  record {
    tags = refl;
    line_ready = refl;
    dirty = refl;
    victims = refl;
    next_level_free = refl;
    nb_miss = refl;
  },
  refl,
  refl,
)
count_access-keeps c false s = (
  refl,
  refl,
  record {
    tags = refl;
    line_ready = refl;
    dirty = refl;
    victims = refl;
    next_level_free = refl;
    nb_miss = refl;
  },
  refl,
  refl,
)

store-counts :
    (c : Config) (now addr size : ℕ) (is_write : Bool) (s : State) (ready : ℕ)
    → let t = (store c now addr size is_write s ready).0 in
      (t.nb_hit ≡ s.nb_hit) × (t.nb_miss ≡ s.nb_miss)
unfolding store_through
store-counts c now addr size is_write s ready =
    store-cases c now addr size is_write s ready
      (λ r. (r.0.nb_hit ≡ s.nb_hit) × (r.0.nb_miss ≡ s.nb_miss)) (λ d back write. (refl, refl))
      (λ through write. (refl, refl)) (λ read. (refl, refl))

pub store-read :
    (c : Config) (now addr size : ℕ) (s : State) (ready : ℕ)
    → store c now addr size false s ready ≡ (s, ready)
unfolding store
store-read c now addr size s ready = refl

-- Every line that an access touches is counted once, as a hit or as a miss, modulo 2 ^ 64.
access-Counts :
    (c : Config) (now addr size : ℕ) (is_write : Bool) (next_latency : ℕ) (s : State)
    → Counts (nb_lines c addr size) s (access c now addr size is_write next_latency s).0
unfolding access
access-Counts c now addr size is_write next_latency s =
    let u = count_access c is_write s in
    let t =
      touch_from c now is_write next_latency (nb_lines c addr size) (first_line c addr) u
        (now + c.hit_latency) in
    omega (
      arith,
      count_access-keeps c is_write s,
      touch_from-Counts c now is_write next_latency (nb_lines c addr size) (first_line c addr) u
          (now + c.hit_latency),
      store-counts c now addr size is_write t.0 t.1,
    )

-- A read of lines that `probe` finds counts no miss, and leaves the lines, their state and the port
-- to the next level alone.
pub access-LeavesLines :
    (c : Config) (now addr size next_latency : ℕ) (s : State)
    → probe c addr size s ≡ true
    → LeavesLines s (access c now addr size false next_latency s).0
unfolding access probe
access-LeavesLines c now addr size next_latency s h =
    let n = nb_lines c addr size in
    let line = first_line c addr in
    let u = count_access c false s in
    let first = (count_access-keeps c false s).2 in
    let t = touch_from c now false next_latency n line u (now + c.hit_latency) in
    let lines : LeavesLines s t.0 = LeavesLines-trans s u t.0 first (
      touch_from-LeavesLines c now false next_latency n line u (now + c.hit_latency)
        (probe_from-tags c s u n line first.tags ∙ h)) in
    rw (store-read c now addr size t.0 t.1) (record {
      tags = lines.tags;
      line_ready = lines.line_ready;
      dirty = lines.dirty;
      victims = lines.victims;
      next_level_free = lines.next_level_free;
      nb_miss = lines.nb_miss;
    })

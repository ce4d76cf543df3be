-- ===== src/Cache/Access/Reads.antt =====
-- How long a read takes by `access` of targets/hetero/timing_cache.cpp: a refill if a line is
-- missing, the hit latency alone if all lines have landed.
use k9r.Base.{ℕ, zero, suc, ◌+◌, ◌≤◌, ◌≡◌, inl, inr, refl, ap, ◌∙◌, true, false, arith, Bool-cases}
use k9r.Cache.{Config, State, slot, set_of, is_resident, probe_from, probe, first_line, nb_lines}
use k9r.Cache.Access.{count_access, touch, touch_from, access}
use k9r.Cache.Access.Ways.{touch-cases}
use k9r.Cache.Access.Latency.{touch_from-IsLater}
use k9r.Cache.Access.Counts.{
  resident-none, resident-some, touch-LeavesLines, probe_from-tags, probe_from-first,
  count_access-keeps, store-read,
}

-- The time of a refill when the port is free.
abbrev pub refill_time : Config → ℕ → ℕ
refill_time c next_latency = next_latency + c.miss_latency + c.refill_cycles

module _ (c : Config) (now next_latency : ℕ) where
  touch-waits :
      (line : ℕ) (s : State) (ready : ℕ)
      → is_resident c s line ≡ false
      → now + refill_time c next_latency ≤ (touch c now false next_latency line s ready).1
  touch-waits line s ready absent =
      touch-cases c now false next_latency line s ready
        (λ r. now + refill_time c next_latency ≤ r.1)
        (λ w e. absurd (ground (arith, resident-some c s line w e))) (λ e on. omega arith)
        (λ e off. absurd (ground arith))

  touch_from-waits :
      (rounds line : ℕ) (s : State) (ready : ℕ)
      → probe_from c s rounds line ≡ false
      → now + refill_time c next_latency
        ≤ (touch_from c now false next_latency rounds line s ready).1
  unfolding touch_from probe_from
  touch_from-waits zero line s ready h = absurd (ground arith)
  touch_from-waits (suc rounds) line s ready h =
      let t = touch c now false next_latency line s ready in
      elim (Bool-cases (is_resident c s line)) [
        | inl here ↦
            let same = touch-LeavesLines c now false next_latency line s ready here in
            touch_from-waits rounds (line + 1) t.0 t.1
              (probe_from-tags c s t.0 rounds (line + 1) same.tags ∙ ground arith)
        | inr absent ↦ omega (
          arith,
          touch-waits line s ready absent,
          touch_from-IsLater c now false next_latency rounds (line + 1) t.0 t.1,
        )
      ]

  -- A line that has landed delays nothing.
  touch-landed :
      (line : ℕ) (s : State) (ready : ℕ)
      → ((i : ℕ) → s.line_ready i ≤ ready)
      → is_resident c s line ≡ true
      → (touch c now false next_latency line s ready).1 ≡ ready
  touch-landed line s ready landed here =
      touch-cases c now false next_latency line s ready (λ r. r.1 ≡ ready)
        (λ w e. omega (arith, landed (slot c (set_of c line) w)))
        (λ e on. absurd (ground (arith, resident-none c s line e)))
        (λ e off. absurd (ground (arith, resident-none c s line e)))

  touch_from-landed :
      (rounds line : ℕ) (s : State) (ready : ℕ)
      → ((i : ℕ) → s.line_ready i ≤ ready)
      → probe_from c s rounds line ≡ true
      → (touch_from c now false next_latency rounds line s ready).1 ≡ ready
  unfolding touch_from
  touch_from-landed zero line s ready landed h = refl
  touch_from-landed (suc rounds) line s ready landed h =
      let t = touch c now false next_latency line s ready in
      let (here, rest) = probe_from-first c s rounds line h in
      let same = touch-LeavesLines c now false next_latency line s ready here in
      let keep = touch-landed line s ready landed here in
      touch_from-landed rounds (line + 1) t.0 t.1
        (λ i. omega (arith, keep, ap (λ f. f i) same.line_ready, landed i))
        (probe_from-tags c s t.0 rounds (line + 1) same.tags ∙ rest)
      ∙ keep

-- A read of which `probe` misses a line takes a refill or longer.
pub read-waits :
    (c : Config) (now addr size next_latency : ℕ) (s : State)
    → probe c addr size s ≡ false
    → refill_time c next_latency ≤ (access c now addr size false next_latency s).1
unfolding access probe
read-waits c now addr size next_latency s miss =
    let u = count_access c false s in
    let same = (count_access-keeps c false s).2 in
    let n = nb_lines c addr size in
    let line = first_line c addr in
    let ready = now + c.hit_latency in
    let t = touch_from c now false next_latency n line u ready in
    omega (
      arith,
      ap (λ r. r.1) (store-read c now addr size t.0 t.1),
      touch_from-waits c now next_latency n line u ready
          (probe_from-tags c s u n line same.tags ∙ miss),
    )

-- A read of which `probe` finds all lines takes exactly the hit latency, whatever the latency of the
-- next level, if all refills have landed by then.
pub read-hits :
    (c : Config) (now addr size next_latency : ℕ) (s : State)
    → probe c addr size s ≡ true
    → ((i : ℕ) → s.line_ready i ≤ now + c.hit_latency)
    → (access c now addr size false next_latency s).1 ≡ c.hit_latency
unfolding access probe
read-hits c now addr size next_latency s found landed =
    let u = count_access c false s in
    let same = (count_access-keeps c false s).2 in
    let n = nb_lines c addr size in
    let line = first_line c addr in
    let ready = now + c.hit_latency in
    let t = touch_from c now false next_latency n line u ready in
    omega (
      arith,
      ap (λ r. r.1) (store-read c now addr size t.0 t.1),
      touch_from-landed c now next_latency n line u ready
          (λ i. omega (arith, ap (λ f. f i) same.line_ready, landed i))
          (probe_from-tags c s u n line same.tags ∙ found),
    )

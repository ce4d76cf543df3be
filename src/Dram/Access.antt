-- ===== src/Dram/Access.antt =====
-- `access` of targets/hetero/dram_core.hpp: a request is widened to whole granules and sent burst by
-- burst, through the write queue if there is one.
pub mod Covers
use k9r.Base.{
  ℕ, zero, suc, ◌+◌, ◌-◌, ◌*◌, ◌/◌, max, Option, none, some, Bool, if◌then◌else◌, ltb, ◌==◌, add64,
}
use k9r.Dram.{Params}
use k9r.Dram.Mapping.{burst_bytes}
use k9r.Dram.Hyper.{HyperBus, access_hyperram}
use k9r.Dram.Queue.{Memory, Limits, Queue, queued}

-- `kind`, of the two that the constructor takes.
pub data Kind : Type 0 where
  dram : Kind
  hyperram : Kind

-- The engine: the memory with its queue, the HyperBus, and the counts of requests.
pub record Device (E : Type 0) : Type 0 where
  pub queue : Queue E
  pub bus : HyperBus
  pub reads : ℕ
  pub writes : ℕ

abbrev pub align : Params → ℕ
align p = max p.granule (burst_bytes p)

abbrev pub at_least_one : ℕ → ℕ
at_least_one size = if size == 0 then 1 else size

-- `addr & ~(align - 1)` and `(addr + size - 1) | (align - 1)`, for an alignment that is a power of
-- two, which the constructor sees to.
abbrev pub first_byte : Params → ℕ → ℕ
first_byte p addr = addr / align p * align p

abbrev pub last_byte : Params → (addr size : ℕ) → ℕ
last_byte p addr size = (add64 addr (size - 1) / align p) * align p + (align p - 1)

abbrev pub count_request : {E : Type 0} → Bool → Device E → Device E
count_request w d = record d {
  writes = if w then add64 d.writes 1 else d.writes;
  reads = if w then d.reads else add64 d.reads 1;
}

-- What the bursts leave, and the completion time.
unfoldable pub complete :
    {E : Type 0} → Params → Device E → Option (Queue E × ℕ) → Option (Device E × ℕ)
complete p d none = none
complete p d (some s) = some (record d { queue = s.0 }, s.1 + (p.ctrl_ps - p.ctrl_ps / 2))

module _ {E : Type 0} (m : Memory E) (l : Limits) where
  -- A burst, and the latest end so far.
  unfoldable pub send_burst : (arrive a : ℕ) → Bool → Queue E × ℕ → Queue E × ℕ
  send_burst arrive a w s =
      let sent : E × ℕ = m.burst arrive a w s.0.engine in
      let through = queued m l arrive a w s.0 in
      let at_once = record s.0 { engine = sent.0 } in
      if ltb 0 l.wq_depth then (through.0, max s.1 through.1) else (at_once, max s.1 sent.1)

  -- The loop over the bursts, from address `a` on; `none` without fuel.
  unfoldable pub send_bursts :
      (bytes arrive last : ℕ) → Bool → (fuel a : ℕ) → Queue E × ℕ → Option (Queue E × ℕ)
  send_bursts bytes arrive last w zero a s = none
  send_bursts bytes arrive last w (suc fuel) a s =
      let rest = send_bursts bytes arrive last w fuel (add64 a bytes) (send_burst arrive a w s) in
      if ltb a last then rest else some s

  -- A round for each byte and one is enough fuel.
  unfoldable pub access_dram :
      Params → (now addr size : ℕ) → Bool → Device E → Option (Device E × ℕ)
  unfolding send_bursts complete
  access_dram p now addr size w d =
      let first = first_byte p addr in
      let last = last_byte p addr size in
      let arrive = now + p.ctrl_ps / 2 in
      complete p d
        (send_bursts (burst_bytes p) arrive last w (last - first + 2) first (d.queue, arrive))

  unfoldable pub access :
      Kind → Params → (now addr size : ℕ) → Bool → Device E → Option (Device E × ℕ)
  unfolding access_dram
  access Kind.dram p now addr size w d =
      access_dram p now addr (at_least_one size) w (count_request w d)
  access Kind.hyperram p now addr size w d =
      let r = access_hyperram p now addr (at_least_one size) d.bus in
      some (record (count_request w d) { bus = r.0 }, r.1)

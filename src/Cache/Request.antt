-- ===== src/Cache/Request.antt =====
-- `req`, `req_writeback`, `timed_fill` and `flush_victims` of targets/hetero/timing_cache.cpp. The
-- next level is a parameter: what it does to its own state `N`, and what it answers. A call of
-- `trace.fatal` is `none`.
pub mod Memory
use k9r.Base.{
  ℕ, ◌+◌, ◌-◌, ◌*◌, ◌^◌, List, [], ◌∷◌, Option, none, some, Bool, true, false, not, ◌&&◌, ◌||◌,
  if◌then◌else◌, add64, u64_mod, ◌%◌,
}
use k9r.Cache.{Config, State, line_bits, first_line, last_line, quantum, probe}
use k9r.Cache.Access.{access}

-- What the cache reads and sets in a `vp::IoReq`.
pub record Request : Type 0 where
  pub addr : ℕ
  pub size : ℕ
  pub is_write : Bool
  pub is_debug : Bool
  pub bytes : List ℕ

-- `vp::IoReqStatus`
pub data Status : Type 0 where
  ok : Status
  invalid : Status
  denied : Status
  pending : Status

-- What the next level leaves in a request: its status, its latency and its bytes.
pub record Answer : Type 0 where
  pub status : Status
  pub latency : ℕ
  pub bytes : List ℕ

-- What the cache makes of it: the latency as it came, `set_exact_latency` or `inc_latency`.
pub data Timing : Type 0 where
  untimed : Timing
  exact : ℕ → Timing
  added : ℕ → Timing

abbrev pub is_ok : Status → Bool
is_ok Status.ok = true
is_ok _ = false

abbrev pub is_invalid : Status → Bool
is_invalid Status.invalid = true
is_invalid _ = false

pub record Reply (N : Type 0) : Type 0 where
  pub cache : State
  pub next : N
  pub answer : Answer
  pub timing : Timing

-- A line's request: all of its bytes.
abbrev pub line_request : Config → ℕ → Bool → Bool → List ℕ → Request
line_request c line is_write is_debug bytes = record {
  addr = line * 2 ^ line_bits c;
  size = 2 ^ line_bits c;
  is_write = is_write;
  is_debug = is_debug;
  bytes = bytes;
}

abbrev pub with_debug : Bool → Request → Request
with_debug b r = record r { is_debug = b }

module _ {N : Type 0} (next : Request → N → N × Answer) where
  -- The refill of all lines that an access touches; the latency of the next level.
  unfoldable pub timed_fill : Config → ℕ → ℕ → N → Option (N × ℕ)
  timed_fill c addr size n =
      let first = first_line c addr * 2 ^ line_bits c in
      let last = last_line c addr size * 2 ^ line_bits c in
      let side_req : Request = record {
        addr = first;
        size = (last + u64_mod - first + 2 ^ line_bits c) % u64_mod;
        is_write = false;
        is_debug = false;
        bytes = [];
      } in
      let r = next side_req n in if is_ok r.1.status then some (r.0, r.1.latency) else none

  -- One line is read untimed and written back: its bytes stay.
  unfoldable pub write_back : Config → ℕ → N → Option N
  write_back c line n =
      let r = next (line_request c line false true []) n in
      let w = next (line_request c line true false r.1.bytes) r.0 in
      if is_ok r.1.status && is_ok w.1.status then some w.0 else none

  abbrev pub count_writeback : Config → State → State
  count_writeback c s = record s {
    nb_writeback = add64 s.nb_writeback 1;
    refill_quanta = quantum c s.refill_quanta;
  }

  -- The loop of `flush_victims`.
  unfoldable pub flush_list : Config → List ℕ → State → N → Option (State × N)
  flush_list c [] s n = some (s, n)
  flush_list c (line ∷ lines) s n = elim (write_back c line n) [
    | none ↦ none
    | some m ↦ flush_list c lines (count_writeback c s) m
  ]

  unfoldable pub flush_victims : Config → State → N → Option (State × N)
  flush_victims c s n = elim (flush_list c s.victims s n) [
    | none ↦ none
    | some (t, m) ↦ some (record t { victims = [] }, m)
  ]

  -- The next level's latency for `access`: the request's own if it went down as a refill, that of
  -- a refill of its own for a store that misses, and else 0.
  unfoldable pub fill_latency : Config → Request → Bool → Answer → N → Option (N × ℕ)
  fill_latency c r resident answer n =
      let fill = timed_fill c r.addr r.size n in
      if not resident && not r.is_write
      then some (n, answer.latency)
      else if not resident
      then fill
      else some (n, 0)

  -- The end of `req_writeback`: after the victims are flushed, and after the refill.
  unfoldable pub reply_exact : Answer → ℕ → Option (State × N) → Option (Reply N)
  reply_exact answer latency none = none
  reply_exact answer latency (some (t, k)) =
      some (record { cache = t; next = k; answer = answer; timing = Timing.exact latency })

  unfoldable pub after_fill :
      Config → ℕ → Request → State → Answer → Option (N × ℕ) → Option (Reply N)
  after_fill c now r s answer none = none
  after_fill c now r s answer (some (m, next_latency)) =
      let a = access c now r.addr r.size r.is_write next_latency s in
      reply_exact answer a.1 (flush_victims c a.0 m)

  -- What `req_writeback` does with what the next level made of the request.
  unfoldable pub answer_writeback :
      Config → ℕ → Request → Bool → State → N × Answer → Option (Reply N)
  answer_writeback c now r resident s (n, answer) =
      if r.is_debug || is_invalid answer.status
      then some (record { cache = s; next = n; answer = answer; timing = Timing.untimed })
      else if not (is_ok answer.status)
      then none
      else after_fill c now r s answer (fill_latency c r resident answer n)

  unfoldable pub req_writeback : Config → ℕ → Request → State → N → Option (Reply N)
  req_writeback c now r s n =
      let resident = probe c r.addr r.size s in
      let is_refill = not resident && not r.is_write in
      answer_writeback c now r resident s (next (with_debug (r.is_debug || not is_refill) r) n)

  -- The write-through part of `req`.
  unfoldable pub req_through : Config → ℕ → Request → State → N → Reply N
  req_through c now r s n =
      let served_here = not r.is_debug && not r.is_write && probe c r.addr r.size s in
      let down = next (with_debug (r.is_debug || served_here) r) n in
      let a = access c now r.addr r.size r.is_write down.1.latency s in
      if r.is_debug || is_invalid down.1.status
      then record { cache = s; next = down.0; answer = down.1; timing = Timing.untimed }
      else record {
        cache = a.0;
        next = down.0;
        answer = down.1;
        timing = if is_ok down.1.status then Timing.exact a.1 else Timing.added a.1;
      }

  unfoldable pub req : Config → ℕ → Request → State → N → Option (Reply N)
  req c now r s n =
      if c.writeback then req_writeback c now r s n else some (req_through c now r s n)

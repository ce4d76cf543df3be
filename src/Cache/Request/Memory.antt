-- ===== src/Cache/Request/Memory.antt =====
-- What a request through the cache of targets/hetero/timing_cache.cpp does to the memory below it.
use mathlib.Core.Path.{subst, fun_ext}
use k9r.Base.{
  u64_mod, ◌%◌, if_both, if_true, if_false, ℕ, zero, suc, ◌+◌, ◌*◌, ◌-◌, ◌^◌, ◌≡◌, ◌∙◌, inl, inr,
  refl, ap, Array, List, [], ◌∷◌, some, Bool, true, false, not, ◌&&◌, ◌||◌, update, update_self,
  update_ne, Bool-cases, ℕ_discrete,
}
use k9r.Cache.{Config, State, line_bits, probe, first_line, last_line}
use k9r.Cache.Access.{access}
use k9r.Cache.Request.{
  Request, Status, Answer, Timing, Reply, is_ok, is_invalid, line_request, with_debug, timed_fill,
  write_back, count_writeback, flush_list, flush_victims, fill_latency, reply_exact, after_fill,
  answer_writeback, req_writeback, req_through, req,
}

-- The bytes from an address on, and a store of bytes.
abbrev pub bytes_at : Array ℕ → ℕ → ℕ → List ℕ
bytes_at m addr zero = []
bytes_at m addr (suc size) = m addr ∷ bytes_at m (addr + 1) size

abbrev pub stores : Array ℕ → ℕ → List ℕ → Array ℕ
stores m addr [] = m
stores m addr (b ∷ bs) = stores (update m addr b) (addr + 1) bs

-- A next level that answers at once and serves reads and stores from a memory, whether they are
-- debug accesses or not.
pub record IsMemory {N : Type 0} (next : Request → N → N × Answer) (mem : N → Array ℕ)
    : Type 0 where
  pub synchronous : (r : Request) (n : N) → (next r n).1.status ≡ Status.ok
  pub read : (r : Request) (n : N) → r.is_write ≡ false → mem (next r n).0 ≡ mem n
  pub fetch :
      (r : Request) (n : N)
      → r.is_write ≡ false
      → (next r n).1.bytes ≡ bytes_at (mem n) r.addr r.size
  pub store :
      (r : Request) (n : N) → r.is_write ≡ true → mem (next r n).0 ≡ stores (mem n) r.addr r.bytes

-- A store leaves its bytes in the memory; a read finds the memory's bytes and leaves it alone.
abbrev pub IsServed : Bool → Request → Array ℕ → Array ℕ → List ℕ → Type 0
IsServed true r before after bytes = after ≡ stores before r.addr r.bytes
IsServed false r before after bytes = (after ≡ before) × (bytes ≡ bytes_at before r.addr r.size)

update_same : (m : Array ℕ) (i : ℕ) → update m i (m i) ≡ m
update_same m i = fun_ext λ j. elim (ℕ_discrete i j) [
  | yes same ↦ subst (λ k. update m i (m i) k ≡ m k) same (update_self m i (m i))
  | no ne ↦ update_ne m i (m i) ne
]

-- Bytes that are stored where they were read change nothing.
stores-bytes_at : (m : Array ℕ) (addr size : ℕ) → stores m addr (bytes_at m addr size) ≡ m
stores-bytes_at m addr zero = refl
stores-bytes_at m addr (suc size) =
    ap (λ k. stores k (addr + 1) (bytes_at m (addr + 1) size)) (update_same m addr)
    ∙ stores-bytes_at m (addr + 1) size

module _ {N : Type 0} (next : Request → N → N × Answer) (mem : N → Array ℕ) (h : IsMemory next mem)
    (c : Config) where
  write_back-memory :
      (line : ℕ) (n : N) → (k : N) × (write_back next c line n ≡ some k) × (mem k ≡ mem n)
  unfolding write_back
  write_back-memory line n =
      let fetch = line_request c line false true [] in
      let r = next fetch n in
      let back = line_request c line true false r.1.bytes in
      (
        (next back r.0).0,
        rw (h.synchronous fetch n, h.synchronous back r.0) refl,
        h.store back r.0 refl
            ∙ rw (h.fetch fetch n refl, h.read fetch n refl)
                (stores-bytes_at (mem n) fetch.addr fetch.size),
      )

  flush_list-memory :
      (lines : List ℕ) (s : State) (n : N)
      → (r : State × N) × (flush_list next c lines s n ≡ some r) × (mem r.1 ≡ mem n)
  unfolding flush_list
  flush_list-memory [] s n = ((s, n), refl, refl)
  flush_list-memory (line ∷ lines) s n =
      let (k, one, same) = write_back-memory line n in
      let (r, more, kept) = flush_list-memory lines (count_writeback next c s) k in
      (r, rw (flush_list, one) more, kept ∙ same)

  flush_victims-memory :
      (s : State) (n : N)
      → (r : State × N) × (flush_victims next c s n ≡ some r)
        × (mem r.1 ≡ mem n)
        × (r.0.victims ≡ [])
  unfolding flush_victims
  flush_victims-memory s n =
      let ((t, k), all, same) = flush_list-memory s.victims s n in
      ((record t { victims = [] }, k), rw (flush_victims, all) refl, same, refl)

  timed_fill-memory :
      (addr size : ℕ) (n : N)
      → (f : N × ℕ) × (timed_fill next c addr size n ≡ some f) × (mem f.0 ≡ mem n)
  unfolding timed_fill
  timed_fill-memory addr size n =
      let first = first_line c addr * 2 ^ line_bits c in
      let last = last_line c addr size * 2 ^ line_bits c in
      let side_req : Request = record {
        addr = first;
        size = (last + u64_mod - first + 2 ^ line_bits c) % u64_mod;
        is_write = false;
        is_debug = false;
        bytes = [];
      } in
      let a = next side_req n in
      ((a.0, a.1.latency), rw (h.synchronous side_req n) refl, h.read side_req n refl)

  fill_latency-memory :
      (r : Request) (resident : Bool) (answer : Answer) (n : N)
      → (f : N × ℕ) × (fill_latency next c r resident answer n ≡ some f) × (mem f.0 ≡ mem n)
  unfolding fill_latency
  fill_latency-memory r true answer n = ((n, 0), refl, refl)
  fill_latency-memory r false answer n = elim (Bool-cases r.is_write) [
    | inl write ↦
        let (f, e, same) = timed_fill-memory r.addr r.size n in
        (f, rw (fill_latency, write) e, same)
    | inr load ↦ ((n, answer.latency), rw (fill_latency, load) refl, refl)
  ]

  -- A request and what it finds and leaves in the memory of the next level.
  unfoldable pub Serves : Request → N → Reply N → Type 0
  Serves r n reply = IsServed r.is_write r (mem n) (mem reply.next) reply.answer.bytes

  -- The request itself goes down once, debug access or not.
  forward-IsServed :
      (r : Request) (debug : Bool) (n : N)
      → let down = next (with_debug debug r) n in
        IsServed r.is_write r (mem n) (mem down.0) down.1.bytes
  forward-IsServed r debug n = as_is_write r.is_write refl
    where
      as_is_write :
          (b : Bool)
          → r.is_write ≡ b
          → let down = next (with_debug debug r) n in IsServed b r (mem n) (mem down.0) down.1.bytes
      as_is_write true write = h.store (with_debug debug r) n write
      as_is_write false load =
          (h.read (with_debug debug r) n load, h.fetch (with_debug debug r) n load)

  req_through-Serves :
      (now : ℕ) (r : Request) (s : State) (n : N) → Serves r n (req_through next c now r s n)
  unfolding req_through Serves
  req_through-Serves now r s n =
      let debug = r.is_debug || (not r.is_debug && not r.is_write && probe c r.addr r.size s) in
      let down = next (with_debug debug r) n in
      let served = forward-IsServed r debug n in
      if_both (Serves r n) (r.is_debug || is_invalid down.1.status) served served

  after_fill-memory :
      (now : ℕ) (r : Request) (s : State) (answer : Answer) (m : N) (next_latency : ℕ)
      → (reply : Reply N) × (after_fill next c now r s answer (some (m, next_latency)) ≡ some reply)
        × (mem reply.next ≡ mem m)
        × (reply.answer ≡ answer)
  unfolding after_fill reply_exact
  after_fill-memory now r s answer m next_latency =
      let a = access c now r.addr r.size r.is_write next_latency s in
      let ((t, k), flushed, kept, empty) = flush_victims-memory a.0 m in
      (
        record { cache = t; next = k; answer = answer; timing = Timing.exact a.1 },
        ap (reply_exact next answer a.1) flushed,
        kept,
        refl,
      )

  answer_writeback-memory :
      (now : ℕ) (r : Request) (resident : Bool) (s : State) (down : N × Answer)
      → down.1.status ≡ Status.ok
      → (reply : Reply N) × (answer_writeback next c now r resident s down ≡ some reply)
        × (mem reply.next ≡ mem down.0)
        × (reply.answer ≡ down.1)
  unfolding answer_writeback
  answer_writeback-memory now r resident s (n, answer) done =
      let (f, e, same) = fill_latency-memory r resident answer n in
      let (reply, filled, kept, answered) = after_fill-memory now r s answer f.0 f.1 in
      elim (Bool-cases (r.is_debug || is_invalid answer.status)) [
        | inl untouched ↦ (
          record { cache = s; next = n; answer = answer; timing = Timing.untimed },
          if_true _ untouched,
          refl,
          refl,
        )
        | inr timed ↦ (
          reply,
          if_false _ timed
              ∙ if_false _ (ap (λ st. not (is_ok st)) done)
              ∙ ap (after_fill next c now r s answer) e
              ∙ filled,
          kept ∙ same,
          answered,
        )
      ]

  -- Below a cache, in either mode, a next level that serves a memory is asked so that each request
  -- gets an answer, which for a read are the bytes of the memory, and a store changes the memory as
  -- it says, a read does not change it, and neither refills nor write-backs do.
  pub req-Serves :
      (now : ℕ) (r : Request) (s : State) (n : N)
      → (reply : Reply N) × (req next c now r s n ≡ some reply) × Serves r n reply
  unfolding req req_writeback Serves
  req-Serves now r s n =
      let resident = probe c r.addr r.size s in
      let debug = r.is_debug || not (not resident && not r.is_write) in
      let served = forward-IsServed r debug n in
      let (reply, e, same, answered) =
        answer_writeback-memory now r resident s (next (with_debug debug r) n)
          (h.synchronous (with_debug debug r) n) in
      elim (Bool-cases c.writeback) [
        | inl back ↦ (reply, if_true _ back ∙ e, rw (same, answered) served)
        | inr through ↦
            (req_through next c now r s n, if_false _ through, req_through-Serves now r s n)
      ]

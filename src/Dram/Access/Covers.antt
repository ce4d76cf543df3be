-- ===== src/Dram/Access/Covers.antt =====
-- The bursts of a request of targets/hetero/dram_core.hpp: which addresses they have, and that the
-- loop over them ends.
use native.Mathlib.Nat.{mod-eq_of_lt, mul-le-mul_right}
use k9r.Base.{
  if◌then◌else◌, max, ℕ, zero, suc, ◌+◌, ◌-◌, ◌*◌, ◌/◌, ◌^◌, ◌≤◌, ◌<◌, ◌≡◌, ◌∙◌, ap, some, Bool,
  arith, for, if_both, ltb, lt→ltb, le→ltb, add64,
}
use k9r.Base.Powers.{blocks_between}
use k9r.Dram.{Params}
use k9r.Dram.Mapping.{burst_bytes}
use k9r.Dram.Queue.{Memory, Limits, Queue, queued}
use k9r.Dram.Access.{
  dram, Device, align, at_least_one, first_byte, last_byte, count_request, send_burst, send_bursts,
  complete, access_dram, access,
}

-- The granules from the one of `addr` to that of the byte `last`, in bursts, `k` to a granule.
granules :
    (g k bytes addr last : ℕ)
    → g ≡ k * bytes
    → addr / g ≤ last / g
    → (n : ℕ) × ((last / g + 1) * g ≡ addr / g * g + n * bytes)
granules g k bytes addr last whole low =
    let d = last / g - addr / g in
    let later : last / g ≡ addr / g + d = omega (arith, low) in
    ((d + 1) * k, omega (arith, ap (λ x. x * g) later, ap (λ x. (d + 1) * x) whole))

module _ {E : Type 0} (m : Memory E) (l : Limits) (w : Bool) (bytes arrive : ℕ) where
  -- A burst at an address, through the queue if there is one; the latest end so far comes along.
  abbrev pub one_burst : (a : ℕ) → Queue E × ℕ → Queue E × ℕ
  one_burst a s =
      let through = queued m l arrive a w s.0 in
      let at_once : E × ℕ = m.burst arrive a w s.0.engine in
      if ltb 0 l.wq_depth
      then (through.0, max s.1 through.1)
      else (record s.0 { engine = at_once.0 }, max s.1 at_once.1)

  -- The bursts of a run of addresses, in their order.
  abbrev pub sent : (first n : ℕ) → Queue E × ℕ → Queue E × ℕ
  sent first n s = for n (λ i. one_burst (first + i * bytes)) s

  sent-later : (first n : ℕ) (s : Queue E × ℕ) → s.1 ≤ (sent first n s).1
  unfolding for
  sent-later first zero s = omega arith
  sent-later first (suc n) s =
      let before = sent-later first n s in
      let r = sent first n s in
      let through = queued m l arrive (first + n * bytes) w r.0 in
      let at_once = m.burst arrive (first + n * bytes) w r.0.engine in
      if_both {A = Queue E × ℕ} (λ x. s.1 ≤ x.1) (ltb 0 l.wq_depth) (omega (arith, before))
        (omega (arith, before))

  -- The loop sends the bursts that are left, `r` of them, after the first `i`.
  send_bursts-sent :
      (first last r i fuel : ℕ) (s : Queue E × ℕ)
      → 1 < bytes
      → last + 1 ≡ first + (i + r) * bytes
      → last + 1 < 2 ^ 64
      → r < fuel
      → send_bursts m l bytes arrive last w fuel (first + i * bytes) (sent first i s)
        ≡ some (sent first (i + r) s)
  unfolding send_bursts send_burst for
  send_bursts-sent first last r i zero s wide ends low enough = absurd (omega arith)
  send_bursts-sent first last zero i (suc fuel) s wide ends low enough =
      let past : last ≤ first + i * bytes = omega (arith, ends) in
      rw (le→ltb (first + i * bytes) last past) (ap (λ j. some (sent first j s)) (omega arith))
  send_bursts-sent first last (suc r) i (suc fuel) s wide ends low enough =
      let more : first + i * bytes < last = omega (arith, ends) in
      let next : add64 (first + i * bytes) bytes ≡ first + suc i * bytes = omega (arith, ends) in
      rw (lt→ltb (first + i * bytes) last more, next)
        (send_bursts-sent first last r (suc i) fuel s wide (omega (arith, ends)) low (omega arith)
          ∙ ap (λ j. some (sent first j s)) (omega arith))

extent_max : (size : ℕ) → at_least_one size ≡ max 1 size
extent_max zero = omega arith
extent_max (suc n) = ground arith

-- A request to the memory, with or without a write queue, ends after the bursts that it needs: those
-- of the granules from that of its first byte to that of its last byte, at consecutive addresses and
-- in their order, and no others. It completes no earlier than the controller's latency after it
-- came. A size of 0 counts as 1. This is for granules of whole bursts, bursts of more than
-- one byte, and a request whose last granule does not reach the end of the 64-bit address space.
pub access-covers :
    {E : Type 0} (m : Memory E) (l : Limits) (p : Params) (k now addr size : ℕ) (w : Bool)
    (d : Device E)
    → align p ≡ k * burst_bytes p
    → 1 < burst_bytes p
    → addr + max 1 size + align p ≤ 2 ^ 64
    → (from upto n : ℕ) × (let arrive = now + p.ctrl_ps / 2 in
        let s = sent m l w (burst_bytes p) arrive (from * align p) n (d.queue, arrive) in
        let done = s.1 + (p.ctrl_ps - p.ctrl_ps / 2) in
        (access m l dram p now addr size w d
          ≡ some (
            record d {
              queue = s.0;
              reads = if w then d.reads else add64 d.reads 1;
              writes = if w then add64 d.writes 1 else d.writes;
            },
            done,
          ))
        × (from * align p + n * burst_bytes p ≡ upto * align p)
        × (from * align p ≤ addr)
        × (addr < (from + 1) * align p)
        × (addr + max 1 size ≤ upto * align p)
        × (upto * align p < addr + max 1 size + align p)
        × (now + p.ctrl_ps ≤ done))
unfolding access access_dram complete for
access-covers {E} m l p k now addr size w d whole wide fits =
    let bytes = burst_bytes p in
    let g = align p in
    let extent : at_least_one size ≡ max 1 size = extent_max size in
    let byte = add64 addr (at_least_one size - 1) in
    let here : byte ≡ addr + max 1 size - 1 =
      mod-eq_of_lt (omega (arith, extent)) ∙ omega (arith, extent) in
    let (order, low, low', high, high') =
      blocks_between g addr byte (omega arith) (omega (arith, here)) in
    let (n, ends) = granules g k bytes addr byte whole order in
    let first = first_byte p addr in
    let last = last_byte p addr (at_least_one size) in
    let arrive = now + p.ctrl_ps / 2 in
    let few : 1 * n ≤ bytes * n = mul-le-mul_right n (omega arith) in
    let loop =
      send_bursts-sent m l w bytes arrive first last n 0 (last - first + 2) (d.queue, arrive) wide
        (omega (arith, ends)) (omega (arith, high, here)) (omega (arith, ends, few)) in
    (
      addr / g,
      byte / g + 1,
      n,
      (
        ap (complete p (count_request w d)) (
            ap (λ a. send_bursts m l bytes arrive last w (last - first + 2) a (d.queue, arrive))
              (omega arith)
            ∙ loop
            ∙ ap (λ j. some (sent m l w bytes arrive first j (d.queue, arrive))) (omega arith)),
        omega (arith, ends),
        low,
        low',
        omega (arith, high', here),
        omega (arith, high, here),
        omega (arith, sent-later m l w bytes arrive first n (d.queue, arrive)),
      ),
    )

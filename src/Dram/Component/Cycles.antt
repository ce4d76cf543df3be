-- ===== src/Dram/Component/Cycles.antt =====
-- The latency in cycles of a request of targets/hetero/dram.cpp.
use native.Mathlib.Nat.{div-add-mod', mod-lt}
use k9r.Base.{
  max, ℕ, ◌+◌, ◌-◌, ◌*◌, ◌^◌, ◌≤◌, ◌<◌, ◌≡◌, ◌∙◌, refl, if_true, if_false, ◌||◌, none, ap, some,
  Bool, false, arith, add64,
}
use k9r.Cache.Request.{Request, Answer, Status, ok, exact, is_ok, is_invalid}
use k9r.Dram.{Params}
use k9r.Dram.Mapping.{burst_bytes}
use k9r.Dram.Queue.{Memory, Limits}
use k9r.Dram.Access.{dram, Device, align, access}
use k9r.Dram.Access.Covers.{access-covers}
use k9r.Dram.Component.{Component, cycles_of, answered, req}

-- Whole cycles cover the time, and one cycle fewer does not.
cycles_of-least :
    (period ps : ℕ)
    → 0 < period
    → (ps ≤ cycles_of period ps * period) × (cycles_of period ps * period < ps + period)
cycles_of-least period ps pos =
    let parts = div-add-mod' (ps + period - 1) period in
    let rest = mod-lt (ps + period - 1) pos in
    (omega (arith, parts, rest), omega (arith, parts, rest))

-- The request without the component around it.
access-later :
    {E : Type 0} (m : Memory E) (l : Limits) (p : Params) (k now addr size : ℕ) (w : Bool)
    (d : Device E)
    → align p ≡ k * burst_bytes p
    → 1 < burst_bytes p
    → addr + max 1 size + align p ≤ 2 ^ 64
    → (after : Device E) × (done : ℕ) × (access m l dram p now addr size w d ≡ some (after, done))
      × (now + p.ctrl_ps ≤ done)
access-later m l p k now addr size w d whole wide fits =
    let (from, upto, bursts, (ends, whole', low, low', high, high', later)) =
      access-covers m l p k now addr size w d whole wide fits in
    (_, _, ends, later)

untaken : {b : Bool} {st : Status} → b ≡ false → st ≡ ok → (b || is_invalid st) ≡ false
untaken plain good = rw (plain, good) refl

-- A request that is not for debugging, and that the memory behind answers at once, is answered with
-- what that memory answers, after the least number of cycles in which the engine's access
-- completes; this is no less than the controller's latency, and is added to the count of cycles.
-- This is for a clock with a period, granules of whole bursts, bursts of more than one
-- byte, and a request whose last granule does not reach the end of the 64-bit address space.
pub req-least :
    {E N : Type 0} (m : Memory E) (l : Limits) (p : Params) (forward : Request → N → N × Answer)
    (k period cycles : ℕ) (r : Request) (s : Component E) (n : N)
    → align p ≡ k * burst_bytes p
    → 1 < burst_bytes p
    → r.addr + max 1 r.size + align p ≤ 2 ^ 64
    → 0 < period
    → r.is_debug ≡ false
    → (forward r n).1.status ≡ ok
    → (d : Device E) × (done : ℕ) × (latency : ℕ) × (access m l dram p
          (cycles * period)
          r.addr
          r.size
          r.is_write
          s.engine
        ≡ some (d, done))
      × (req m l dram p forward period cycles r s n
          ≡ some record {
            component = record {
              engine = d;
              nb_latency_cycles = add64 s.nb_latency_cycles latency;
            };
            next = (forward r n).0;
            answer = (forward r n).1;
            timing = exact latency;
          })
      × (done ≤ cycles * period + latency * period)
      × (cycles * period + latency * period < done + period)
      × (p.ctrl_ps ≤ latency * period)
unfolding req answered
req-least {E} {N} m l p forward k period cycles r s n whole wide fits pos plain good =
    let now = cycles * period in
    let (d, done, ends, later) =
      access-later m l p k now r.addr r.size r.is_write s.engine whole wide fits in
    let latency = cycles_of period (done - now) in
    let (enough, least) = cycles_of-least period (done - now) pos in
    (
      d,
      done,
      latency,
      ends,
      if_false _ (untaken plain good)
          ∙ if_true none (ap is_ok good)
          ∙ ap (answered period now s (forward r n)) ends,
      omega (arith, enough, later),
      omega (arith, least, later),
      omega (arith, enough, later),
    )

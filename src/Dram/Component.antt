-- ===== src/Dram/Component.antt =====
-- `Dram::req` of targets/hetero/dram.cpp: a request goes on to the memory behind, which has the bytes,
-- and the engine gives its latency. A call of `trace.fatal` is `none`.
pub mod Cycles
use k9r.Base.{ℕ, ◌+◌, ◌-◌, ◌*◌, ◌/◌, Option, none, some, ◌||◌, if◌then◌else◌, add64}
use k9r.Cache.Request.{Request, Answer, Timing, untimed, exact, is_ok, is_invalid}
use k9r.Dram.{Params}
use k9r.Dram.Queue.{Memory, Limits}
use k9r.Dram.Access.{Kind, Device, access}

-- The component: its engine, and the count that it prints at the end.
pub record Component (E : Type 0) : Type 0 where
  pub engine : Device E
  pub nb_latency_cycles : ℕ

-- What a request leaves, with the memory behind in a state of type `N`.
pub record Served (E N : Type 0) : Type 0 where
  pub component : Component E
  pub next : N
  pub answer : Answer
  pub timing : Timing

-- A time in whole cycles.
abbrev pub cycles_of : (period ps : ℕ) → ℕ
cycles_of period ps = (ps + period - 1) / period

-- What comes of an access at the time `now`, when the memory behind has answered.
unfoldable pub answered :
    {E N : Type 0}
    → (period now : ℕ) → Component E
    → N × Answer
    → Option (Device E × ℕ)
    → Option (Served E N)
answered period now s down none = none
answered period now s down (some (engine, done)) =
    let latency = cycles_of period (done - now) in
    some record {
      component = record { engine = engine; nb_latency_cycles = add64 s.nb_latency_cycles latency };
      next = down.0;
      answer = down.1;
      timing = exact latency;
    }

module _ {E N : Type 0} (m : Memory E) (l : Limits) (kind : Kind) (p : Params)
    (forward : Request → N → N × Answer) where
  unfoldable pub req : (period cycles : ℕ) → Request → Component E → N → Option (Served E N)
  unfolding answered
  req period cycles r s n =
      let down = forward r n in
      let passed : Option (Served E N) =
        some record { component = s; next = down.0; answer = down.1; timing = untimed } in
      let done =
        answered period (cycles * period) s down
          (access m l kind p (cycles * period) r.addr r.size r.is_write s.engine) in
      if r.is_debug || is_invalid down.1.status
      then passed
      else if is_ok down.1.status
      then done
      else none

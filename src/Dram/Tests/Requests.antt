-- ===== src/Dram/Tests/Requests.antt =====
-- The small memory built, and a request to it.
use k9r.Base.{max, ℕ, ◌+◌, ◌-◌, ◌*◌, ◌/◌, ◌≤◌, ◌<◌, ◌≡◌, refl, [], ◌∷◌, some, false, arith, add64}
use k9r.Dram.Mapping.{log2_from, parse_fields, first_missing, parse_mapping}
use k9r.Dram.Burst.{Engine}
use k9r.Dram.Queue.{Memory}
use k9r.Dram.Queue.Backing.{engine_memory}
use k9r.Dram.Access.{align, dram, Device, access}
use k9r.Dram.Access.Covers.{sent, access-covers}
use k9r.Dram.Build.{Config, dram_engine, fresh_engine, first_not_power, build}
use k9r.Dram.Build.Ready.{IsReady, build-IsReady}
use k9r.Dram.Component.{Component, req}
use k9r.Dram.Component.Cycles.{req-least}
use k9r.Cache.Request.{Request, Answer, ok, exact}
use k9r.Dram.Tests.{lpddr, mapping, mapped, limits}

abbrev config : Config
config = record { kind = some dram; params = lpddr; mapping = mapping; limits = limits }

built : build config ≡ dram_engine mapped (fresh_engine lpddr)
unfolding build first_not_power parse_mapping parse_fields first_missing log2_from
built = refl

build-IsReady_example : IsReady config mapped (fresh_engine lpddr)
build-IsReady_example =
    build-IsReady config mapped (fresh_engine lpddr) built
      record { burst = omega arith; channels = omega arith; banks = omega arith }

abbrev memory : Memory Engine
memory = engine_memory lpddr mapped (omega arith)

abbrev device : Device Engine
device = record {
  queue = record { engine = fresh_engine lpddr; wq = []; leaving = []; merged = 0; forwarded = 0 };
  bus = record { hb_free = 0; bursts = 0; busy_ps = 0 };
  reads = 0;
  writes = 0;
}

-- A read across two granules of two bursts each.
access-covers_example :
    (from upto n : ℕ) × (let s =
        sent memory limits false 32
          (1000 + 20000 / 2)
          (from * align lpddr)
          n
          (device.queue, 1000 + 20000 / 2) in
      let done = s.1 + (20000 - 20000 / 2) in
      (access memory limits dram lpddr 1000 100 40 false device
        ≡ some (record device { queue = s.0; reads = add64 0 1 }, done))
      × (from * align lpddr + n * 32 ≡ upto * align lpddr)
      × (from * align lpddr ≤ 100)
      × (100 < (from + 1) * align lpddr)
      × (100 + max 1 40 ≤ upto * align lpddr)
      × (upto * align lpddr < 100 + max 1 40 + align lpddr)
      × (1000 + 20000 ≤ done))
access-covers_example =
    access-covers memory limits lpddr 2 1000 100 40 false device refl (omega arith) (omega arith)

abbrev reading : Request
reading = record { addr = 100; size = 40; is_write = false; is_debug = false; bytes = [] }

-- A memory behind that answers at once, and counts.
abbrev behind : Request → ℕ → ℕ × Answer
behind r n = (n + 1, record { status = ok; latency = 3; bytes = 7 ∷ 9 ∷ [] })

abbrev component : Component Engine
component = record { engine = device; nb_latency_cycles = 5 }

req-least_example :
    (d : Device Engine) × (done : ℕ) × (latency : ℕ) × (access memory limits dram lpddr
        (3 * 1000)
        100
        40
        false
        device
      ≡ some (d, done))
    × (req memory limits dram lpddr behind 1000 3 reading component 8
        ≡ some record {
          component = record { engine = d; nb_latency_cycles = add64 5 latency };
          next = 9;
          answer = (behind reading 8).1;
          timing = exact latency;
        })
    × (done ≤ 3 * 1000 + latency * 1000)
    × (3 * 1000 + latency * 1000 < done + 1000)
    × (20000 ≤ latency * 1000)
req-least_example =
    req-least memory limits lpddr behind 2 1000 3 reading component 8 refl (omega arith)
      (omega arith) (omega arith) refl refl

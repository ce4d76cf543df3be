-- ===== src/Dram/Queue/Backing.antt =====
-- The engine of targets/hetero/dram_core.hpp as the memory behind its write queue.
use k9r.Base.{◌+◌, ◌<◌, List, true, update}
use k9r.Dram.{Params}
use k9r.Dram.Mapping.{Field, decode}
use k9r.Dram.Refresh.{refresh}
use k9r.Dram.Plan.{plan}
use k9r.Dram.Burst.{Engine, channel_of}
use k9r.Dram.Burst.Ends.{burst-ends}
use k9r.Dram.Queue.{Memory}

-- Every burst ends, with the times of refreshes that burst-ends asks for, so a burst is a function.
abbrev pub engine_memory : (p : Params) → List Field → p.t_rcd + p.t_rfc < p.t_refi → Memory Engine
engine_memory p fs short = record {
  burst = λ t a w e. (burst-ends p fs t a w e short).1;
  order = λ a e. (e.chan (channel_of (decode p fs a))).order;
  refresh = λ t a e.
      let ch = channel_of (decode p fs a) in
      let after = refresh p t (e.chan ch, e.refreshes) in
      record e { chan = update e.chan ch after.0; refreshes = after.1 };
  column = λ t a e. (plan p (e.chan (channel_of (decode p fs a))) (decode p fs a) true t).col;
}

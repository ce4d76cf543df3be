-- ===== src/Host/Wait.antt =====
-- `hes_wait` of runtime/mesh/hes_host.c. What the cluster does meanwhile is an argument: `seen k` is
-- the mailbox at the poll `k`. The reads behind a poll that succeeds are of the same mailbox.
pub mod First
use Prim.Native.String.{String}
use k9r.Base.{
  ℕ, zero, suc, ◌+◌, ◌*◌, ◌^◌, Array, List, [], ◌∷◌, Option, none, some, Bool, true, false, ◌||◌,
  ◌&&◌, ◌==◌, if◌then◌else◌, update, add32,
}
use k9r.Job.{Mailbox, err_none}
use k9r.Host.State.{Host, Line, waiting, gave_up, Result, no_result}
use k9r.Host.Engines.{engines, is_no_cluster}

-- HES_HEARTBEAT_POLLS and HES_MAX_HEARTBEATS
abbrev pub heartbeat_polls : ℕ
heartbeat_polls = 2 ^ 16

abbrev pub max_heartbeats : ℕ
max_heartbeats = 200

-- What the wait for one job is about.
pub record Awaited : Type 0 where
  pub name : String
  pub seq : ℕ
  pub kernel : ℕ

-- The inner loop: the first of `rounds` polls from `k` on that finds the job done.
unfoldable pub poll : (ℕ → Mailbox) → ℕ → ℕ → ℕ → Option ℕ
poll seen seq zero k = none
poll seen seq (suc rounds) k =
    let rest = poll seen seq rounds (k + 1) in if (seen k).done_seq == seq then some k else rest

-- The outer loop, `polls` to a beat; the poll that succeeds, and the lines printed.
unfoldable pub beats : (ℕ → Mailbox) → Awaited → ℕ → ℕ → ℕ → List Line → Option ℕ × List Line
beats seen w polls zero beat log = (none, gave_up w.name w.seq ∷ log)
beats seen w polls (suc left) beat log =
    let line = waiting w.name w.seq w.kernel ((beat + 1) * polls) in
    elim (poll seen w.seq polls (beat * polls)) [
      | some k ↦ (some k, log)
      | none ↦ beats seen w polls left (beat + 1) (line ∷ log)
    ]

-- What is read of the mailbox of a finished job.
abbrev pub result_of : Mailbox → Result
result_of m = record {
  cycles = m.cycles;
  nb_cores = m.nb_cores;
  staged = m.staged;
  ok = if m.trap_cause == 0 && m.error == err_none then 1 else 0;
  error = m.error;
}

-- The end of the wait: the job was found done at a poll, or never. The mailbox is what the cluster
-- has made of it by then.
unfoldable pub conclude : (ℕ → Mailbox) → ℕ → ℕ → Host → Option ℕ × List Line → Host × Result
conclude seen engine total h (some k, log) = (
  record h {
    log = log;
    mbox = update h.mbox engine (seen k);
    busy_cycles = update h.busy_cycles engine (add32 (h.busy_cycles engine) (seen k).cycles);
  },
  result_of (seen k),
)
conclude seen engine total h (none, log) =
    (record h { log = log; mbox = update h.mbox engine (seen total) }, no_result)

-- With the two bounds as arguments.
unfoldable pub wait_for : ℕ → ℕ → (ℕ → Mailbox) → ℕ → Host → Host × Result
wait_for polls left seen engine h =
    let w : Awaited = record {
      name = (engines engine).name;
      seq = h.next_seq engine;
      kernel = (h.mbox engine).kernel_id;
    } in
    let collected : Host = record h { in_flight = update h.in_flight engine 0 } in
    if is_no_cluster engine || h.in_flight engine == 0
    then (h, no_result)
    else conclude seen engine (left * polls) collected (beats seen w polls left 0 h.log)

unfoldable pub wait : (ℕ → Mailbox) → ℕ → Host → Host × Result
wait = wait_for heartbeat_polls max_heartbeats

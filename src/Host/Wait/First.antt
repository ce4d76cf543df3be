-- ===== src/Host/Wait/First.antt =====
-- The two ends of `hes_wait` of runtime/mesh/hes_host.c: a poll that finds the job done, or none.
use mathlib.Core.Path.{subst}
use native.Mathlib.Nat.{le_trans}
use k9r.Base.{
  ◌↔◌, sym, ℕ, zero, suc, ◌+◌, ◌*◌, ◌≤◌, ◌<◌, ◌≡◌, ◌≢◌, ◌∙◌, refl, ap, List, ◌∷◌, Option, none,
  some, false, arith, update, add32, update_self, dec_lt, ne→beq, eq→beq, ℕ_discrete,
}
use k9r.Job.{Mailbox}
use k9r.Host.State.{Host, Line, gave_up, no_result}
use k9r.Host.Engines.{engines, is_no_cluster}
use k9r.Host.Wait.{
  poll, beats, Awaited, conclude, wait_for, wait, result_of, heartbeat_polls, max_heartbeats,
}

module _ (seen : ℕ → Mailbox) (seq : ℕ) where
  abbrev Done : ℕ → Type 0
  Done k = (seen k).done_seq ≡ seq

  -- No poll from `k` up to `i` finds the job done.
  abbrev NotBefore : ℕ → ℕ → Type 0
  NotBefore k i = (j : ℕ) → k ≤ j → j < i → (seen j).done_seq ≢ seq

  poll-first :
      (rounds k i : ℕ)
      → k ≤ i
      → i < k + rounds
      → Done i
      → NotBefore k i
      → poll seen seq rounds k ≡ some i
  unfolding poll
  poll-first zero k i h hi d nb = absurd (omega arith)
  poll-first (suc rounds) k i h hi d nb = elim (ℕ_discrete k i) [
    | yes here ↦ rw (eq→beq (seen k).done_seq seq (ap (λ t. (seen t).done_seq) here ∙ d), here)
    | no later ↦
        rw (ne→beq (seen k).done_seq seq (nb k (omega arith) (omega arith))) (
          poll-first rounds (k + 1) i (omega arith) (omega arith) d (λ j a b. nb j (omega arith) b))
  ]

  poll-none : (rounds k : ℕ) → NotBefore k (k + rounds) → poll seen seq rounds k ≡ none
  unfolding poll
  poll-none zero k nb = refl
  poll-none (suc rounds) k nb =
      rw (ne→beq (seen k).done_seq seq (nb k (omega arith) (omega arith)))
        (poll-none rounds (k + 1) (λ j a b. nb j (omega arith) (omega arith)))

-- The polls of one beat are among those of the beats that are left.
within : (left beat polls : ℕ) → beat * polls + polls ≤ (beat + suc left) * polls
within left beat polls = omega arith

module _ (seen : ℕ → Mailbox) (w : Awaited) (polls : ℕ) where
  beats-first :
      (left beat i : ℕ) (log : List Line)
      → beat * polls ≤ i
      → i < (beat + left) * polls
      → Done seen w.seq i
      → NotBefore seen w.seq (beat * polls) i
      → (beats seen w polls left beat log).0 ≡ some i
  unfolding beats
  beats-first zero beat i log h hi d nb = absurd (omega arith)
  beats-first (suc left) beat i log h hi d nb = elim (dec_lt i (beat * polls + polls)) [
    | yes now ↦ rw (poll-first seen w.seq polls (beat * polls) i h now d nb, beats)
    | no later ↦
        rw (poll-none seen w.seq polls (beat * polls) (λ j a b. nb j a (omega arith)), beats)
          (beats-first left (beat + 1) i _ (omega arith) (omega arith) d
            (λ j a b. nb j (omega arith) b))
  ]

  beats-none :
      (left beat : ℕ) (log : List Line)
      → NotBefore seen w.seq (beat * polls) ((beat + left) * polls)
      → (lines : List Line) × (beats seen w polls left beat log
          ≡ (none, gave_up w.name w.seq ∷ lines))
  unfolding beats
  beats-none zero beat log nb = (log, refl)
  beats-none (suc left) beat log nb =
      let gone =
        poll-none seen w.seq polls (beat * polls)
          (λ j a b. nb j a (le_trans b (within left beat polls))) in
      rw (gone, beats) (beats-none left (beat + 1) _ (λ j a b. nb j (omega arith) (omega arith)))

-- The record of a wait.
abbrev pub awaited : ℕ → Host → Awaited
awaited engine h = record {
  name = (engines engine).name;
  seq = h.next_seq engine;
  kernel = (h.mbox engine).kernel_id;
}

module _ (seen : ℕ → Mailbox) (engine : ℕ) (h : Host) (polls left : ℕ) where
  abbrev outcome : Option ℕ × List Line
  outcome = beats seen (awaited engine h) polls left 0 h.log

  wait_for-eq :
      is_no_cluster engine ≡ false
      → h.in_flight engine ≢ 0
      → wait_for polls left seen engine h
        ≡ conclude seen engine
            (left * polls)
            (record h { in_flight = update h.in_flight engine 0 })
            outcome
  unfolding wait_for
  wait_for-eq ok busy = rw (ok, ne→beq (h.in_flight engine) 0 busy)

  conclude-some :
      (i : ℕ) (g : Host) (o : Option ℕ × List Line)
      → o.0 ≡ some i
      → let (h', r) = conclude seen engine (left * polls) g o in
        (r ≡ result_of (seen i))
        × (h'.busy_cycles engine ≡ add32 (g.busy_cycles engine) (seen i).cycles)
        × (h'.in_flight ≡ g.in_flight)
        × (h'.mbox engine ≡ seen i)
  unfolding conclude
  conclude-some i g (some k, log) e =
      let same : k ≡ i = cc in
      rw same (refl, update_self g.busy_cycles engine _, refl, update_self g.mbox engine _)
  conclude-some i g (none, log) e = cc

  wait_for-collects :
      (i : ℕ)
      → is_no_cluster engine ≡ false
      → h.in_flight engine ≢ 0
      → i < left * polls
      → (seen i).done_seq ≡ h.next_seq engine
      → ((j : ℕ) → j < i → (seen j).done_seq ≢ h.next_seq engine)
      → let (h', r) = wait_for polls left seen engine h in
        (r ≡ result_of (seen i))
        × (h'.busy_cycles engine ≡ add32 (h.busy_cycles engine) (seen i).cycles)
        × (h'.in_flight engine ≡ 0)
        × (h'.mbox engine ≡ seen i)
  wait_for-collects i ok busy hi d nb =
      let found =
        beats-first seen (awaited engine h) polls left 0 i h.log (omega arith) (omega arith) d
          (λ j a b. nb j b) in
      let g : Host = record h { in_flight = update h.in_flight engine 0 } in
      let (r, cycles, flight, m) = conclude-some i g outcome found in
      rw (wait_for-eq ok busy)
        (r, cycles, ap (λ f. f engine) flight ∙ update_self h.in_flight engine 0, m)

  wait_for-gives_up :
      is_no_cluster engine ≡ false
      → h.in_flight engine ≢ 0
      → ((j : ℕ) → j < left * polls → (seen j).done_seq ≢ h.next_seq engine)
      → let (h', r) = wait_for polls left seen engine h in
        (r ≡ no_result)
        × ((lines : List Line) × (h'.log
              ≡ gave_up (engines engine).name (h.next_seq engine) ∷ lines))
        × (h'.in_flight engine ≡ 0)
        × (h'.busy_cycles ≡ h.busy_cycles)
  unfolding conclude
  wait_for-gives_up ok busy nb =
      let (lines, gone) =
        beats-none seen (awaited engine h) polls left 0 h.log (λ j a b. nb j (omega arith)) in
      rw (wait_for-eq ok busy, gone, conclude)
        (refl, (lines, refl), update_self h.in_flight engine 0, refl)

-- The result is the reading of the mailbox at the first poll that finds the job done.
pub wait-result_of :
    (seen : ℕ → Mailbox) (engine : ℕ) (h : Host) (i : ℕ)
    → is_no_cluster engine ≡ false
    → h.in_flight engine ≢ 0
    → i < max_heartbeats * heartbeat_polls
    → (seen i).done_seq ≡ h.next_seq engine
    → ((j : ℕ) → j < i → (seen j).done_seq ≢ h.next_seq engine)
    → let (h', r) = wait seen engine h in
      (r ≡ result_of (seen i))
      × (h'.busy_cycles engine ≡ add32 (h.busy_cycles engine) (seen i).cycles)
      × (h'.in_flight engine ≡ 0)
      × (h'.mbox engine ≡ seen i)
unfolding wait
wait-result_of seen engine h i ok busy hi d nb =
    wait_for-collects seen engine h heartbeat_polls max_heartbeats i ok busy hi d nb

result_of-ok : (m : Mailbox) → ((result_of m).ok ≢ 0) ↔ ((m.trap_cause ≡ 0) × (m.error ≡ 0))
result_of-ok m = ground arith

-- The job is collected: with a job in flight at a cluster, and the mailbox showing its number as
-- done at one of the 200 * 2 ^ 16 polls, the wait returns the cycles, cores, staging and error of
-- the mailbox at the first such poll, and success exactly if that mailbox has neither a trap nor an
-- error; it adds the cycles to the engine's busy count, as a 32-bit number, and the engine has no
-- job in flight after it.
pub wait-collects :
    (seen : ℕ → Mailbox) (engine : ℕ) (h : Host) (i : ℕ)
    → is_no_cluster engine ≡ false
    → h.in_flight engine ≢ 0
    → i < max_heartbeats * heartbeat_polls
    → (seen i).done_seq ≡ h.next_seq engine
    → ((j : ℕ) → j < i → (seen j).done_seq ≢ h.next_seq engine)
    → let (h', r) = wait seen engine h in
      (r.cycles ≡ (seen i).cycles)
      × (r.nb_cores ≡ (seen i).nb_cores)
      × (r.staged ≡ (seen i).staged)
      × (r.error ≡ (seen i).error)
      × ((r.ok ≢ 0) ↔ (((seen i).trap_cause ≡ 0) × ((seen i).error ≡ 0)))
      × (h'.busy_cycles engine ≡ add32 (h.busy_cycles engine) (seen i).cycles)
      × (h'.in_flight engine ≡ 0)
      × (h'.mbox engine ≡ seen i)
wait-collects seen engine h i ok busy hi d nb =
    let (r, cycles, idle, m) = wait-result_of seen engine h i ok busy hi d nb in
    (
      ap (λ x. x.cycles) r,
      ap (λ x. x.nb_cores) r,
      ap (λ x. x.staged) r,
      ap (λ x. x.error) r,
      subst (λ x. (x.ok ≢ 0) ↔ (((seen i).trap_cause ≡ 0) × ((seen i).error ≡ 0))) (sym r)
          (result_of-ok (seen i)),
      cycles,
      idle,
      m,
    )

-- The wait gives up: with a job in flight at a cluster, and none of the 200 * 2 ^ 16 polls showing
-- its number as done, the wait ends, returns a result that is no success, prints so, and the engine
-- has no job in flight after it; its busy count is as before.
pub wait-gives_up :
    (seen : ℕ → Mailbox) (engine : ℕ) (h : Host)
    → is_no_cluster engine ≡ false
    → h.in_flight engine ≢ 0
    → ((j : ℕ) → j < max_heartbeats * heartbeat_polls → (seen j).done_seq ≢ h.next_seq engine)
    → let (h', r) = wait seen engine h in
      (r ≡ no_result)
      × ((lines : List Line) × (h'.log ≡ gave_up (engines engine).name (h.next_seq engine) ∷ lines))
      × (h'.in_flight engine ≡ 0)
      × (h'.busy_cycles ≡ h.busy_cycles)
unfolding wait
wait-gives_up seen engine h ok busy nb =
    wait_for-gives_up seen engine h heartbeat_polls max_heartbeats ok busy nb

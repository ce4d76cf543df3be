-- ===== src/Host/Offload/Accounting.antt =====
-- The failure count of runtime/mesh/hes_host.c.
use Prim.Native.String.{String}
use k9r.Base.{
  ℕ, ◌≡◌, ◌≢◌, ◌⊎◌, ◌∙◌, refl, ap, sym, List, ◌∷◌, Option, none, some, false, arith, update, add32,
  update_self, ne→beq, ◌<◌, ◌*◌,
}
use k9r.Job.{Mailbox, err_none}
use k9r.Host.State.{Host, Line, busy as busy_line, Result, no_result}
use k9r.Host.Engines.{engines, is_no_cluster}
use k9r.Host.Post.{Descriptor, post, publish}
use mathlib.Core.Path.{subst}
use k9r.Host.Post.Effects.{post-eq-publish}
use k9r.Host.Wait.{wait, wait_for, conclude, beats, result_of, max_heartbeats, heartbeat_polls}
use k9r.Host.Wait.First.{awaited, wait-result_of}
use k9r.Host.Offload.{Env, check, offload, offload_checked, await, failures}

-- Posting and waiting count nothing.
failures-post : (engine : ℕ) (d : Descriptor) (h : Host) → failures (post engine d h).0 ≡ failures h
unfolding post publish
failures-post engine d h = ground arith

failures-conclude :
    (seen : ℕ → Mailbox) (engine total : ℕ) (h : Host) (o : Option ℕ × List Line)
    → failures (conclude seen engine total h o).0 ≡ failures h
unfolding conclude
failures-conclude seen engine total h (none, log) = refl
failures-conclude seen engine total h (some k, log) = refl

failures-wait_for :
    (polls left : ℕ) (seen : ℕ → Mailbox) (engine : ℕ) (h : Host)
    → failures (wait_for polls left seen engine h).0 ≡ failures h
unfolding wait_for
failures-wait_for polls left seen engine h = ground (
  arith,
  failures-conclude seen engine (left * polls)
      (record h { in_flight = update h.in_flight engine 0 })
      (beats seen (awaited engine h) polls left 0 h.log),
)

failures-wait :
    (seen : ℕ → Mailbox) (engine : ℕ) (h : Host) → failures (wait seen engine h).0 ≡ failures h
unfolding wait
failures-wait seen engine h = failures-wait_for heartbeat_polls max_heartbeats seen engine h

module _ (env : Env) where
  failures-offload :
      (engine : ℕ) (d : Descriptor) (h : Host) → failures (offload env engine d h).0 ≡ failures h
  unfolding offload await
  failures-offload engine d h = ground (
    arith,
    failures-post engine d h,
    failures-wait (env engine ((post engine d h).0.mbox engine)) engine (post engine d h).0,
  )

  -- Whatever the clusters do, an offload wrapper returns 0 and counts nothing, or returns 1 and
  -- counts one failure; it returns 0 exactly if the result of the offload says so.
  pub offload_checked-counts :
      (engine : ℕ) (what : String) (d : Descriptor) (h : Host)
      → let (h', status) = offload_checked env engine what d h in
        let r = (offload env engine d h).1 in
        ((r.ok ≢ 0) × (status ≡ 0) × (failures h' ≡ failures h))
        ⊎ ((r.ok ≡ 0) × (status ≡ 1) × (failures h' ≡ add32 (failures h) 1))
  unfolding offload_checked check
  offload_checked-counts engine what d h = ground (arith, failures-offload engine d h)

-- A good result is passed on, and a wait with nothing in flight has none.
check-ok :
    (engine : ℕ) (what : String) (r : Result) (h : Host) → r.ok ≢ 0 → check engine what r h ≡ (h, 0)
unfolding check
check-ok engine what r h good = rw (ne→beq r.ok 0 good)

wait-idle :
    (seen : ℕ → Mailbox) (engine : ℕ) (h : Host)
    → h.in_flight engine ≡ 0
    → wait seen engine h ≡ (h, no_result)
unfolding wait wait_for
wait-idle seen engine h idle = ground arith

result_of-ok : (m : Mailbox) → m.trap_cause ≡ 0 → m.error ≡ err_none → (result_of m).ok ≢ 0
result_of-ok m trap err = ground arith

-- Two waits and one job in flight.
waits_count_once :
    (engine : ℕ) (what : String) (h : Host) (seen seen' : ℕ → Mailbox) (i : ℕ)
    → is_no_cluster engine ≡ false
    → h.in_flight engine ≢ 0
    → i < max_heartbeats * heartbeat_polls
    → (seen i).done_seq ≡ h.next_seq engine
    → ((j : ℕ) → j < i → (seen j).done_seq ≢ h.next_seq engine)
    → (result_of (seen i)).ok ≢ 0
    → let (h₁, r₁) = wait seen engine h in
      let (h₂, c₁) = check engine what r₁ h₁ in
      let (h₃, r₂) = wait seen' engine h₂ in
      let (h₄, c₂) = check engine what r₂ h₃ in
      (c₁ ≡ 0) × (c₂ ≡ 1) × (failures h₄ ≡ add32 (failures h) 1)
unfolding check
waits_count_once engine what h seen seen' i ok busy hi d nb good =
    let (r, cycles, idle, m) = wait-result_of seen engine h i ok busy hi d nb in
    let (h₁, r₁) = wait seen engine h in
    let passed : check engine what r₁ h₁ ≡ (h₁, 0) =
      check-ok engine what r₁ h₁ (subst (λ t. t.ok ≢ 0) (sym r) good) in
    let empty : wait seen' engine h₁ ≡ (h₁, no_result) = wait-idle seen' engine h₁ idle in
    rw (passed, empty) ((refl, refl, ap (λ t. add32 t 1) (failures-wait seen engine h)))

-- A post to a busy cluster changes the log only.
post-busy :
    (engine : ℕ) (d : Descriptor) (h : Host)
    → is_no_cluster engine ≡ false
    → h.in_flight engine ≢ 0
    → post engine d h ≡ (record h { log = busy_line (engines engine).name ∷ h.log }, 1)
unfolding post
post-busy engine d h ok busy = rw (ok, ne→beq (h.in_flight engine) 0 busy)

-- A second post before the wait is refused, and the two waits that follow the two posts together
-- count one failure, not two and not none: the first wait collects the job that was posted, which
-- succeeds here, and the second finds nothing in flight. This is for a cluster with no job in
-- flight, and a first job that is seen done, with neither a trap nor an error, within the polls.
pub post_twice_counts_once :
    (engine : ℕ) (what : String) (first second : Descriptor) (h : Host) (seen seen' : ℕ → Mailbox)
    (i : ℕ)
    → is_no_cluster engine ≡ false
    → h.in_flight engine ≡ 0
    → i < max_heartbeats * heartbeat_polls
    → (seen i).done_seq ≡ add32 (h.next_seq engine) 1
    → ((j : ℕ) → j < i → (seen j).done_seq ≢ add32 (h.next_seq engine) 1)
    → (seen i).trap_cause ≡ 0
    → (seen i).error ≡ err_none
    → let (h₁, s₁) = post engine first h in
      let (h₂, s₂) = post engine second h₁ in
      let (h₃, r₁) = wait seen engine h₂ in
      let (h₄, c₁) = check engine what r₁ h₃ in
      let (h₅, r₂) = wait seen' engine h₄ in
      let (h₆, c₂) = check engine what r₂ h₅ in
      (s₁ ≡ 0) × (s₂ ≡ 1) × (c₁ ≡ 0) × (c₂ ≡ 1) × (failures h₆ ≡ add32 (failures h) 1)
unfolding publish
post_twice_counts_once engine what first second h seen seen' i ok idle hi d nb trap err =
    let h₁ : Host = publish engine first h in
    let busy : h₁.in_flight engine ≢ 0 = ground (arith, update_self h.in_flight engine 1) in
    let h₂ : Host = record h₁ { log = busy_line (engines engine).name ∷ h₁.log } in
    let numbered : h₁.next_seq engine ≡ add32 (h.next_seq engine) 1 =
      update_self h.next_seq engine _ in
    let (c₁, c₂, counted) =
      waits_count_once engine what h₂ seen seen' i ok busy hi (d ∙ sym numbered)
        (λ j b e. nb j b (e ∙ numbered)) (result_of-ok (seen i) trap err) in
    rw (post-eq-publish engine first h ok idle, post-busy engine second h₁ ok busy)
      (refl, refl, c₁, c₂, counted)

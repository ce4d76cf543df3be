-- ===== src/App/Kws/Idle.antt =====
-- The `in_flight` flag of runtime/mesh/hes_host.c through waits and offloads, and the buffers of
-- runtime/mesh/kws_main.c.
use Prim.Native.String.{String}
use k9r.Base.{
  ℕ, ◌+◌, ◌%◌, ◌≡◌, ◌≢◌, ◌∙◌, refl, ap, sym, Array, Bool, true, false, not, ◌&&◌, update_self,
  arith, List, Option, none, some, ne→beq, ℕ_discrete,
}
use k9r.Job.{Mailbox}
use k9r.Host.State.{Host, Line, Result}
use k9r.Host.Engines.{is_no_cluster, engine_init}
use k9r.Host.Post.{Descriptor, publish}
use k9r.Host.Post.Effects.{post-eq-publish}
use k9r.Host.Wait.{wait, wait_for, conclude}
use k9r.Host.Offload.{Env, check, await, offload, offload_checked}
use k9r.App.Mnist.{report_absent}

in_flight-conclude :
    (seen : ℕ → Mailbox) (engine total : ℕ) (h : Host) (o : Option ℕ × List Line)
    → (conclude seen engine total h o).0.in_flight ≡ h.in_flight
unfolding conclude
in_flight-conclude seen engine total h (none, log) = refl
in_flight-conclude seen engine total h (some k, log) = refl

in_flight-wait :
    (seen : ℕ → Mailbox) (engine : ℕ) (h : Host)
    → is_no_cluster engine ≡ false
    → (wait seen engine h).0.in_flight engine ≡ 0
unfolding wait wait_for
in_flight-wait seen engine h ok = elim (ℕ_discrete (h.in_flight engine) 0) [
  | yes idle ↦ rw (ok, idle) idle
  | no busy ↦
      rw (ok, ne→beq (h.in_flight engine) 0 busy)
        (ap (λ f. f engine) (in_flight-conclude seen engine _ _ _)
          ∙ update_self h.in_flight engine 0)
]

pub in_flight-check :
    (engine : ℕ) (what : String) (r : Result) (h : Host)
    → (check engine what r h).0.in_flight ≡ h.in_flight
unfolding check
in_flight-check engine what r h = ground arith

-- A checked wait or offload leaves the cluster idle.
pub idle-await :
    (env : Env) (engine : ℕ) (h : Host)
    → is_no_cluster engine ≡ false
    → (await env engine h).0.in_flight engine ≡ 0
unfolding await
idle-await env engine h ok = in_flight-wait _ engine h ok

idle-offload :
    (env : Env) (engine : ℕ) (d : Descriptor) (h : Host)
    → is_no_cluster engine ≡ false
    → h.in_flight engine ≡ 0
    → (offload env engine d h).0.in_flight engine ≡ 0
unfolding offload
idle-offload env engine d h ok idle =
    rw (post-eq-publish engine d h ok idle) (idle-await env engine (publish engine d h) ok)

pub idle-offload_checked :
    (env : Env) (engine : ℕ) (what : String) (d : Descriptor) (h : Host)
    → is_no_cluster engine ≡ false
    → h.in_flight engine ≡ 0
    → (offload_checked env engine what d h).0.in_flight engine ≡ 0
unfolding offload_checked
idle-offload_checked env engine what d h ok idle =
    ap (λ f. f engine)
      (in_flight-check engine what (offload env engine d h).1 (offload env engine d h).0)
    ∙ idle-offload env engine d h ok idle

pub in_flight-report : (e : ℕ) (h : Host) → (report_absent e h).in_flight ≡ h.in_flight
unfolding report_absent
in_flight-report e h = ground arith

pub in_flight-ready : (h : Host) → (engine_init h).in_flight ≡ h.in_flight
unfolding engine_init
in_flight-ready h = refl

-- Clips in a row use different buffers.
pub buffers_apart :
    (n : ℕ) (features : Array ℕ)
    → features 0 ≢ features 1
    → features ((n + 1) % 2) ≢ features (n % 2)
buffers_apart n features apart e = elim (ℕ_discrete (n % 2) 0) [
  | yes even ↦
      let odd : (n + 1) % 2 ≡ 1 = omega arith in
      apart (ap features (sym even) ∙ sym e ∙ ap features odd)
  | no other ↦
      let odd : n % 2 ≡ 1 = omega arith in
      let even : (n + 1) % 2 ≡ 0 = omega arith in
      apart (ap features (sym even) ∙ e ∙ ap features odd)
]

pub both_false : (b : Bool) → b && not true ≡ false
both_false true = refl
both_false false = refl

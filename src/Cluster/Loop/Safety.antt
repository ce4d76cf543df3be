-- ===== src/Cluster/Loop/Safety.antt =====
-- Accepted and refused jobs in `main` of runtime/mesh/cluster_main.c.
use k9r.Base.{
  ℕ, zero, suc, ◌≡◌, ◌≢◌, ◌⊎◌, ◌∙◌, refl, Array, [], Option, none, some, true, false, arith,
}
use k9r.Machine.{Config}
use k9r.Job.{k_none, err_none, err_needs_staging}
use k9r.Cluster.Scratch.{Heap, plan_scratch, reserve_scratch}
use k9r.Cluster.Stage.{Staged}
use k9r.Cluster.Dispatch.{run_slice}
use k9r.Cluster.Loop.{
  Cluster, accept, after_stage, publish, refusal, try_stage, calls, finish, begin_job,
}

-- What staging leaves alone, and what it decides.
record IsStaged (s t : Cluster) (o : Option Staged) : Type 0 where
  mbox : t.mbox ≡ s.mbox
  base : t.scratch_base ≡ s.scratch_base
  served : t.served ≡ s.served
  t0 : t.t0 ≡ s.t0
  unstaged : t.staged ≡ false → (o ≡ none) × (t.active_args ≡ s.mbox.args) × (t.dma ≡ s.dma)

after_stage-IsStaged : (s : Cluster) (o : Option Staged) → IsStaged s (after_stage s o) o
unfolding after_stage
after_stage-IsStaged s none = record {
  mbox = refl;
  base = refl;
  served = refl;
  t0 = refl;
  unstaged = λ _. (refl, refl, refl);
}
after_stage-IsStaged s (some st) = record {
  mbox = refl;
  base = refl;
  served = refl;
  t0 = refl;
  unstaged = λ e. cc;
}

-- The state of a job before it is published.
abbrev prepared : Config → Heap → ℕ → Cluster → Cluster
prepared c heap now s =
    let r = reserve_scratch heap s.mbox.kernel_id s.mbox.args c.nb_compute in
    after_stage (begin_job now r s) (try_stage heap r.cursor s)

prepared-IsStaged :
    (c : Config) (heap : Heap) (now : ℕ) (s : Cluster)
    → let r = reserve_scratch heap s.mbox.kernel_id s.mbox.args c.nb_compute in
      IsStaged (begin_job now r s) (prepared c heap now s) (try_stage heap r.cursor s)
prepared-IsStaged c heap now s = after_stage-IsStaged _ _

-- What accepting a job leaves alone: in the mailbox it writes the error field only, it takes over
-- the job number and the time, and it leaves alone the argument list that the host wrote.
pub accept_frame :
    (c : Config) (heap : Heap) (now : ℕ) (s : Cluster)
    → let t = accept c heap now s in
      (t.mbox ≡ record s.mbox { error = t.mbox.error }) × (t.served ≡ s.mbox.seq) × (t.t0 ≡ now)
unfolding accept publish begin_job
accept_frame c heap now s =
    let p = prepared-IsStaged c heap now s in ground (arith, p.mbox, p.served, p.t0)

-- On a cluster whose kernels see only its own memory, a job that is not staged is refused with
-- HES_ERR_NEEDS_STAGING.
accept-needs_staging :
    (c : Config) (heap : Heap) (now : ℕ) (s : Cluster)
    → c.requires_staging ≡ true
    → (accept c heap now s).staged ≡ false
    → ((accept c heap now s).active_kernel ≡ k_none)
      × ((accept c heap now s).mbox.error ≡ err_needs_staging)
unfolding accept publish refusal
accept-needs_staging c heap now s req un = ground arith

-- A kernel that needs working storage is only run with some: after a job is accepted, either no
-- kernel is active, or the kernel needs none, or the base of the scratch is not null.
pub accept-has_scratch :
    (c : Config) (heap : Heap) (now : ℕ) (s : Cluster)
    → let t = accept c heap now s in
      (t.active_kernel ≡ k_none)
      ⊎ (plan_scratch s.mbox.kernel_id s.mbox.args ≡ 0)
      ⊎ (t.scratch_base ≢ 0)
unfolding accept publish refusal begin_job
accept-has_scratch c heap now s = let p = prepared-IsStaged c heap now s in ground (arith, p.base)

-- A job that is not refused runs the kernel that the host asked for; with no staging its arguments
-- are the host's.
pub accept-runs :
    (c : Config) (heap : Heap) (now : ℕ) (s : Cluster)
    → let t = accept c heap now s in
      t.mbox.error ≡ err_none
      → (t.active_kernel ≡ s.mbox.kernel_id) × (t.staged ≡ false → t.active_args ≡ s.mbox.args)
unfolding accept publish refusal begin_job
accept-runs c heap now s e =
    let p = prepared-IsStaged c heap now s in (ground arith, λ u. (p.unstaged u).1)

pub done_seq-finish :
    (c : Config) (now : ℕ) (s : Cluster) → (finish c now s).mbox.done_seq ≡ s.served
unfolding finish
done_seq-finish c now s = refl

-- No core calls a kernel for HES_K_NONE.
run_slice-none :
    (base stride : ℕ) (a : Array ℕ) (idx nb : ℕ) → run_slice base stride k_none a idx nb ≡ none
unfolding run_slice
run_slice-none base stride a idx nb = refl

calls-none : (c : Config) (s : Cluster) (n : ℕ) → s.active_kernel ≡ k_none → calls c s n ≡ []
unfolding calls
calls-none c s zero e = refl
calls-none c s (suc n) e = ground (
  arith,
  calls-none c s n e,
  run_slice-none s.scratch_base s.scratch_stride s.active_args n c.nb_compute,
)

refused_kernel :
    (c : Config) (heap : Heap) (now : ℕ) (s : Cluster)
    → (accept c heap now s).mbox.error ≢ err_none
    → (accept c heap now s).active_kernel ≡ k_none
unfolding accept publish
refused_kernel c heap now s e = ground arith

-- A refused job runs no kernel on any core, and is still published as done.
pub refused_runs_nothing :
    (c : Config) (heap : Heap) (now later n : ℕ) (s : Cluster)
    → let t = accept c heap now s in
      t.mbox.error ≢ err_none → (calls c t n ≡ []) × ((finish c later t).mbox.done_seq ≡ s.mbox.seq)
refused_runs_nothing c heap now later n s e = (
  calls-none c (accept c heap now s) n (refused_kernel c heap now s e),
  done_seq-finish c later (accept c heap now s) ∙ (accept_frame c heap now s).1,
)

-- ===== src/Cluster/Loop.antt =====
-- `main` of runtime/mesh/cluster_main.c: what the cores of a cluster do to its memory, in the order
-- that the barriers impose. `now` stands for a read of mcycle.
pub mod Safety
use k9r.Base.{
  ℕ, zero, suc, ◌+◌, ◌^◌, ◌%◌, Array, List, [], ◌∷◌, ◌++◌, Option, none, some, Bool, true, false,
  not, ◌&&◌, ◌==◌, if◌then◌else◌, sub32, bit_or,
}
use k9r.Machine.{Config}
use k9r.Job.{Mailbox, mbox_magic, k_none, err_none, err_needs_staging, err_no_scratch}
use k9r.Dma.{Dma}
use k9r.Cluster.Scratch.{Heap, Reserved, plan_scratch, reserve_scratch}
use k9r.Cluster.Stage.{Placed, Moved, Staged, stage_in, stage_out}
use k9r.Cluster.Dispatch.{Call, run_slice}

-- The mailbox, the globals, and the variables that the control core keeps across jobs. `ops` holds
-- the placed operands of the job while `staged` is set.
pub record Cluster : Type 0 where
  pub mbox : Mailbox
  pub active_args : Array ℕ
  pub active_kernel : ℕ
  pub scratch_base : ℕ
  pub scratch_stride : ℕ
  pub served : ℕ
  pub ops : List Placed
  pub staged : Bool
  pub t0 : ℕ
  pub dma : Dma

-- The loop in which core after core sets its bit.
unfoldable pub sign_in : ℕ → ℕ → ℕ
sign_in zero mask = mask
sign_in (suc n) mask = bit_or (sign_in n mask) (2 ^ n)

-- What is done once, before the job loop.
unfoldable pub boot : Config → Mailbox → Mailbox
unfolding sign_in
boot c m = record m {
  alive_mask = sign_in c.nb_core 0;
  trap_cause = 0;
  done_seq = 0;
  seq = 0;
  nb_cores = c.nb_core;
  magic = mbox_magic;
}

-- `mbox->flags & HES_JOB_STAGE`
abbrev pub wants_staging : Mailbox → Bool
wants_staging m = not (m.flags % 2 == 0)

-- The staging of a job, if it is asked for and succeeds.
unfoldable pub try_stage : Heap → ℕ → Cluster → Option Staged
try_stage heap cursor s =
    if wants_staging s.mbox
    then stage_in s.mbox.kernel_id s.mbox.args heap.limit cursor
        (record { active = s.mbox.args; dma = s.dma })
    else none

-- Whether the job is refused, and why.
unfoldable pub refusal : Config → Bool → Bool → ℕ → ℕ
refusal c staged want_scratch scratch_base =
    if c.requires_staging && not staged
    then err_needs_staging
    else if want_scratch && (scratch_base == 0)
    then err_no_scratch
    else err_none

-- The state after staging: with the main-memory arguments if it failed.
unfoldable pub after_stage : Cluster → Option Staged → Cluster
after_stage s none = record s { active_args = s.mbox.args; staged = false; ops = [] }
after_stage s (some st) = record s {
  active_args = st.moved.active;
  staged = true;
  ops = st.ops;
  dma = st.moved.dma;
}

-- The `error` field and the kernel that the cores are told to run.
unfoldable pub publish : ℕ → ℕ → Cluster → Cluster
publish kernel error s = record s {
  mbox = record s.mbox { error = error };
  active_kernel = if error == err_none then kernel else k_none;
}

-- The state before staging: the job number, the time, and the scratch.
unfoldable pub begin_job : ℕ → Reserved → Cluster → Cluster
begin_job now r s = record s {
  served = s.mbox.seq;
  t0 = now;
  scratch_base = r.base;
  scratch_stride = r.stride;
}

-- A job is accepted: from `served = mbox->seq` to the barrier that releases the compute cores.
unfoldable pub accept : Config → Heap → ℕ → Cluster → Cluster
accept c heap now s =
    let kernel = s.mbox.kernel_id in
    let r = reserve_scratch heap kernel s.mbox.args c.nb_compute in
    let want_scratch = not (plan_scratch kernel s.mbox.args == 0) in
    let staged = after_stage (begin_job now r s) (try_stage heap r.cursor s) in
    publish kernel (refusal c staged.staged want_scratch r.base) staged

-- The `while` on the doorbell: `none` while there is no new job.
unfoldable pub wake : Config → Heap → ℕ → Cluster → Option Cluster
wake c heap now s = if s.mbox.seq == s.served then none else some (accept c heap now s)

-- The calls of the compute cores between the two barriers, by compute index below `n`.
unfoldable pub calls : Config → Cluster → ℕ → List Call
calls c s zero = []
calls c s (suc n) =
    let rest = calls c s n in
    elim (run_slice s.scratch_base s.scratch_stride s.active_kernel s.active_args n c.nb_compute) [
      | none ↦ rest
      | some call ↦ rest ++ call ∷ []
    ]

abbrev pub as_word : Bool → ℕ
as_word b = if b then 1 else 0

-- The results go out and the job is published as done.
unfoldable pub finish : Config → ℕ → Cluster → Cluster
finish c now s = record s {
  dma = if s.staged then stage_out s.mbox.args s.ops s.dma else s.dma;
  mbox = record s.mbox {
    cycles = sub32 now s.t0;
    staged = as_word s.staged;
    nb_cores = c.nb_compute;
    done_seq = s.served;
  };
}

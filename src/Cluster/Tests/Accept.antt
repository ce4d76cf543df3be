-- ===== src/Cluster/Tests/Accept.antt =====
-- Jobs that a cluster takes, and jobs that it refuses.
use k9r.Cluster.Tests.Jobs.{mfcc_args, heap, mm_mbox, at_doorbell}
use k9r.Base.{◌≡◌, ◌≢◌, ◌⊎◌, refl, [], arith, length}
use k9r.Machine.{snitch, spatz}
use k9r.Job.{k_none, k_mfcc_fp32}
use k9r.Cluster.Slice.{slice}
use k9r.Cluster.Scratch.{Heap, plan_scratch, reserve_scratch, carve}
use k9r.Cluster.Dispatch.{run_slice}
use k9r.Cluster.Slice.{slice}
use k9r.Cluster.Operands.{plan_operands}
use k9r.Cluster.Stage.{stage_in, stage_ops, place, stage_placed, load}
use k9r.Cluster.Loop.{
  Cluster, accept, calls, finish, after_stage, try_stage, begin_job, publish, refusal,
}
use k9r.Cluster.Loop.Safety.{accept-has_scratch, refused_runs_nothing}

-- A job for Spatz that does not ask for staging, and one that does not fit.
abbrev unstaged : Cluster
unstaged = at_doorbell (record mm_mbox { flags = 0 })

-- A front-end job with no room for its working storage.
abbrev cramped : Heap
cramped = record { start = 0x10000210; limit = 0x10001000 }

abbrev mfcc_job : Cluster
mfcc_job = at_doorbell (record mm_mbox { kernel_id = 5; nargs = 15; args = mfcc_args })

cramped_refuses :
    ((accept snitch cramped 5 mfcc_job).mbox.error ≡ 2)
    × ((accept snitch heap 5 mfcc_job).mbox.error ≡ 0)
unfolding accept after_stage try_stage begin_job publish refusal reserve_scratch carve plan_scratch
cramped_refuses = (refl, refl)

scratch_of_job :
    let t = accept snitch cramped 5 mfcc_job in
    (t.active_kernel ≡ k_none) ⊎ (plan_scratch k_mfcc_fp32 mfcc_args ≡ 0) ⊎ (t.scratch_base ≢ 0)
scratch_of_job = accept-has_scratch snitch cramped 5 mfcc_job

unstaged_runs_nothing :
    (calls spatz (accept spatz heap 5 unstaged) 8 ≡ [])
    × ((finish spatz 9 (accept spatz heap 5 unstaged)).mbox.done_seq ≡ 1)
unfolding accept after_stage try_stage begin_job publish refusal
unstaged_runs_nothing = refused_runs_nothing spatz heap 5 9 8 unstaged (omega arith)

-- Eight cores share ten rows, staged.
served_mm : length (calls snitch (accept snitch heap 5 (at_doorbell mm_mbox)) 8) ≡ 8
unfolding accept after_stage try_stage begin_job publish refusal reserve_scratch carve plan_scratch
    calls run_slice slice stage_in stage_ops plan_operands place stage_placed load
served_mm = refl

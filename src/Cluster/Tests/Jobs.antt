-- ===== src/Cluster/Tests/Jobs.antt =====
-- Jobs and states on which the cluster's theorems are tried.
use k9r.Base.{ℕ, Array, array_of, [], ◌∷◌, false}
use k9r.Job.{Mailbox}
use k9r.Dma.{Dma}
use k9r.Cluster.Scratch.{Heap}
use k9r.Cluster.Loop.{Cluster}

-- Y[10][8] = A[10][4] * B[4][8], in main memory.
abbrev pub mm_args : Array ℕ
mm_args = array_of (0x80000000 ∷ 0x80001000 ∷ 0x80002000 ∷ 10 ∷ 4 ∷ 8 ∷ []) 0

abbrev pub mfcc_args : Array ℕ
mfcc_args =
    array_of
      (0x80000000 ∷ 0x80010000 ∷ 3 ∷ 400 ∷ 160 ∷ 512 ∷ 1 ∷ 2 ∷ 3 ∷ 4 ∷ 5 ∷ 40 ∷ 6 ∷ 10 ∷ 300 ∷ []) 0

abbrev pub heap : Heap
heap = record { start = 0x10000210; limit = 0x10017000 }

abbrev pub idle_dma : Dma
idle_dma = record { src = 0; dst = 0; src_stride = 0; dst_stride = 0; reps = 0; issued = [] }

abbrev pub mm_mbox : Mailbox
mm_mbox = record {
  magic = 0x48455331;
  alive_mask = 511;
  seq = 1;
  kernel_id = 2;
  nargs = 6;
  done_seq = 0;
  cycles = 0;
  trap_cause = 0;
  nb_cores = 9;
  flags = 1;
  staged = 0;
  error = 0;
  args = mm_args;
  probe = λ _. 0;
}

abbrev pub at_doorbell : Mailbox → Cluster
at_doorbell m = record {
  mbox = m;
  active_args = λ _. 0;
  active_kernel = 0;
  scratch_base = 0;
  scratch_stride = 0;
  served = 0;
  ops = [];
  staged = false;
  t0 = 0;
  dma = idle_dma;
}

-- ===== src/Job.antt =====
-- What a job is: the kernels of runtime/mesh/hes_job.h and runtime/mesh/hes_mailbox.h, the slots
-- of their argument lists, and the descriptor that crosses the mailbox.
use k9r.Base.{ℕ, Array, ◌==◌, if◌then◌else◌}
pub mod Mm
pub mod Gemm
pub mod Conv
pub mod Mfcc

-- `HES_ERR_*`
abbrev pub err_none : ℕ
err_none = 0

abbrev pub err_needs_staging : ℕ
err_needs_staging = 1

abbrev pub err_no_scratch : ℕ
err_no_scratch = 2

-- `HES_K_*`
abbrev pub k_none : ℕ
k_none = 0

abbrev pub k_probe : ℕ
k_probe = 1

abbrev pub k_matmul_fp32 : ℕ
k_matmul_fp32 = 2

abbrev pub k_gemm_fp32 : ℕ
k_gemm_fp32 = 3

abbrev pub k_conv2d_fp32 : ℕ
k_conv2d_fp32 = 4

abbrev pub k_mfcc_fp32 : ℕ
k_mfcc_fp32 = 5

-- The cases of the `switch (kernel)` of the cluster runtime; `other` is its `default`.
pub data Kernel : Type 0 where
  matmul gemm conv2d mfcc other : Kernel

abbrev pub kernel_of : ℕ → Kernel
kernel_of k =
    if k == k_matmul_fp32
    then matmul
    else if k == k_gemm_fp32
    then gemm
    else if k == k_conv2d_fp32
    then conv2d
    else if k == k_mfcc_fp32
    then mfcc
    else other

-- `HES_JOB_STAGE`: the lowest bit of `flags`.
abbrev pub job_stage : ℕ
job_stage = 1

abbrev pub mbox_magic : ℕ
mbox_magic = 0x48455331

-- `hes_mailbox_t`
pub record Mailbox : Type 0 where
  pub magic : ℕ
  pub alive_mask : ℕ
  pub seq : ℕ
  pub kernel_id : ℕ
  pub nargs : ℕ
  pub done_seq : ℕ
  pub cycles : ℕ
  pub trap_cause : ℕ
  pub nb_cores : ℕ
  pub flags : ℕ
  pub staged : ℕ
  pub error : ℕ
  pub args : Array ℕ
  pub probe : Array ℕ

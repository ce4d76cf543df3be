-- ===== src/Host/Offload.antt =====
-- Offloading a job and counting what goes wrong: `hes_offload`, `hes_check` and the kernel wrappers
-- of runtime/mesh/hes_host.c. What the clusters do is the argument `env`: `env engine m k` is what
-- the posted mailbox `m` has become at the poll `k`.
pub mod Accounting
use Prim.Native.String.{String}
use k9r.Base.{
  ℕ, zero, suc, ◌+◌, ◌*◌, ◌^◌, Array, List, [], ◌∷◌, Option, none, some, Bool, true, false, ◌||◌,
  ◌&&◌, ◌==◌, if◌then◌else◌, update, add32, sub32, array_of,
}
use k9r.Job.{Mailbox, err_none, job_stage, k_matmul_fp32, k_gemm_fp32, k_conv2d_fp32, k_mfcc_fp32}
use k9r.Job.Mm
use k9r.Job.Gemm
use k9r.Job.Conv
use k9r.Job.Mfcc
use k9r.Host.State.{Host, Line, failed, progress, Result, no_result}
use k9r.Host.Engines.{engine_name}
use k9r.Host.Post.{Descriptor, post}
use k9r.Host.Wait.{wait}

-- What is known of the clusters.
abbrev pub Env : Type 0
Env = ℕ → Mailbox → ℕ → Mailbox

-- `hes_check`: the new state, and 1 if the result is a failure.
unfoldable pub check : ℕ → String → Result → Host → Host × ℕ
check engine what r h =
    if r.ok == 0
    then (
      record h {
        failure_count = add32 h.failure_count 1;
        log = failed what (engine_name engine) r.error ∷ h.log;
      },
      1,
    )
    else (h, 0)

-- `hes_failures`
abbrev pub failures : Host → ℕ
failures h = h.failure_count

unfoldable pub set_sample : ℕ → ℕ → Host → Host
set_sample idx total h = record h { sample_idx = idx; sample_total = total }

-- `hes_node_end`; `now` is the read of mcycle.
pub node_end : ℕ → String → ℕ → ℕ → ℕ → Host → Host
node_end idx op engine t0 now h = record h {
  log = progress h.sample_idx h.sample_total idx op engine (sub32 now t0) ∷ h.log;
}

-- `hes_mfcc_job_t`
pub record MfccJob : Type 0 where
  pub audio : ℕ
  pub out : ℕ
  pub nb_frames : ℕ
  pub frame_len : ℕ
  pub hop : ℕ
  pub fft_len : ℕ
  pub window : ℕ
  pub twiddles : ℕ
  pub mel_coeff : ℕ
  pub mel_start : ℕ
  pub mel_len : ℕ
  pub nb_mel : ℕ
  pub dct : ℕ
  pub nb_cep : ℕ
  pub mel_coeffs : ℕ

abbrev staged_job : ℕ → List ℕ → ℕ → Descriptor
staged_job kernel args nargs = record {
  kernel = kernel;
  args = array_of args 0;
  nargs = nargs;
  flags = job_stage;
}

abbrev pub matmul_job : (a b y m n o : ℕ) → Descriptor
matmul_job a b y m n o = staged_job k_matmul_fp32 (a ∷ b ∷ y ∷ m ∷ n ∷ o ∷ []) Mm.nargs

abbrev pub gemm_job : (a b c y m n o trans_a trans_b : ℕ) → Descriptor
gemm_job a b c y m n o trans_a trans_b =
    staged_job k_gemm_fp32 (a ∷ b ∷ c ∷ y ∷ m ∷ n ∷ o ∷ trans_a ∷ trans_b ∷ []) Gemm.nargs

abbrev pub conv2d_job : (a c h w weights f p q sp sq bias has_bias y : ℕ) → Descriptor
conv2d_job a c h w weights f p q sp sq bias has_bias y =
    staged_job k_conv2d_fp32
      (a ∷ c ∷ h ∷ w ∷ weights ∷ f ∷ p ∷ q ∷ sp ∷ sq ∷ bias ∷ has_bias ∷ y ∷ []) Conv.nargs

-- `mfcc_args`
abbrev pub mfcc_args : MfccJob → List ℕ
mfcc_args j =
    j.audio ∷ j.out ∷ j.nb_frames ∷ j.frame_len ∷ j.hop ∷ j.fft_len ∷ j.window ∷ j.twiddles
    ∷ j.mel_coeff ∷ j.mel_start ∷ j.mel_len ∷ j.nb_mel ∷ j.dct ∷ j.nb_cep ∷ j.mel_coeffs ∷ []

abbrev pub mfcc_job : MfccJob → Descriptor
mfcc_job j = staged_job k_mfcc_fp32 (mfcc_args j) Mfcc.nargs

-- `hes_post_mfcc`
unfoldable pub post_mfcc : ℕ → MfccJob → Host → Host × ℕ
post_mfcc engine j = post engine (mfcc_job j)

module _ (env : Env) where
  -- The wait that follows a post, in the state that the post has left.
  unfoldable pub await : ℕ → Host → Host × Result
  await engine h = wait (env engine (h.mbox engine)) engine h

  unfoldable pub offload : ℕ → Descriptor → Host → Host × Result
  offload engine d h =
      let (posted, status) = post engine d h in
      if status == 0 then await engine posted else (posted, no_result)

  unfoldable pub offload_checked : ℕ → String → Descriptor → Host → Host × ℕ
  offload_checked engine what d h = let (h', r) = offload engine d h in check engine what r h'

  pub offload_matmul : ℕ → (a b y m n o : ℕ) → Host → Host × ℕ
  offload_matmul engine a b y m n o = offload_checked engine "MatMul" (matmul_job a b y m n o)

  pub offload_gemm : ℕ → (a b c y m n o trans_a trans_b : ℕ) → Host → Host × ℕ
  offload_gemm engine a b c y m n o trans_a trans_b =
      offload_checked engine "Gemm" (gemm_job a b c y m n o trans_a trans_b)

  pub offload_conv2d : ℕ → (a c h w weights f p q sp sq bias has_bias y : ℕ) → Host → Host × ℕ
  offload_conv2d engine a c h w weights f p q sp sq bias has_bias y =
      offload_checked engine "Conv2d" (conv2d_job a c h w weights f p q sp sq bias has_bias y)

  unfoldable pub offload_mfcc : ℕ → MfccJob → Host → Host × ℕ
  offload_mfcc engine j = offload_checked engine "Mfcc" (mfcc_job j)

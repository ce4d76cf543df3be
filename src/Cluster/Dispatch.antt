-- ===== src/Cluster/Dispatch.antt =====
-- `run_slice` of runtime/mesh/cluster_main.c: the kernel call that one compute core makes for its
-- share of a job. The kernels are called here, not run.
pub mod Regions
pub mod Parts
pub mod Once
use k9r.Base.{
  ℕ, ◌<◌, Array, Option, none, some, Bool, ◌==◌, not, ltb, if◌then◌else◌, add32, sub32, mul32,
}
use k9r.Job.{Kernel, kernel_of}
use k9r.Job.Mm
use k9r.Job.Gemm
use k9r.Job.Conv
use k9r.Job.Mfcc
use k9r.Cluster.Slice.{Range, slice}
use k9r.Cluster.Operands.{float_bytes, out_extent}

-- A call of a kernel, with the parameters of its C signature in order.
pub data Call : Type 0 where
  matmul : (a b y m n o : ℕ) → Call
  gemm : (a b c y m n o trans_a trans_b : ℕ) → Call
  conv2d : (a c h w b f p q sp sq bias : ℕ) → (has_bias : Bool) → (y : ℕ) → Call
  mfcc :
      (audio out nb_frames frame_len hop fft_len window twiddles mel_coeff mel_start mel_len nb_mel
        dct nb_cep scratch : ℕ)
      → Call

-- `base + first * extent * sizeof(float32_t)`
abbrev pub row_addr : ℕ → ℕ → ℕ → ℕ
row_addr base first extent = add32 base (mul32 (mul32 first extent) float_bytes)

abbrev matmul_call : Array ℕ → Range → Call
matmul_call a r =
    matmul (row_addr (a Mm.a) r.first (a Mm.n)) (a Mm.b) (row_addr (a Mm.y) r.first (a Mm.o))
      (sub32 r.last r.first) (a Mm.n) (a Mm.o)

abbrev gemm_call : Array ℕ → Range → Call
gemm_call a r =
    gemm (row_addr (a Gemm.a) r.first (a Gemm.n)) (a Gemm.b)
      (row_addr (a Gemm.c) r.first (a Gemm.o)) (row_addr (a Gemm.y) r.first (a Gemm.o))
      (sub32 r.last r.first) (a Gemm.n) (a Gemm.o) (a Gemm.trans_a) (a Gemm.trans_b)

abbrev conv2d_call : Array ℕ → Range → Call
conv2d_call a r =
    let h_out = out_extent (a Conv.h) (a Conv.p) (a Conv.sp) in
    let w_out = out_extent (a Conv.w) (a Conv.q) (a Conv.sq) in
    let weights =
      mul32 (mul32 (mul32 (mul32 r.first (a Conv.c)) (a Conv.p)) (a Conv.q)) float_bytes in
    let pixels = mul32 (mul32 (mul32 r.first h_out) w_out) float_bytes in
    conv2d (a Conv.a) (a Conv.c) (a Conv.h) (a Conv.w) (add32 (a Conv.b) weights)
      (sub32 r.last r.first) (a Conv.p) (a Conv.q) (a Conv.sp) (a Conv.sq)
      (add32 (a Conv.bias) (mul32 r.first float_bytes)) (not (a Conv.has_bias == 0))
      (add32 (a Conv.y) pixels)

abbrev mfcc_call : ℕ → ℕ → Array ℕ → ℕ → Range → Call
mfcc_call scratch_base scratch_stride a idx r =
    mfcc (row_addr (a Mfcc.audio) r.first (a Mfcc.hop))
      (row_addr (a Mfcc.out) r.first (a Mfcc.nb_cep)) (sub32 r.last r.first) (a Mfcc.frame_len)
      (a Mfcc.hop) (a Mfcc.fft_len) (a Mfcc.window) (a Mfcc.twiddles) (a Mfcc.mel_coeff)
      (a Mfcc.mel_start) (a Mfcc.mel_len) (a Mfcc.nb_mel) (a Mfcc.dct) (a Mfcc.nb_cep)
      (add32 scratch_base (mul32 idx scratch_stride))

-- `if (first >= last) return;`
abbrev pub unless_empty : Range → Call → Option Call
unless_empty r call = if ltb r.first r.last then some call else none

-- With `transA` the whole job falls to core 0.
abbrev pub gemm_range : Array ℕ → ℕ → ℕ → Range
gemm_range a idx nb =
    if a Gemm.trans_a == 0
    then slice (a Gemm.m) idx nb
    else record { first = 0; last = if idx == 0 then a Gemm.m else 0 }

-- The cases of the `switch`; `scratch_base` and `scratch_stride` are the globals.
module _ (scratch_base scratch_stride : ℕ) where
  unfoldable pub run_kernel : Kernel → Array ℕ → ℕ → ℕ → Option Call
  run_kernel Kernel.matmul a idx nb =
      let r = slice (a Mm.m) idx nb in unless_empty r (matmul_call a r)
  run_kernel Kernel.gemm a idx nb = let r = gemm_range a idx nb in unless_empty r (gemm_call a r)
  run_kernel Kernel.conv2d a idx nb =
      let r = slice (a Conv.f) idx nb in unless_empty r (conv2d_call a r)
  run_kernel Kernel.mfcc a idx nb =
      let r = slice (a Mfcc.nb_frames) idx nb in
      unless_empty r (mfcc_call scratch_base scratch_stride a idx r)
  run_kernel Kernel.other a idx nb = none

  unfoldable pub run_slice : ℕ → Array ℕ → ℕ → ℕ → Option Call
  unfolding run_kernel
  run_slice kernel a idx nb = run_kernel (kernel_of kernel) a idx nb

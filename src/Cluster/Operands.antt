-- ===== src/Cluster/Operands.antt =====
-- Which buffers a job reads and writes: `operands_t`, `op_add` and `plan_operands` of
-- runtime/mesh/cluster_main.c. The parallel arrays of `operands_t` are one list.
pub mod Sizes
use k9r.Base.{
  ℕ, ◌/◌, ◌+◌, Array, List, [], ◌∷◌, ◌++◌, Bool, true, false, ◌==◌, if◌then◌else◌, add32, sub32,
  mul32,
}
use k9r.Job.{Kernel, matmul, gemm, conv2d, mfcc, other, kernel_of}
use k9r.Job.Mm
use k9r.Job.Gemm
use k9r.Job.Conv
use k9r.Job.Mfcc

pub record Operand : Type 0 where
  pub arg : ℕ
  pub is_output : Bool
  pub bytes : ℕ

-- The length of the arrays of `operands_t`.
abbrev pub max_operands : ℕ
max_operands = 8

abbrev pub op_add : List Operand → ℕ → Bool → ℕ → List Operand
op_add o arg is_output bytes = o ++ record { arg = arg; is_output = is_output; bytes = bytes } ∷ []

-- `sizeof(float32_t)`
abbrev pub float_bytes : ℕ
float_bytes = 4

-- `(H - P) / SP + 1`. Division by a zero stride is undefined in C; here it gives 0.
abbrev pub out_extent : ℕ → ℕ → ℕ → ℕ
out_extent extent window stride = add32 (sub32 extent window / stride) 1

abbrev pub mul32₃ : ℕ → ℕ → ℕ → ℕ
mul32₃ a b c = mul32 (mul32 a b) c

abbrev mul32₄ : ℕ → ℕ → ℕ → ℕ → ℕ
mul32₄ a b c d = mul32 (mul32₃ a b c) d

abbrev plan_matmul : Array ℕ → List Operand
plan_matmul a =
    let m = a Mm.m in
    let n = a Mm.n in
    let o = a Mm.o in
    let with_a = op_add [] Mm.a false (mul32₃ m n float_bytes) in
    let with_b = op_add with_a Mm.b false (mul32₃ n o float_bytes) in
    op_add with_b Mm.y true (mul32₃ m o float_bytes)

abbrev plan_gemm : Array ℕ → List Operand
plan_gemm a =
    let m = a Gemm.m in
    let n = a Gemm.n in
    let o = a Gemm.o in
    let with_a = op_add [] Gemm.a false (mul32₃ m n float_bytes) in
    let with_b = op_add with_a Gemm.b false (mul32₃ n o float_bytes) in
    let with_c = op_add with_b Gemm.c false (mul32₃ m o float_bytes) in
    op_add with_c Gemm.y true (mul32₃ m o float_bytes)

abbrev plan_conv2d : Array ℕ → List Operand
plan_conv2d a =
    let h_out = out_extent (a Conv.h) (a Conv.p) (a Conv.sp) in
    let w_out = out_extent (a Conv.w) (a Conv.q) (a Conv.sq) in
    let f = a Conv.f in
    let with_a = op_add [] Conv.a false (mul32₄ (a Conv.c) (a Conv.h) (a Conv.w) float_bytes) in
    let weights = mul32 (mul32₄ f (a Conv.c) (a Conv.p) (a Conv.q)) float_bytes in
    let with_b = op_add with_a Conv.b false weights in
    let with_y = op_add with_b Conv.y true (mul32₄ f h_out w_out float_bytes) in
    if a Conv.has_bias == 0 then with_y else op_add with_y Conv.bias false (mul32 f float_bytes)

abbrev plan_mfcc : Array ℕ → List Operand
plan_mfcc a =
    let frames = a Mfcc.nb_frames in
    let frame_len = a Mfcc.frame_len in
    let nb_mel = a Mfcc.nb_mel in
    let nb_cep = a Mfcc.nb_cep in
    let samples = add32 (mul32 (sub32 frames 1) (a Mfcc.hop)) frame_len in
    let o₁ = op_add [] Mfcc.audio false (mul32 samples float_bytes) in
    let o₂ = op_add o₁ Mfcc.out true (mul32₃ frames nb_cep float_bytes) in
    let o₃ = op_add o₂ Mfcc.window false (mul32 frame_len float_bytes) in
    let o₄ = op_add o₃ Mfcc.twiddles false (mul32 (a Mfcc.fft_len) float_bytes) in
    let o₅ = op_add o₄ Mfcc.mel_coeff false (mul32 (a Mfcc.mel_coeffs) float_bytes) in
    let o₆ = op_add o₅ Mfcc.mel_start false (mul32 nb_mel 2) in
    let o₇ = op_add o₆ Mfcc.mel_len false (mul32 nb_mel 2) in
    op_add o₇ Mfcc.dct false (mul32₃ nb_cep nb_mel float_bytes)

-- The cases of the `switch`.
unfoldable pub plan_kernel : Kernel → Array ℕ → List Operand
plan_kernel matmul a = plan_matmul a
plan_kernel gemm a = plan_gemm a
plan_kernel conv2d a = plan_conv2d a
plan_kernel mfcc a = plan_mfcc a
plan_kernel other a = []

unfoldable pub plan_operands : ℕ → Array ℕ → List Operand
unfolding plan_kernel
plan_operands kernel a = plan_kernel (kernel_of kernel) a

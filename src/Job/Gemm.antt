-- ===== src/Job/Gemm.antt =====
-- The argument slots of Gemm_fp32_fp32_fp32_fp32, runtime/mesh/hes_job.h.
use k9r.Base.{ℕ}

abbrev pub a : ℕ
a = 0

abbrev pub b : ℕ
b = 1

abbrev pub c : ℕ
c = 2

abbrev pub y : ℕ
y = 3

abbrev pub m : ℕ
m = 4

abbrev pub n : ℕ
n = 5

abbrev pub o : ℕ
o = 6

abbrev pub trans_a : ℕ
trans_a = 7

abbrev pub trans_b : ℕ
trans_b = 8

abbrev pub nargs : ℕ
nargs = 9

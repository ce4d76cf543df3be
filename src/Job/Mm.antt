-- ===== src/Job/Mm.antt =====
-- The argument slots of MatMul_fp32_fp32_fp32, runtime/mesh/hes_job.h.
use k9r.Base.{ℕ}

abbrev pub a : ℕ
a = 0

abbrev pub b : ℕ
b = 1

abbrev pub y : ℕ
y = 2

abbrev pub m : ℕ
m = 3

abbrev pub n : ℕ
n = 4

abbrev pub o : ℕ
o = 5

abbrev pub nargs : ℕ
nargs = 6

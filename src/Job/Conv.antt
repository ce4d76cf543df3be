-- ===== src/Job/Conv.antt =====
-- The argument slots of Conv2d_fp32_fp32_fp32_NCHW, runtime/mesh/hes_job.h.
use k9r.Base.{ℕ}

abbrev pub a : ℕ
a = 0

abbrev pub c : ℕ
c = 1

abbrev pub h : ℕ
h = 2

abbrev pub w : ℕ
w = 3

abbrev pub b : ℕ
b = 4

abbrev pub f : ℕ
f = 5

abbrev pub p : ℕ
p = 6

abbrev pub q : ℕ
q = 7

abbrev pub sp : ℕ
sp = 8

abbrev pub sq : ℕ
sq = 9

abbrev pub bias : ℕ
bias = 10

abbrev pub has_bias : ℕ
has_bias = 11

abbrev pub y : ℕ
y = 12

abbrev pub nargs : ℕ
nargs = 13

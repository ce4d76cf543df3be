-- ===== src/Cluster/Dispatch/Parts.antt =====
-- The share of a job's output that falls to a core: its range of rows, and the part they make.
use native.Mathlib.Nat.{eq_of_mul-eq-mul_left}
use k9r.Base.{
  ℕ, ◌+◌, ◌-◌, ◌*◌, ◌≤◌, ◌<◌, ◌≡◌, ap, inl, inr, Array, some, arith, u32_mod, Bool-cases, sub32,
  ◌==◌, lt→ltb,
}
use k9r.Job.{Kernel}
use k9r.Job.Gemm
use k9r.Job.Mm
use k9r.Job.Conv
use k9r.Job.Mfcc
use k9r.Cluster.Slice.{Range}
use k9r.Cluster.Slice.Cover.{slice_inside, slice_covers_once}
use k9r.Cluster.Dispatch.{Call, unless_empty}
use k9r.Cluster.Dispatch.Regions.{Rows, output_of_job, row_bytes, range_of}

abbrev pub Within : Range → ℕ → Type 0
Within r count = (r.first ≤ r.last) × (r.last ≤ count)

abbrev pub InRange : Range → ℕ → Type 0
InRange r row = (r.first ≤ row) × (row < r.last)

pub range_of-Within :
    (k : Kernel) (a : Array ℕ) (idx nb : ℕ)
    → (output_of_job k a).count < u32_mod
    → idx < nb
    → Within (range_of k a idx nb) (output_of_job k a).count
range_of-Within Kernel.matmul a idx nb h hi = slice_inside (a Mm.m) idx nb h hi
range_of-Within Kernel.gemm a idx nb h hi = ground (arith, slice_inside (a Gemm.m) idx nb)
range_of-Within Kernel.conv2d a idx nb h hi = slice_inside (a Conv.f) idx nb h hi
range_of-Within Kernel.mfcc a idx nb h hi = slice_inside (a Mfcc.nb_frames) idx nb h hi
range_of-Within Kernel.other a idx nb h hi = omega arith

-- The one core whose range has a row.
abbrev pub Owner : Kernel → Array ℕ → ℕ → ℕ → Type 0
Owner k a nb row =
    (idx : ℕ) × (idx < nb)
    × InRange (range_of k a idx nb) row
    × ((j : ℕ) → j < nb → InRange (range_of k a j nb) row → j ≡ idx)

gemm-Owner :
    (a : Array ℕ) (nb row : ℕ)
    → a Gemm.m < u32_mod
    → 0 < nb
    → row < a Gemm.m
    → Owner Kernel.gemm a nb row
gemm-Owner a nb row h pos hr = elim (Bool-cases (a Gemm.trans_a == 0)) [
  | inl plain ↦ rw plain (slice_covers_once (a Gemm.m) nb row h pos hr)
  | inr trans ↦ rw trans ((0, pos, omega arith, λ j hj inside. ground arith))
]

pub owner :
    (k : Kernel) (a : Array ℕ) (nb row : ℕ)
    → (output_of_job k a).count < u32_mod
    → 0 < nb
    → row < (output_of_job k a).count
    → Owner k a nb row
owner Kernel.matmul a nb row h pos hr = slice_covers_once (a Mm.m) nb row h pos hr
owner Kernel.gemm a nb row h pos hr = gemm-Owner a nb row h pos hr
owner Kernel.conv2d a nb row h pos hr = slice_covers_once (a Conv.f) nb row h pos hr
owner Kernel.mfcc a nb row h pos hr = slice_covers_once (a Mfcc.nb_frames) nb row h pos hr
owner Kernel.other a nb row h pos hr = absurd (omega arith)

-- The output of a call is the core's range of the job's output.
pub record IsPart (j : Rows) (r : Range) (part : Rows) : Type 0 where
  pub addr : part.addr ≡ j.addr + r.first * row_bytes j
  pub count : part.count ≡ r.last - r.first
  pub width : part.width ≡ j.width

-- A row of the range at its place in the part, and back.
pub part_row :
    (j part : Rows) (r : Range) (row : ℕ)
    → IsPart j r part
    → r.first ≤ row
    → part.addr + (row - r.first) * row_bytes part ≡ j.addr + row * row_bytes j
part_row j part r row p h =
    let apart : r.first + (row - r.first) ≡ row = omega arith in
    omega
      (arith, p.addr, ap (λ t. (row - r.first) * (t * 4)) p.width, ap (λ t. t * row_bytes j) apart)

pub part_row_inv :
    (j part : Rows) (r : Range) (row i : ℕ)
    → IsPart j r part
    → 0 < j.width
    → i < part.count
    → part.addr + i * row_bytes part ≡ j.addr + row * row_bytes j
    → InRange r row
part_row_inv j part r row i p wide hi e =
    let shifted : row_bytes j * (r.first + i) ≡ row_bytes j * row =
      omega (arith, p.addr, ap (λ t. i * (t * 4)) p.width) in
    let same : r.first + i ≡ row =
      eq_of_mul-eq-mul_left (row_bytes j) (omega arith) (r.first + i) row shifted in
    omega (arith, p.count)

pub unless_empty-some : (r : Range) (c : Call) → r.first < r.last → unless_empty r c ≡ some c
unless_empty-some r c ne = rw (lt→ltb r.first r.last ne)

pub unless_empty-inv :
    (r : Range) (c : Call) {d : Call} → unless_empty r c ≡ some d → r.first < r.last
unless_empty-inv r c e = ground arith

-- The two lengths of a range agree where it does not pass 2 ^ 32.
pub part_count :
    (r : Range) (count : ℕ)
    → Within r count
    → count < u32_mod
    → sub32 r.last r.first ≡ r.last - r.first
part_count r count w h = omega arith

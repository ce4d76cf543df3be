-- ===== src/Cluster/Dispatch/Regions.antt =====
-- Where the kernels called by `run_slice` of runtime/mesh/cluster_main.c write.
use native.Mathlib.Nat.{mul-le-mul_right}
use k9r.Base.{ℕ, ◌+◌, ◌*◌, ◌≤◌, ◌<◌, ◌≡◌, ap, Array, arith, u32_mod, add32, mul32, mul32-u32}
use k9r.Job.{Kernel}
use k9r.Job.Mm
use k9r.Job.Gemm
use k9r.Job.Conv
use k9r.Job.Mfcc
use k9r.Cluster.Slice.{Range, slice}
use k9r.Cluster.Operands.{out_extent}
use k9r.Cluster.Dispatch.{Call, matmul, gemm, conv2d, mfcc, row_addr, gemm_range}

-- Rows of `width` floats, one after the other from `addr` on.
pub record Rows : Type 0 where
  pub addr : ℕ
  pub count : ℕ
  pub width : ℕ

abbrev pub plane : ℕ → ℕ → ℕ → ℕ → ℕ → ℕ → ℕ
plane h w p q sp sq = out_extent h p sp * out_extent w q sq

-- What a call writes, by the documentation of its kernel.
abbrev pub output_of : Call → Rows
output_of (matmul a b y m n o) = record { addr = y; count = m; width = o }
output_of (gemm a b c y m n o ta tb) = record { addr = y; count = m; width = o }
output_of (conv2d a c h w b f p q sp sq bias has_bias y) = record {
  addr = y;
  count = f;
  width = plane h w p q sp sq;
}
output_of (mfcc audio out frames fl hop fft w tw mc ms ml nb_mel dct nb_cep scratch) = record {
  addr = out;
  count = frames;
  width = nb_cep;
}

-- What the whole job writes.
abbrev pub output_of_job : Kernel → Array ℕ → Rows
output_of_job Kernel.matmul a = record { addr = a Mm.y; count = a Mm.m; width = a Mm.o }
output_of_job Kernel.gemm a = record { addr = a Gemm.y; count = a Gemm.m; width = a Gemm.o }
output_of_job Kernel.conv2d a = record {
  addr = a Conv.y;
  count = a Conv.f;
  width = plane (a Conv.h) (a Conv.w) (a Conv.p) (a Conv.q) (a Conv.sp) (a Conv.sq);
}
output_of_job Kernel.mfcc a = record {
  addr = a Mfcc.out;
  count = a Mfcc.nb_frames;
  width = a Mfcc.nb_cep;
}
output_of_job Kernel.other a = record { addr = 0; count = 0; width = 0 }

abbrev pub row_bytes : Rows → ℕ
row_bytes r = r.width * 4

-- The output of the job is in the address space.
abbrev pub InSpace : Rows → Type 0
InSpace r = (r.addr + r.count * row_bytes r < u32_mod) × (r.count < u32_mod)

-- The rows that a core takes.
abbrev pub range_of : Kernel → Array ℕ → ℕ → ℕ → Range
range_of Kernel.matmul a idx nb = slice (a Mm.m) idx nb
range_of Kernel.gemm a idx nb = gemm_range a idx nb
range_of Kernel.conv2d a idx nb = slice (a Conv.f) idx nb
range_of Kernel.mfcc a idx nb = slice (a Mfcc.nb_frames) idx nb
range_of Kernel.other a idx nb = record { first = 0; last = 0 }

pub row_addr_lem :
    (base first count width : ℕ)
    → first ≤ count
    → base + count * (width * 4) < u32_mod
    → row_addr base first width ≡ base + first * (width * 4)
row_addr_lem base first count width h fits =
    omega (arith, mul32-u32 (first * width) 4, mul-le-mul_right (width * 4) h)

pub plane_addr_lem :
    (base first count h w : ℕ)
    → first ≤ count
    → base + count * (h * w * 4) < u32_mod
    → add32 base (mul32 (mul32 (mul32 first h) w) 4) ≡ base + first * (h * w * 4)
plane_addr_lem base first count h w le fits = omega (
  arith,
  mul32-u32 (mul32 first h * w) 4,
  mul32-u32 (first * h) (w),
  ap (λ t. t * 4) (mul32-u32 (first * h) w),
  mul32-u32 (first * h * w) 4,
  mul-le-mul_right (h * w * 4) le,
)

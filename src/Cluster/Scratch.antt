-- ===== src/Cluster/Scratch.antt =====
-- Per-core working storage: `plan_scratch` and `reserve_scratch` of runtime/mesh/cluster_main.c.
-- `__heap_start` and `__heap_end` are the linker's: they are the fields of `Heap`.
pub mod Slabs
use k9r.Base.{ℕ, ◌+◌, ◌*◌, ◌/◌, Array, ◌==◌, ltb, if◌then◌else◌, add32, mul32, align64}
use k9r.Job.{k_mfcc_fp32}
use k9r.Job.Mfcc
use k9r.Cluster.Operands.{float_bytes}

pub record Heap : Type 0 where
  pub start : ℕ
  pub limit : ℕ

-- `MFCC_SCRATCH_ELEMS` of runtime/common/mfcc.h.
abbrev pub scratch_elems : ℕ → ℕ → ℕ
scratch_elems fft_len nb_mel = add32 (mul32 2 fft_len) nb_mel

unfoldable pub plan_scratch : ℕ → Array ℕ → ℕ
plan_scratch kernel a =
    if kernel == k_mfcc_fp32
    then mul32 (scratch_elems (a Mfcc.fft_len) (a Mfcc.nb_mel)) float_bytes
    else 0

-- The globals `scratch_base` and `scratch_stride`, and the cursor that is returned.
pub record Reserved : Type 0 where
  pub base : ℕ
  pub stride : ℕ
  pub cursor : ℕ

-- The body of `reserve_scratch`, from the size that one core needs.
unfoldable pub carve : Heap → ℕ → ℕ → Reserved
carve heap per_core nb_compute =
    let cursor = align64 heap.start in
    let slab = align64 per_core in
    let after = add32 cursor (mul32 slab nb_compute) in
    let nothing : Reserved = record { base = 0; stride = 0; cursor = cursor } in
    if per_core == 0
    then nothing
    else if ltb heap.limit after
    then nothing
    else record { base = cursor; stride = slab; cursor = after }

unfoldable pub reserve_scratch : Heap → ℕ → Array ℕ → ℕ → Reserved
reserve_scratch heap kernel a nb_compute = carve heap (plan_scratch kernel a) nb_compute

-- ===== src/Cluster/Scratch/Slabs.antt =====
-- The slabs of `reserve_scratch` of runtime/mesh/cluster_main.c.
use native.Mathlib.Nat.{mul-le-mul_left, mul-le-mul_right}
use mathlib.Core.Path.{subst}
use k9r.Job.{k_mfcc_fp32}
use k9r.Job.Mfcc
use k9r.Base.{
  ◌/◌, refl, ap, inl, inr, Bool-cases, if_true, if◌then◌else◌, ◌==◌, ℕ, ◌+◌, ◌*◌, ◌%◌, ◌≤◌, ◌<◌,
  ◌≡◌, ◌≢◌, ◌⊎◌, ◌↔◌, Array, arith, u32_mod, mul32, align64, add32,
}
use k9r.Cluster.Scratch.{Heap, plan_scratch, carve, reserve_scratch}

-- A heap whose bounds are addresses with room for the alignment.
pub record IsHeap (heap : Heap) : Type 0 where
  pub start_pos : 0 < heap.start
  pub ordered : heap.start + 63 ≤ heap.limit
  pub limit_word : heap.limit < u32_mod

align64_bounds :
    (x : ℕ) → x + 63 < u32_mod → (x ≤ align64 x) × (align64 x ≤ x + 63) × (align64 x % 64 ≡ 0)
align64_bounds x h = omega arith

-- One slab after alignment, and all of them.
slabs-le :
    (per_core nb : ℕ)
    → 0 < nb
    → (per_core + 63) * nb < u32_mod
    → (per_core + 63 < u32_mod) × (align64 per_core * nb ≤ (per_core + 63) * nb)
slabs-le per_core nb pos h =
    let one : (per_core + 63) * 1 ≤ (per_core + 63) * nb = mul-le-mul_left (per_core + 63) pos in
    let fits : per_core + 63 < u32_mod = omega arith in
    (fits, mul-le-mul_right nb (align64_bounds per_core fits).1)

carve_slabs :
    {heap : Heap} (per_core nb : ℕ)
    → IsHeap heap
    → 0 < nb
    → (heap.start + 63) + (per_core + 63) * nb < u32_mod
    → let r = carve heap per_core nb in
      r.base ≢ 0
      → (heap.start ≤ r.base)
        × (r.base % 64 ≡ 0)
        × (r.stride % 64 ≡ 0)
        × (per_core ≤ r.stride)
        × (r.cursor ≡ r.base + r.stride * nb)
        × (r.cursor ≤ heap.limit)
unfolding carve
carve_slabs {heap} per_core nb h pos small =
    let (fits, all) = slabs-le per_core nb pos (omega arith) in
    ground (arith, all, align64_bounds per_core fits, align64_bounds heap.start)

-- The bytes that a core's call of a kernel works in: the MFCC has the two halves of the FFT and the
-- mel bands, in floats, and no other kernel has any.
abbrev pub needed : ℕ → Array ℕ → ℕ
needed kernel a = if kernel == k_mfcc_fp32 then (2 * a Mfcc.fft_len + a Mfcc.nb_mel) * 4 else 0

plan_scratch-needed :
    (kernel : ℕ) (a : Array ℕ) → needed kernel a < u32_mod → plan_scratch kernel a ≡ needed kernel a
unfolding plan_scratch
plan_scratch-needed kernel a fits = elim (Bool-cases (kernel == k_mfcc_fp32)) [
  | inl mfcc ↦
      let small : (2 * a Mfcc.fft_len + a Mfcc.nb_mel) * 4 < u32_mod =
        subst (λ x. x < u32_mod) (if_true 0 mfcc) fits in
      rw mfcc (omega (arith, small))
  | inr other ↦ rw other refl
]

-- Slab `idx` of a run of them.
slab_at :
    (base stride idx nb : ℕ)
    → base % 64 ≡ 0
    → stride % 64 ≡ 0
    → idx < nb
    → ((base + idx * stride) % 64 ≡ 0) × (base + idx * stride + stride ≤ base + stride * nb)
slab_at base stride idx nb hb hs lt =
    let q = stride / 64 in
    let whole : idx * stride ≡ idx * (q * 64) = ap (λ x. idx * x) (omega (arith, hs)) in
    (omega (arith, whole, hb), omega (arith, mul-le-mul_right stride lt))

-- When scratch is reserved for at least one core, in a heap whose bounds are addresses with room for
-- the alignment, and what all cores need, each with 63 bytes more, is smaller than what 32 bits leave
-- above the heap's start: the slab of each core stands in the heap, at the base and a stride for
-- each core before it, aligned to 64 bytes, and is followed by the slab of the next core no sooner
-- than after the bytes that the kernel needs, twice the FFT length and the mel bands in floats for the
-- MFCC; and the cursor for staging stands at the end of the last slab.
pub reserve_scratch_slabs :
    {heap : Heap} (kernel : ℕ) (a : Array ℕ) (nb : ℕ)
    → IsHeap heap
    → 0 < nb
    → (heap.start + 63) + (needed kernel a + 63) * nb < u32_mod
    → let r = reserve_scratch heap kernel a nb in
      r.base ≢ 0
      → ((idx : ℕ)
          → idx < nb
          → (heap.start ≤ r.base + idx * r.stride)
            × ((r.base + idx * r.stride) % 64 ≡ 0)
            × (needed kernel a ≤ r.stride)
            × (r.base + idx * r.stride + r.stride ≤ r.cursor))
        × (r.cursor ≡ r.base + r.stride * nb)
        × (r.cursor ≤ heap.limit)
unfolding reserve_scratch
reserve_scratch_slabs {heap} kernel a nb h pos small some_base =
    let one : (needed kernel a + 63) * 1 ≤ (needed kernel a + 63) * nb =
      mul-le-mul_left (needed kernel a + 63) pos in
    let exact = plan_scratch-needed kernel a (omega (arith, one)) in
    let room : (heap.start + 63) + (plan_scratch kernel a + 63) * nb < u32_mod =
      omega (arith, ap (λ x. (x + 63) * nb) exact) in
    let (low, aligned, strides, wide, end, limit) =
      carve_slabs (plan_scratch kernel a) nb h pos room some_base in
    let r = reserve_scratch heap kernel a nb in
    (
      λ idx lt.
          let (here, inside) = slab_at r.base r.stride idx nb aligned strides lt in
          (omega (arith, low), here, omega (arith, wide, exact), omega (arith, inside, end)),
      end,
      limit,
    )

-- With a heap whose bounds are words, no scratch is reserved exactly when the kernel needs none or
-- the slabs, as 32-bit arithmetic computes them, end past the heap; the cursor is then the aligned
-- start of the heap.
reserve_scratch_nothing :
    {heap : Heap} (kernel : ℕ) (a : Array ℕ) (nb : ℕ)
    → IsHeap heap
    → let r = reserve_scratch heap kernel a nb in
      let slabs = mul32 (align64 (plan_scratch kernel a)) nb in
      ((r.base ≡ 0)
        ↔ ((plan_scratch kernel a ≡ 0) ⊎ (heap.limit < add32 (align64 heap.start) slabs)))
      × (r.base ≡ 0 → (r.cursor ≡ align64 heap.start) × (r.stride ≡ 0))
unfolding reserve_scratch carve
reserve_scratch_nothing {heap} kernel a nb h = ground arith

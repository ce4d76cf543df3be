-- ===== src/Cluster/Tests/Parts.antt =====
-- The theorems of the cluster's modules at small jobs, and runs of the definitions.
use k9r.Cluster.Tests.Jobs.{mm_args, mfcc_args, heap, idle_dma}
use k9r.Base.{
  ℕ, ◌+◌, ◌*◌, ◌%◌, ◌<◌, ◌≤◌, ◌≡◌, refl, List, [], ◌∷◌, ◌++◌, map, some, true, false, arith,
}
use k9r.Job.{k_matmul_fp32, k_mfcc_fp32}
use k9r.Dma.{linear}
use k9r.Cluster.Slice.{slice}
use k9r.Cluster.Slice.Cover.{Takes, slice_covers_once}
use k9r.Cluster.Operands.{Operand, plan_operands}
use k9r.Cluster.Scratch.{plan_scratch, reserve_scratch, carve}
use k9r.Cluster.Scratch.Slabs.{needed, reserve_scratch_slabs, IsHeap}
use k9r.Cluster.Stage.{Placed, Moved, place, load, stage_out}
use k9r.Cluster.Stage.Layout.{place-IsLayout, IsLayout}
use k9r.Cluster.Stage.Effects.{issued_staging, inputs_in, outputs_out}
use k9r.Cluster.Operands.Sizes.{plan_operands-IsPlan, IsPlan}
use k9r.Cluster.Dispatch.{Call, run_slice}
use k9r.Cluster.Dispatch.Once.{WritesRow, run_slice_writes_once}

-- Ten rows over eight cores: two cores take two.
slice_ten :
    (slice 10 1 8 ≡ record { first = 2; last = 4 })
    × (slice 10 2 8 ≡ record { first = 4; last = 5 })
unfolding slice
slice_ten = (refl, refl)

slice_covers_once_example :
    (idx : ℕ) × (idx < 8) × Takes 10 8 idx 9 × ((j : ℕ) → j < 8 → Takes 10 8 j 9 → j ≡ idx)
slice_covers_once_example = slice_covers_once 10 8 9 (omega arith) (omega arith) (omega arith)

matmul_planned : IsPlan (plan_operands k_mfcc_fp32 mfcc_args)
matmul_planned = plan_operands-IsPlan k_mfcc_fp32 mfcc_args

heap-IsHeap : IsHeap heap
heap-IsHeap = omega arith

reserve_scratch_slabs_example :
    let r = reserve_scratch heap k_mfcc_fp32 mfcc_args 8 in
    ((idx : ℕ)
      → idx < 8
      → (heap.start ≤ r.base + idx * r.stride)
        × ((r.base + idx * r.stride) % 64 ≡ 0)
        × (needed k_mfcc_fp32 mfcc_args ≤ r.stride)
        × (r.base + idx * r.stride + r.stride ≤ r.cursor))
    × (r.cursor ≡ r.base + r.stride * 8)
    × (r.cursor ≤ heap.limit)
unfolding reserve_scratch carve plan_scratch
reserve_scratch_slabs_example =
    reserve_scratch_slabs k_mfcc_fp32 mfcc_args 8 heap-IsHeap (omega arith) (omega arith)
      (omega arith)

abbrev mm_ops : List Operand
mm_ops =
    record { arg = 0; is_output = false; bytes = 160 }
    ∷ record { arg = 1; is_output = false; bytes = 128 }
    ∷ record { arg = 2; is_output = true; bytes = 320 }
    ∷ []

plan_mm : plan_operands k_matmul_fp32 mm_args ≡ mm_ops
unfolding plan_operands
plan_mm = refl

abbrev mm_placed : List Placed
mm_placed =
    record { op = record { arg = 0; is_output = false; bytes = 160 }; local = 0x10000240 }
    ∷ record { op = record { arg = 1; is_output = false; bytes = 128 }; local = 0x10000300 }
    ∷ record { op = record { arg = 2; is_output = true; bytes = 320 }; local = 0x10000380 }
    ∷ []

place-IsLayout_example :
    IsLayout 0x10017000 0x10000210 mm_placed × (map (λ p. p.op) mm_placed ≡ mm_ops)
unfolding place
place-IsLayout_example =
    place-IsLayout 0x10017000 0x10000210 mm_ops (omega arith) (omega arith) (omega arith) refl

abbrev before : Moved
before = record { active = mm_args; dma = idle_dma }

issued_mm :
    ((load mm_args mm_placed before).dma.issued ≡ [] ++ inputs_in mm_args mm_placed)
    × ((stage_out mm_args mm_placed idle_dma).issued ≡ [] ++ outputs_out mm_args mm_placed)
issued_mm = issued_staging mm_args mm_placed before idle_dma

-- The result goes back to main memory.
outputs_mm : outputs_out mm_args mm_placed ≡ linear 0x80002000 0x10000380 320 ∷ []
outputs_mm = refl

run_slice_writes_once_example :
    (idx : ℕ) × (idx < 8)
    × WritesRow 0 0 k_matmul_fp32 mm_args 8 9 idx
    × ((j : ℕ) → j < 8 → WritesRow 0 0 k_matmul_fp32 mm_args 8 9 j → j ≡ idx)
run_slice_writes_once_example =
    run_slice_writes_once 0 0 k_matmul_fp32 mm_args 8 9 (omega arith) (omega arith) (omega arith)
      (omega arith)

-- The second core multiplies rows 2 and 3.
run_slice_mm :
    run_slice 0 0 k_matmul_fp32 mm_args 1 8
    ≡ some (Call.matmul 0x80000020 0x80001000 0x80002040 2 4 8)
unfolding run_slice slice
run_slice_mm = refl

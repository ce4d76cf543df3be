-- ===== src/Cluster/Dispatch/Once.antt =====
-- The rows of a job's output and the calls of `run_slice` in runtime/mesh/cluster_main.c.
use mathlib.Core.Path.{subst}
use k9r.Base.{ℕ, ◌+◌, ◌-◌, ◌*◌, ◌<◌, ◌≡◌, refl, Array, some, arith}
use k9r.Job.{Kernel, kernel_of}
use k9r.Job.Gemm
use k9r.Job.Mm
use k9r.Job.Conv
use k9r.Job.Mfcc
use k9r.Cluster.Slice.{slice}
use k9r.Cluster.Dispatch.{
  Call, run_kernel, run_slice, gemm_range, matmul_call, gemm_call, conv2d_call, mfcc_call,
}
use k9r.Cluster.Operands.{out_extent}
use k9r.Cluster.Dispatch.Regions.{
  output_of, output_of_job, row_bytes, InSpace, range_of, row_addr_lem, plane_addr_lem,
}
use k9r.Cluster.Dispatch.Parts.{
  range_of-Within, owner, IsPart, part_row, part_row_inv, unless_empty-some, unless_empty-inv,
  part_count,
}

module _ (sb ss : ℕ) where
  -- A core calls its kernel exactly if its range is not empty, and then on its part of the output.
  call_of_range :
      (k : Kernel) (a : Array ℕ) (idx nb : ℕ)
      → InSpace (output_of_job k a)
      → idx < nb
      → (range_of k a idx nb).first < (range_of k a idx nb).last
      → (c : Call) × (run_kernel sb ss k a idx nb ≡ some c)
        × IsPart (output_of_job k a) (range_of k a idx nb) (output_of c)
  unfolding run_kernel
  call_of_range Kernel.matmul a idx nb h hi ne =
      let r = range_of Kernel.matmul a idx nb in
      let w = range_of-Within Kernel.matmul a idx nb h.1 hi in
      (
        matmul_call a r,
        unless_empty-some r _ ne,
        record {
          addr = row_addr_lem (a Mm.y) r.first (a Mm.m) (a Mm.o) (omega arith) h.0;
          count = part_count r (a Mm.m) w h.1;
          width = refl;
        },
      )
  call_of_range Kernel.gemm a idx nb h hi ne =
      let r = range_of Kernel.gemm a idx nb in
      let w = range_of-Within Kernel.gemm a idx nb h.1 hi in
      (
        gemm_call a r,
        unless_empty-some r _ ne,
        record {
          addr = row_addr_lem (a Gemm.y) r.first (a Gemm.m) (a Gemm.o) (omega arith) h.0;
          count = part_count r (a Gemm.m) w h.1;
          width = refl;
        },
      )
  call_of_range Kernel.conv2d a idx nb h hi ne =
      let r = range_of Kernel.conv2d a idx nb in
      let w = range_of-Within Kernel.conv2d a idx nb h.1 hi in
      (
        conv2d_call a r,
        unless_empty-some r _ ne,
        record {
          addr =
              plane_addr_lem (a Conv.y) r.first (a Conv.f)
                (out_extent (a Conv.h) (a Conv.p) (a Conv.sp))
                (out_extent (a Conv.w) (a Conv.q) (a Conv.sq)) (omega arith) h.0;
          count = part_count r (a Conv.f) w h.1;
          width = refl;
        },
      )
  call_of_range Kernel.mfcc a idx nb h hi ne =
      let r = range_of Kernel.mfcc a idx nb in
      let w = range_of-Within Kernel.mfcc a idx nb h.1 hi in
      (
        mfcc_call sb ss a idx r,
        unless_empty-some r _ ne,
        record {
          addr =
              row_addr_lem (a Mfcc.out) r.first (a Mfcc.nb_frames) (a Mfcc.nb_cep) (omega arith)
                h.0;
          count = part_count r (a Mfcc.nb_frames) w h.1;
          width = refl;
        },
      )
  call_of_range Kernel.other a idx nb h hi ne = absurd (omega arith)

  run_kernel-nonempty :
      (k : Kernel) (a : Array ℕ) (idx nb : ℕ) {c : Call}
      → run_kernel sb ss k a idx nb ≡ some c
      → (range_of k a idx nb).first < (range_of k a idx nb).last
  unfolding run_kernel
  run_kernel-nonempty Kernel.matmul a idx nb e = unless_empty-inv (slice (a Mm.m) idx nb) _ e
  run_kernel-nonempty Kernel.gemm a idx nb e = unless_empty-inv (gemm_range a idx nb) _ e
  run_kernel-nonempty Kernel.conv2d a idx nb e = unless_empty-inv (slice (a Conv.f) idx nb) _ e
  run_kernel-nonempty Kernel.mfcc a idx nb e =
      unless_empty-inv (slice (a Mfcc.nb_frames) idx nb) _ e
  run_kernel-nonempty Kernel.other a idx nb e = cc

  call-IsPart :
      (k : Kernel) (a : Array ℕ) (idx nb : ℕ) {c : Call}
      → InSpace (output_of_job k a)
      → idx < nb
      → run_kernel sb ss k a idx nb ≡ some c
      → IsPart (output_of_job k a) (range_of k a idx nb) (output_of c)
  call-IsPart k a idx nb {c} h hi e =
      let (c', e', part) = call_of_range k a idx nb h hi (run_kernel-nonempty k a idx nb e) in
      let same : c' ≡ c = cc in
      subst (λ d. IsPart (output_of_job k a) (range_of k a idx nb) (output_of d)) same part

  -- The core `idx` writes row `row` of the job's output.
  abbrev pub WritesRow : ℕ → Array ℕ → ℕ → ℕ → ℕ → Type 0
  WritesRow kernel a nb row idx =
      let job = output_of_job (kernel_of kernel) a in
      (c : Call) × (run_slice sb ss kernel a idx nb ≡ some c)
      × (i : ℕ) × (i < (output_of c).count)
      × ((output_of c).addr + i * row_bytes (output_of c) ≡ job.addr + row * row_bytes job)

  -- For each kernel with an output of rows of at least one float, and for at least one compute
  -- core: if the output lies in the 32-bit address space, each of its rows is written by the call
  -- of one core, and by no other core's.
  pub run_slice_writes_once :
      (kernel : ℕ) (a : Array ℕ) (nb row : ℕ)
      → InSpace (output_of_job (kernel_of kernel) a)
      → 0 < (output_of_job (kernel_of kernel) a).width
      → 0 < nb
      → row < (output_of_job (kernel_of kernel) a).count
      → (idx : ℕ) × (idx < nb)
        × WritesRow kernel a nb row idx
        × ((j : ℕ) → j < nb → WritesRow kernel a nb row j → j ≡ idx)
  unfolding run_slice
  run_slice_writes_once kernel a nb row h wide pos hr =
      let k = kernel_of kernel in
      let (idx, here, inside, only) = owner k a nb row h.1 pos hr in
      let (c, e, part) = call_of_range k a idx nb h here (omega arith) in
      (
        idx,
        here,
        (
          c,
          e,
          row - (range_of k a idx nb).first,
          omega (arith, part.count),
          part_row (output_of_job k a) (output_of c) (range_of k a idx nb) row part inside.0,
        ),
        λ j hj w. only j hj (
            part_row_inv (output_of_job k a) (output_of w.0) (range_of k a j nb) row w.2
              (call-IsPart k a j nb h hj w.1) wide w.3 w.4),
      )

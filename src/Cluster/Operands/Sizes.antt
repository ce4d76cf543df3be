-- ===== src/Cluster/Operands/Sizes.antt =====
-- The operands of `plan_operands` of runtime/mesh/cluster_main.c: number, slots, sizes.
use k9r.Base.{
  ℕ, ◌+◌, ◌≤◌, ◌<◌, ◌≡◌, ◌≢◌, Array, List, [], ◌∷◌, All, length, arith, u32_mod, if◌then◌else◌, ◌↔◌,
}
use k9r.Job.Mm
use k9r.Machine.{mailbox_max_args}
use k9r.Job.{Kernel, matmul, gemm, conv2d, mfcc, other, kernel_of}
use k9r.Cluster.Operands.{Operand, max_operands, plan_kernel, plan_operands}

-- No two operands share an argument slot.
abbrev pub SlotsDistinct : List Operand → Type 0
SlotsDistinct [] = Unit
SlotsDistinct (o ∷ os) = All (λ p. p.arg ≢ o.arg) os × SlotsDistinct os

abbrev outputs : List Operand → ℕ
outputs [] = 0
outputs (o ∷ os) = (if o.is_output then 1 else 0) + outputs os

pub record IsPlan (os : List Operand) : Type 0 where
  pub room : length os ≤ max_operands
  pub slots : All (λ o. o.arg < mailbox_max_args) os
  pub distinct : SlotsDistinct os
  pub one_output : os ≢ [] → outputs os ≡ 1
  pub words : All (λ o. o.bytes < u32_mod) os

plan_kernel-IsPlan : (k : Kernel) (a : Array ℕ) → IsPlan (plan_kernel k a)
unfolding plan_kernel
plan_kernel-IsPlan matmul a = ground arith
plan_kernel-IsPlan gemm a = ground arith
plan_kernel-IsPlan conv2d a = ground arith
plan_kernel-IsPlan mfcc a = ground arith
plan_kernel-IsPlan other a = ground arith

-- For every kernel and every argument list, the plan fits the eight entries of its arrays, names
-- slots of the mailbox's argument list only and none of them twice, has one output operand if it
-- has any operand, and holds 32-bit sizes.
pub plan_operands-IsPlan : (k : ℕ) (a : Array ℕ) → IsPlan (plan_operands k a)
unfolding plan_operands
plan_operands-IsPlan k a = plan_kernel-IsPlan (kernel_of k) a

-- A size is planned as it is if it is below 2 ^ 32 bytes, and otherwise with fewer bytes.
pub record IsPlannedAs (size planned : ℕ) : Type 0 where
  pub exact : (planned ≡ size) ↔ (size < u32_mod)
  pub short : u32_mod ≤ size → planned < size

-- ===== src/Cluster/Stage.antt =====
-- Staging of operands: `stage_in` and `stage_out` of runtime/mesh/cluster_main.c.
pub mod Layout
pub mod Effects
use mathlib.Core.Option
use k9r.Base.{
  ℕ, Array, List, [], ◌∷◌, Option, none, some, ltb, if◌then◌else◌, add32, align64, update,
}
use k9r.Dma.{Dma, copy}
use k9r.Cluster.Operands.{Operand, plan_operands}

-- An operand with the entry of `local` beside it.
pub record Placed : Type 0 where
  pub op : Operand
  pub local : ℕ

-- The first loop of `stage_in`: `none` is its `return 0`.
unfoldable pub place : ℕ → ℕ → List Operand → Option (List Placed)
place limit cursor [] = some []
place limit cursor (o ∷ os) =
    let here = align64 cursor in
    let rest = place limit (add32 here o.bytes) os in
    if ltb limit (add32 here o.bytes)
    then none
    else Option.map (λ ps. record { op = o; local = here } ∷ ps) rest

-- What the loops over placed operands write: the active arguments and the DMA.
pub record Moved : Type 0 where
  pub active : Array ℕ
  pub dma : Dma

-- One round of the second loop of `stage_in`.
abbrev pub load_one : Array ℕ → Placed → Moved → Moved
load_one args p m = record {
  active = update m.active p.op.arg p.local;
  dma = if p.op.is_output then m.dma else copy p.local (args p.op.arg) p.op.bytes m.dma;
}

unfoldable pub load : Array ℕ → List Placed → Moved → Moved
load args [] m = m
load args (p ∷ ps) m = load args ps (load_one args p m)

pub record Staged : Type 0 where
  pub ops : List Placed
  pub moved : Moved

unfoldable pub stage_placed : Array ℕ → Moved → List Placed → Staged
stage_placed args m ps = record { ops = ps; moved = load args ps m }

-- The operands of the plan, if it has any.
unfoldable pub stage_ops : Array ℕ → ℕ → ℕ → Moved → List Operand → Option Staged
stage_ops args limit cursor m [] = none
stage_ops args limit cursor m (o ∷ os) =
    Option.map (stage_placed args m) (place limit cursor (o ∷ os))

unfoldable pub stage_in : ℕ → Array ℕ → ℕ → ℕ → Moved → Option Staged
stage_in kernel args limit cursor m = stage_ops args limit cursor m (plan_operands kernel args)

unfoldable pub stage_out : Array ℕ → List Placed → Dma → Dma
stage_out args [] d = d
stage_out args (p ∷ ps) d =
    stage_out args ps (if p.op.is_output then copy (args p.op.arg) p.local p.op.bytes d else d)

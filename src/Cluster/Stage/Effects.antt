-- ===== src/Cluster/Stage/Effects.antt =====
-- What `stage_in` and `stage_out` write: the active arguments, and the transfers they enqueue.
use k9r.Base.{
  ℕ, ◌≡◌, ◌≢◌, refl, List, [], ◌∷◌, ◌++◌, ◌∙◌, All, Array, Bool-cases, inl, inr, update_self,
  update_ne, if◌then◌else◌,
}
use mathlib.Core.List.{append-nil, append_assoc}
use k9r.Dma.{Dma, Transfer, linear, copy}
use k9r.Cluster.Stage.{Placed, Moved, load_one, load, stage_out}

-- The transfers of the inputs, in the order of the plan.
abbrev pub inputs_in : Array ℕ → List Placed → List Transfer
inputs_in args [] = []
inputs_in args (p ∷ ps) =
    if p.op.is_output
    then inputs_in args ps
    else linear p.local (args p.op.arg) p.op.bytes ∷ inputs_in args ps

-- The transfers of the outputs, in the order of the plan.
abbrev pub outputs_out : Array ℕ → List Placed → List Transfer
outputs_out args [] = []
outputs_out args (p ∷ ps) =
    if p.op.is_output
    then linear (args p.op.arg) p.local p.op.bytes ∷ outputs_out args ps
    else outputs_out args ps

-- No placed operand uses the slot.
abbrev pub Avoids : ℕ → List Placed → Type 0
Avoids slot ps = All (λ p. p.op.arg ≢ slot) ps

abbrev pub PlacedDistinct : List Placed → Type 0
PlacedDistinct [] = Unit
PlacedDistinct (p ∷ ps) = Avoids p.op.arg ps × PlacedDistinct ps

-- `stage_in` enqueues one transfer into TCDM for each input operand, in the order of the plan, and
-- none for an output.
issued-load :
    (args : Array ℕ) (ps : List Placed) (m : Moved)
    → (load args ps m).dma.issued ≡ m.dma.issued ++ inputs_in args ps
unfolding load copy
issued-load args [] m = rw append-nil
issued-load args (p ∷ ps) m = elim (Bool-cases p.op.is_output) [
  | inl out ↦ rw (out, issued-load args ps)
  | inr input ↦ rw (input, issued-load args ps, append_assoc)
]

-- `stage_out` enqueues one transfer into main memory for each output operand, and none for an
-- input.
pub issued-stage_out :
    (args : Array ℕ) (ps : List Placed) (d : Dma)
    → (stage_out args ps d).issued ≡ d.issued ++ outputs_out args ps
unfolding stage_out copy
issued-stage_out args [] d = rw append-nil
issued-stage_out args (p ∷ ps) d = elim (Bool-cases p.op.is_output) [
  | inl out ↦ rw (out, issued-stage_out args ps, append_assoc)
  | inr input ↦ rw (input, issued-stage_out args ps)
]

-- A slot that no operand uses keeps its argument.
pub active-load_ne :
    (args : Array ℕ) (ps : List Placed) (m : Moved) (slot : ℕ)
    → Avoids slot ps
    → (load args ps m).active slot ≡ m.active slot
unfolding load
active-load_ne args [] m slot h = refl
active-load_ne args (p ∷ ps) m slot h =
    active-load_ne args ps (load_one args p m) slot h.1 ∙ update_ne m.active p.op.arg p.local h.0

-- If no two operands share a slot, each operand's argument becomes the address of its copy.
active-load :
    (args : Array ℕ) (ps : List Placed) (m : Moved)
    → PlacedDistinct ps
    → All (λ p. (load args ps m).active p.op.arg ≡ p.local) ps
unfolding load
active-load args [] m h = tt
active-load args (p ∷ ps) m h = (
  active-load_ne args ps (load_one args p m) p.op.arg h.0 ∙ update_self m.active p.op.arg p.local,
  active-load args ps (load_one args p m) h.1,
)

-- Staging enqueues, in the order of the plan, one transfer into TCDM for each input operand and none
-- for an output when it goes in, and one into main memory for each output operand and none for an
-- input when it goes out.
pub issued_staging :
    (args : Array ℕ) (ps : List Placed) (m : Moved) (d : Dma)
    → ((load args ps m).dma.issued ≡ m.dma.issued ++ inputs_in args ps)
      × ((stage_out args ps d).issued ≡ d.issued ++ outputs_out args ps)
issued_staging args ps m d = (issued-load args ps m, issued-stage_out args ps d)

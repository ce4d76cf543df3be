-- ===== src/Cluster/Stage/Layout.antt =====
-- Where `stage_in` places the operands, and when it gives up.
use mathlib.Core.Path.{subst}
use k9r.Base.{
  ℕ, ◌+◌, ◌%◌, ◌≤◌, ◌<◌, ◌≡◌, refl, ap, List, [], ◌∷◌, map, some, All, arith, u32_mod, align64,
  add32, inl, inr, Option-cases,
}
use k9r.Cluster.Operands.{Operand}
use k9r.Cluster.Stage.{Placed, place}

-- The copies stand one after the other from `cursor` on, aligned and inside the limit.
abbrev pub IsLayout : ℕ → ℕ → List Placed → Type 0
IsLayout limit cursor [] = Unit
IsLayout limit cursor (p ∷ ps) =
    (cursor ≤ p.local)
    × (p.local % 64 ≡ 0)
    × (p.local + p.op.bytes ≤ limit)
    × IsLayout limit (p.local + p.op.bytes) ps

-- No end of an operand placed below the limit passes 2 ^ 32.
abbrev pub Fits32 : ℕ → List Operand → Type 0
Fits32 limit os = All (λ o. limit + 63 + o.bytes < u32_mod) os

abbrev footprint : List Operand → ℕ
footprint [] = 0
footprint (o ∷ os) = 63 + o.bytes + footprint os

place-cons :
    (limit cursor : ℕ) (o : Operand) (os : List Operand) {ps : List Placed}
    → place limit cursor (o ∷ os) ≡ some ps
    → (rest : List Placed) × (ps ≡ record { op = o; local = align64 cursor } ∷ rest)
      × (place limit (add32 (align64 cursor) o.bytes) os ≡ some rest)
      × (add32 (align64 cursor) o.bytes ≤ limit)
unfolding place
place-cons limit cursor o os e =
    elim (Option-cases (place limit (add32 (align64 cursor) o.bytes) os)) [
      | inl stuck ↦ absurd (ground arith)
      | inr (rest, placed) ↦ (rest, ground arith, placed, ground arith)
    ]

-- A layout that is returned holds the operands of the plan in order, each in a place of its own:
-- the copies are aligned to 64 bytes, follow one another from the cursor on without overlap, and
-- end inside the limit. This supposes that the cursor is not past the limit and that no operand is
-- so long that its end could pass 2 ^ 32.
pub place-IsLayout :
    (limit cursor : ℕ) (os : List Operand) {ps : List Placed}
    → cursor ≤ limit
    → limit + 63 < u32_mod
    → Fits32 limit os
    → place limit cursor os ≡ some ps
    → IsLayout limit cursor ps × (map (λ p. p.op) ps ≡ os)
unfolding place
place-IsLayout limit cursor [] {ps = []} h hl f e = (tt, refl)
place-IsLayout limit cursor [] {ps = p ∷ ps} h hl f e = cc
place-IsLayout limit cursor (o ∷ os) {ps} h hl f e =
    let (rest, eq, placed, within) = place-cons limit cursor o os e in
    let inside : align64 cursor + o.bytes ≤ limit = omega arith in
    let same : add32 (align64 cursor) o.bytes ≡ align64 cursor + o.bytes = omega arith in
    let ih = place-IsLayout limit (add32 (align64 cursor) o.bytes) os within hl f.1 placed in
    rw eq (
      (omega arith, omega arith, inside, subst (λ c. IsLayout limit c rest) (same) ih.0),
      ap (◌∷◌ o) ih.1,
    )

-- If the operands with their padding fit between the cursor and the limit, they are placed.
place_complete :
    (limit cursor : ℕ) (os : List Operand)
    → cursor + footprint os ≤ limit
    → limit + 63 < u32_mod
    → (ps : List Placed) × (place limit cursor os ≡ some ps)
unfolding place
place_complete limit cursor [] h hl = ([], refl)
place_complete limit cursor (o ∷ os) h hl =
    let (ps, e) = place_complete limit (add32 (align64 cursor) o.bytes) os (omega arith) hl in
    (record { op = o; local = align64 cursor } ∷ ps, ground arith)

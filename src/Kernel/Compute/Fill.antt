-- ===== src/Kernel/Compute/Fill.antt =====
-- How far Y is filled, block by block and row by row, in `gemm_ssr`.
use k9r.Base.{
  ℕ, zero, suc, ◌+◌, ◌*◌, ◌-◌, ◌≤◌, ◌<◌, ◌≡◌, ◌∙◌, refl, ap, sym, Array, arith, if◌then◌else◌,
  update_self, update_ne, u32_mod, add32, mul32, lt→ltb, le→ltb,
}
use k9r.Kernel.Gemm.{unroll, blocks, a_idx, b_idx, elem_addr}
use k9r.Kernel.Compute.{
  Float, State, Args, frep, start_value, block, row_blocks, scalar_sum, scalar, row_rest, rows,
}
use k9r.Kernel.Compute.Block.{fma_at, column, frep-Replayed, store-Stored}
use k9r.Kernel.Compute.Product.{scalar_sum-plain, fused, entry, Filled, Filled-more, index_lem}

module _ {F : Type 0} (fl : Float F) (mem : ℕ → F) (g : Args) (seq_a seq_b : ℕ → ℕ) where
  -- Where the streams stand at the start of block `b` of row `i`.
  abbrev pub base : ℕ → ℕ → ℕ
  base i b = (i * blocks g.o + b) * g.n * unroll

  -- The streams deliver the elements of their matrices, in the order of the loops.
  pub record InOrder : Type 0 where
    pub order_a :
        (i b k u : ℕ)
        → i < g.m
        → b < blocks g.o
        → k < g.n
        → u < unroll
        → seq_a (base i b + k * unroll + u) ≡ elem_addr g.src_a (a_idx g.m g.n g.o g.trans_a i k)
    pub order_b :
        (i b k u : ℕ)
        → i < g.m
        → b < blocks g.o
        → k < g.n
        → u < unroll
        → seq_b (base i b + k * unroll + u)
          ≡ elem_addr g.src_b (b_idx g.m g.n g.o g.trans_b (unroll * b + u) k)

  column-fused :
      (i b u k : ℕ)
      → InOrder
      → i < g.m
      → b < blocks g.o
      → u < unroll
      → k ≤ g.n
      → column fl mem seq_a seq_b unroll (base i b) u (start_value fl mem g i (unroll * b + u)) k
        ≡ fused fl mem g i (unroll * b + u) k
  unfolding column fused start_value
  column-fused i b u zero d hi hb hu hk = refl
  column-fused i b u (suc k) d hi hb hu hk =
      let p : ℕ = base i b + k * unroll + u in
      let c : F = fused fl mem g i (unroll * b + u) k in
      let a_at : ℕ = elem_addr g.src_a (a_idx g.m g.n g.o g.trans_a i k) in
      ap (fma_at fl mem seq_a seq_b unroll p) (column-fused i b u k d hi hb hu (omega arith))
      ∙ ap (λ t. fl.fmadd (mem t) (mem (seq_b p)) c) (d.order_a i b k u hi hb hk hu)
      ∙ ap (λ t. fl.fmadd (mem a_at) (mem t) c) (d.order_b i b k u hi hb hk hu)

  -- The streams stand at `pos`, and Y is computed below `count`.
  pub record IsAt (pos count : ℕ) (s : State F) : Type 0 where
    pub pos_a : s.pos_a ≡ pos
    pub pos_b : s.pos_b ≡ pos
    pub filled : Filled fl mem g count s.y

  entry-fused :
      (i b u : ℕ)
      → b < blocks g.o
      → u < unroll
      → entry fl mem g i (unroll * b + u) ≡ fused fl mem g i (unroll * b + u) g.n
  entry-fused i b u hb hu = rw (lt→ltb (unroll * b + u) (unroll * blocks g.o) (omega arith)) refl

  block-IsAt :
      (i b : ℕ) (s : State F)
      → InOrder
      → 0 < g.n
      → g.m * g.o < u32_mod
      → i < g.m
      → b < blocks g.o
      → IsAt (base i b) (i * g.o + unroll * b) s
      → IsAt
          (base i (suc b))
          (i * g.o + unroll * suc b)
          (block fl mem seq_a seq_b g i (unroll * b) s)
  unfolding block
  block-IsAt i b s d pos fits hi hb at =
      let s' : State F = record s { acc = λ u. start_value fl mem g i (unroll * b + u) } in
      let all : g.n - 1 + 1 ≡ g.n = omega arith in
      let r =
        frep-Replayed fl mem seq_a seq_b unroll (base i b) (g.n - 1 + 1) s' at.pos_a at.pos_b in
      let t = frep fl mem seq_a seq_b unroll (g.n - 1 + 1) s' in
      let place = index_lem fl mem g i (unroll * b) hi (omega arith) fits in
      let st = store-Stored fl mem seq_a seq_b unroll (add32 (mul32 i g.o) (unroll * b)) unroll t in
      let y' : Array F = (block fl mem seq_a seq_b g i (unroll * b) s).y in
      let below : (p : ℕ) → p < i * g.o + unroll * b → y' p ≡ s.y p =
        λ p lt. st.below p (omega arith) ∙ ap (λ f. f p) r.y in
      let here : (v : ℕ)
          → v < unroll
          → y' (i * g.o + unroll * b + v) ≡ entry fl mem g i (unroll * b + v) =
        λ v lt.
          ap (λ q. y' (q + v)) (sym place)
          ∙ st.here v lt
          ∙ r.acc v lt
          ∙ ap (column fl mem seq_a seq_b unroll (base i b) v _) all
          ∙ column-fused i b v g.n d hi hb lt (omega arith)
          ∙ sym (entry-fused i b v hb lt) in
      record {
        pos_a = st.pos_a ∙ r.pos_a ∙ omega arith;
        pos_b = st.pos_b ∙ r.pos_b ∙ omega arith;
        filled = λ i' j' hj hp.
            Filled-more fl mem g i (unroll * b) unroll s.y y' (omega arith) at.filled below here i'
              j' hj (omega arith);
      }

  row_blocks-IsAt :
      (i b : ℕ) (s : State F)
      → InOrder
      → 0 < g.n
      → g.m * g.o < u32_mod
      → i < g.m
      → b ≤ blocks g.o
      → IsAt (base i 0) (i * g.o) s
      → IsAt (base i b) (i * g.o + unroll * b) (row_blocks fl mem seq_a seq_b g i b s)
  unfolding row_blocks
  row_blocks-IsAt i zero s d pos fits hi hb at = record {
    pos_a = at.pos_a;
    pos_b = at.pos_b;
    filled = λ i' j' hj hp. at.filled i' j' hj (omega arith);
  }
  row_blocks-IsAt i (suc b) s d pos fits hi hb at =
      block-IsAt i b (row_blocks fl mem seq_a seq_b g i b s) d pos fits hi hb
        (row_blocks-IsAt i b s d pos fits hi (omega arith) at)

  -- The first column past the blocks.
  abbrev past : ℕ
  past = unroll * blocks g.o

  entry-scalar :
      (i r : ℕ)
      → (if g.has_c
          then fl.fadd (scalar_sum fl mem g i (past + r) g.n) (start_value fl mem g i (past + r))
          else scalar_sum fl mem g i (past + r) g.n)
        ≡ entry fl mem g i (past + r)
  unfolding start_value
  entry-scalar i r =
      rw (scalar_sum-plain fl mem g i (past + r) g.n, le→ltb (past + r) past (omega arith)) refl

  row_rest-IsAt :
      (pos i r : ℕ) (s : State F)
      → g.m * g.o < u32_mod
      → i < g.m
      → past + r ≤ g.o
      → IsAt pos (i * g.o + past) s
      → IsAt pos (i * g.o + (past + r)) (row_rest fl mem g i r s)
  unfolding row_rest scalar
  row_rest-IsAt pos i zero s fits hi hr at = record {
    pos_a = at.pos_a;
    pos_b = at.pos_b;
    filled = λ i' j' hj hp. at.filled i' j' hj (omega arith);
  }
  row_rest-IsAt pos i (suc r) s fits hi hr at =
      let before = row_rest-IsAt pos i r s fits hi (omega arith) at in
      let t : State F = row_rest fl mem g i r s in
      let y' : Array F = (scalar fl mem g i (past + r) t).y in
      let place = index_lem fl mem g i (past + r) hi (omega arith) fits in
      let below : (p : ℕ) → p < i * g.o + (past + r) → y' p ≡ t.y p =
        λ p lt. update_ne t.y (add32 (mul32 i g.o) (past + r)) _ (omega arith) in
      let here : (v : ℕ) → v < 1 → y' (i * g.o + (past + r) + v) ≡ entry fl mem g i (past + r + v) =
        λ v lt.
          let first : i * g.o + (past + r) + v ≡ add32 (mul32 i g.o) (past + r) = omega arith in
          let col : past + r ≡ past + r + v = omega arith in
          ap y' first
          ∙ update_self t.y (add32 (mul32 i g.o) (past + r)) _
          ∙ entry-scalar i r
          ∙ ap (entry fl mem g i) col in
      record {
        pos_a = before.pos_a;
        pos_b = before.pos_b;
        filled = λ i' j' hj hp.
            Filled-more fl mem g i (past + r) 1 t.y y' (omega arith) before.filled below here i' j'
              hj (omega arith);
      }

  pub rows-IsAt :
      (i : ℕ) (s : State F)
      → InOrder
      → 0 < g.n
      → g.m * g.o < u32_mod
      → i ≤ g.m
      → IsAt 0 0 s
      → IsAt (base i 0) (i * g.o) (rows fl mem seq_a seq_b g i s)
  unfolding rows
  rows-IsAt zero s d pos fits hi at = record {
    pos_a = at.pos_a ∙ omega arith;
    pos_b = at.pos_b ∙ omega arith;
    filled = λ i' j' hj hp. absurd (omega arith);
  }
  rows-IsAt (suc i) s d pos fits hi at =
      let before = rows-IsAt i s d pos fits (omega arith) at in
      let blocked =
        row_blocks-IsAt i (blocks g.o) (rows fl mem seq_a seq_b g i s) d pos fits hi (omega arith)
          before in
      let after =
        row_rest-IsAt (base i (blocks g.o)) i (g.o - past)
          (row_blocks fl mem seq_a seq_b g i (blocks g.o) (rows fl mem seq_a seq_b g i s)) fits hi
          (omega arith) blocked in
      record {
        pos_a = after.pos_a ∙ omega arith;
        pos_b = after.pos_b ∙ omega arith;
        filled = λ i' j' hj hp. after.filled i' j' hj (omega arith);
      }

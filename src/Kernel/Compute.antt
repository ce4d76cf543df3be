-- ===== src/Kernel/Compute.antt =====
-- The arithmetic of `gemm_ssr` in runtime/snitch/kernels/gemm_fp32_ssr.c. Floats and their
-- operations are parameters: `fmadd a b c` is `fmadd.s`, and `mem` reads a float. The pointers are
-- `__restrict__`: what is read is not written.
pub mod Block
pub mod Product
pub mod Fill
pub mod Order
pub mod Correct
pub mod Entry
use k9r.Base.{ℕ, zero, suc, ◌+◌, ◌*◌, ◌-◌, Array, update, add32, mul32, Bool, false, if◌then◌else◌}
use k9r.Kernel.Gemm.{is_generic, unroll, blocks, a_idx, b_idx, elem_addr}

-- The operations on floats.
pub record Float (F : Type 0) : Type 0 where
  pub fzero : F
  pub fadd : F → F → F
  pub fmul : F → F → F
  pub fmadd : F → F → F → F

-- The accumulators `c0` to `c7`, how far the two streams have been read, and the matrix Y by index.
pub record State (F : Type 0) : Type 0 where
  pub acc : Array F
  pub pos_a : ℕ
  pub pos_b : ℕ
  pub y : Array F

-- The arguments of the kernel, with NULL for `src_c` as `has_c`.
pub record Args : Type 0 where
  pub src_a : ℕ
  pub src_b : ℕ
  pub src_c : ℕ
  pub has_c : Bool
  pub m : ℕ
  pub n : ℕ
  pub o : ℕ
  pub trans_a : ℕ
  pub trans_b : ℕ

module _ {F : Type 0} where
  -- The stores `y[0] = c0` to `y[7] = c7`, the first `u` of them, from index `at`.
  unfoldable pub store : ℕ → ℕ → State F → State F
  store at zero s = s
  store at (suc u) s = let t = store at u s in record t { y = update t.y (at + u) (t.acc u) }

module _ {F : Type 0} (fl : Float F) (mem : ℕ → F) where
  -- `pSrcC[i * O + j]`, or 0 without C.
  unfoldable pub start_value : Args → ℕ → ℕ → F
  start_value g i j = if g.has_c then mem (elem_addr g.src_c (add32 (mul32 i g.o) j)) else fl.fzero

  -- `sum` after `k` rounds of the scalar loop.
  unfoldable pub scalar_sum : Args → ℕ → ℕ → ℕ → F
  scalar_sum g i j zero = fl.fzero
  scalar_sum g i j (suc k) = fl.fadd (scalar_sum g i j k) (
      fl.fmul (mem (elem_addr g.src_a (a_idx g.m g.n g.o g.trans_a i k)))
        (mem (elem_addr g.src_b (b_idx g.m g.n g.o g.trans_b j k))))

  unfoldable pub scalar : Args → ℕ → ℕ → State F → State F
  scalar g i j s =
      let sum = scalar_sum g i j g.n in
      record s {
        y =
            update s.y (add32 (mul32 i g.o) j)
              (if g.has_c then fl.fadd sum (start_value g i j) else sum);
      }

  -- The columns past the last full block, the first `r` of them.
  unfoldable pub row_rest : Args → ℕ → ℕ → State F → State F
  row_rest g i zero s = s
  row_rest g i (suc r) s = scalar g i (unroll * blocks g.o + r) (row_rest g i r s)

module _ {F : Type 0} (fl : Float F) (mem : ℕ → F) (seq_a seq_b : ℕ → ℕ) where
  -- One instruction of the body: `ft0` and `ft1` take the next element of their streams, `seq_a p`
  -- and `seq_b p` at position `p`.
  unfoldable pub fma : ℕ → State F → State F
  fma u s = record s {
    acc = update s.acc u (fl.fmadd (mem (seq_a s.pos_a)) (mem (seq_b s.pos_b)) (s.acc u));
    pos_a = s.pos_a + 1;
    pos_b = s.pos_b + 1;
  }

  -- The first `u` instructions of the body.
  unfoldable pub body : ℕ → State F → State F
  unfolding fma
  body zero s = s
  body (suc u) s = fma u (body u s)

  -- A body of `width` instructions, `k` times.
  unfoldable pub frep : (width : ℕ) → ℕ → State F → State F
  unfolding body
  frep width zero s = s
  frep width (suc k) s = body width (frep width k s)

  -- A block of columns from `j` on, in row `i`. The instructions run `frep_rpt + 1` times.
  unfoldable pub block : Args → ℕ → ℕ → State F → State F
  block g i j s =
      store (add32 (mul32 i g.o) j) unroll
        (frep unroll (g.n - 1 + 1) (record s { acc = λ u. start_value fl mem g i (j + u) }))

  -- The blocks of a row, the first `b` of them.
  unfoldable pub row_blocks : Args → ℕ → ℕ → State F → State F
  row_blocks g i zero s = s
  row_blocks g i (suc b) s = block g i (unroll * b) (row_blocks g i b s)

  -- The first `i` rows.
  unfoldable pub rows : Args → ℕ → State F → State F
  rows g zero s = s
  rows g (suc i) s =
      row_rest fl mem g i (g.o - unroll * blocks g.o) (row_blocks g i (blocks g.o) (rows g i s))

  -- The loops of `gemm_ssr`, once the streams are set up and stand at their first element.
  unfoldable pub gemm_ssr : Args → State F → State F
  gemm_ssr g s = rows g g.m s

-- The kernels. The streams of each set of arguments are those that `gemm_ssr` sets up, and they stand
-- at their first element; `generic` stands for the implementation that takes the small shapes.
module _ {F : Type 0} (fl : Float F) (mem : ℕ → F) (seq_a seq_b : Args → ℕ → ℕ)
    (generic : Args → Array F → Array F) where
  abbrev pub at_first : Array F → State F
  at_first y = record { acc = λ u. fl.fzero; pos_a = 0; pos_b = 0; y = y }

  -- `Gemm_fp32_fp32_fp32_fp32` and `MatMul_fp32_fp32_fp32`
  unfoldable pub gemm : Args → Array F → Array F
  gemm g y =
      if is_generic g.m g.n g.o
      then generic g y
      else (gemm_ssr fl mem (seq_a g) (seq_b g) g (at_first y)).y

  unfoldable pub matmul : Args → Array F → Array F
  matmul g y =
      let plain = record g { has_c = false; trans_a = 0; trans_b = 0 } in
      if is_generic g.m g.n g.o
      then generic plain y
      else (gemm_ssr fl mem (seq_a plain) (seq_b plain) plain (at_first y)).y

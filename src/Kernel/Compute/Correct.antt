-- ===== src/Kernel/Compute/Correct.antt =====
-- `gemm_ssr` of runtime/snitch/kernels/gemm_fp32_ssr.c on the streams that it sets up.
use native.Mathlib.Nat.{mul-le-mul_right}
use k9r.Base.{ℕ, ◌+◌, ◌*◌, ◌≤◌, ◌<◌, ◌≡◌, ◌∙◌, refl, ap, Array, arith, u32_mod, ◌==◌, false}
use k9r.Ssr.{reg_repeat, reg_bounds, ssr_3d, ssr_4d}
use k9r.Ssr.Walk.{Delivers, InTurn}
use k9r.Ssr.Nest.{IsCount}
use k9r.Kernel.Gemm.{unroll, blocks, is_generic, stream_a, stream_b}
use k9r.Kernel.Gemm.Streams.{gemm_streams}
use k9r.Kernel.Compute.{Float, State, Args, gemm_ssr}
use k9r.Kernel.Compute.Product.{entry}
use k9r.Kernel.Compute.Fill.{InOrder, rows-IsAt, IsAt}
use k9r.Kernel.Compute.Order.{position, Counts-a, Counts-b, outer_b}

module _ {F : Type 0} (fl : Float F) (mem : ℕ → F) (g : Args) (cfg_a cfg_b : Array ℕ)
    (addr_a addr_b : ℕ → ℕ → ℕ → ℕ → ℕ) (seq_a seq_b : ℕ → ℕ) where
  -- The two streams, as the kernel configures them.
  abbrev pub set_a : Array ℕ
  set_a = stream_a g.m g.n g.o g.trans_a g.src_a cfg_a

  abbrev pub set_b : Array ℕ
  set_b = stream_b g.m g.n g.o g.trans_b g.src_b cfg_b

  -- The shapes that are not left to the generic implementation, in 32-bit sizes, and no wrap in an
  -- index of Y.
  pub record IsShape : Type 0 where
    pub streamed : is_generic g.m g.n g.o ≡ false
    pub height : g.m < u32_mod
    pub depth : g.n < u32_mod
    pub width : g.o < u32_mod
    pub size : g.m * g.o < u32_mod

  not_generic : is_generic g.m g.n g.o ≡ false → (0 < g.m) × (0 < g.n) × (unroll ≤ g.o)
  not_generic e = ground arith

  -- What is documented of the address generators.
  pub record AreStreams : Type 0 where
    pub delivers_a : Delivers set_a ssr_3d addr_a
    pub turn_a : InTurn set_a ssr_3d addr_a seq_a
    pub delivers_b : Delivers set_b ssr_4d addr_b
    pub turn_b : InTurn set_b ssr_4d addr_b seq_b
    pub once : cfg_b reg_repeat ≡ 0

  streams-InOrder : IsShape → AreStreams → InOrder fl mem g seq_a seq_b
  unfolding stream_a stream_b
  streams-InOrder w st =
      let (some_m, some_n, columns) = not_generic w.streamed in
      let count_m : IsCount g.m = (some_m, w.height) in
      let count_n : IsCount g.n = (some_n, w.depth) in
      let hb : IsCount (blocks g.o) = omega (arith, columns, w.width) in
      let ca = Counts-a (g.trans_a == 0) g.m g.n g.o g.src_a cfg_a count_m count_n hb in
      let cb = Counts-b (g.trans_b == 0) g.m g.n g.o g.src_b cfg_b count_n hb st.once in
      let outer : set_b (reg_bounds + 3) + 1 ≡ g.m =
        outer_b (g.trans_b == 0) g.m g.n g.o g.src_b cfg_b count_m in
      let at =
        gemm_streams g.m g.n g.o g.trans_a g.trans_b g.src_a g.src_b cfg_a cfg_b addr_a addr_b
          count_m count_n columns w.width st.delivers_a st.delivers_b in
      record {
        order_a = λ i b k u hi hb hk hu.
            ap seq_a (omega arith)
            ∙ position set_a ssr_3d addr_a seq_a g.n (blocks g.o) g.m unroll ca (omega arith)
                st.turn_a k b i 0 u hk hb hi (λ deep. omega arith, λ lt. refl) hu
            ∙ (at i b k u hi hb hk hu).0;
        order_b = λ i b k u hi hb hk hu.
            ap seq_b (omega arith)
            ∙ position set_b ssr_4d addr_b seq_b unroll g.n (blocks g.o) 1 cb (omega arith)
                st.turn_b u k b i 0 hu hk hb
                (λ deep. omega (arith, outer), λ lt. absurd (omega arith)) (omega arith)
            ∙ (at i b k u hi hb hk hu).1;
      }

  -- `gemm_ssr` fills Y with the matrix product: in each row `i` and column `j`, Y is the sum over
  -- the elements that the index formulas name, in the order of `k`; fused and started from C in the
  -- columns of full blocks, and with C added at the end in the columns that are left. This is for a
  -- shape that the kernel takes on, an address generator that does what is documented, and streams
  -- at their start.
  pub gemm_ssr_product :
      (s : State F)
      → IsShape
      → AreStreams
      → s.pos_a ≡ 0
      → s.pos_b ≡ 0
      → (i j : ℕ) → i < g.m
      → j < g.o
      → (gemm_ssr fl mem seq_a seq_b g s).y (i * g.o + j) ≡ entry fl mem g i j
  unfolding gemm_ssr
  gemm_ssr_product s w st ha hb i j hi hj =
      let start : IsAt fl mem g seq_a seq_b 0 0 s = record {
        pos_a = ha;
        pos_b = hb;
        filled = λ i' j' hj' hp. absurd (omega arith);
      } in
      let end =
        rows-IsAt fl mem g seq_a seq_b g.m s (streams-InOrder w st) (not_generic w.streamed).1
          w.size (omega arith) start in
      end.filled i j hj (omega (arith, mul-le-mul_right g.o hi))

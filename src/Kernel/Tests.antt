-- ===== src/Kernel/Tests.antt =====
-- A product of 2 by 3 and 3 by 8 floats.
use k9r.Base.{ℕ, min, ◌<◌, some, ◌+◌, ◌*◌, ◌/◌, ◌%◌, refl, true, ◌≡◌, Array, arith, u32_mod}
use k9r.Ssr.{ssr_3d, ssr_4d, loop_3d, loop_4d, read, repeat}
use k9r.Ssr.Walk.{Delivers, InTurn}
use k9r.Kernel.Gemm.{stream_a, stream_b, a_idx, b_idx, elem_addr}
use k9r.Kernel.Compute.{Float, State, Args, gemm, gemm_ssr, start_value}
use k9r.Kernel.Compute.Product.{entry, fused}
use k9r.Kernel.Compute.Correct.{IsShape, AreStreams}
use k9r.Kernel.Gemm.Streams.{gemm_streams}
use k9r.Kernel.Compute.Entry.{gemm-entry}
use k9r.Kernel.Rvv.{gemm_rvv}
use k9r.Kernel.Rvv.Correct.{Grants, gemm_rvv_product}
use k9r.Kernel.Rvv.Same.{rvv-ssr}

abbrev zeros : Array ℕ
zeros reg = 0

-- Address generators that do what is documented.
abbrev addr_a : ℕ → ℕ → ℕ → ℕ → ℕ
addr_a i0 i1 i2 i3 = (0x1000 + i2 * 12 + i0 * 4) % u32_mod

abbrev addr_b : ℕ → ℕ → ℕ → ℕ → ℕ
addr_b i0 i1 i2 i3 = (0x2000 + i2 * 32 + i1 * 32 + i0 * 4) % u32_mod

Delivers-a : Delivers (stream_a 2 3 8 0 0x1000 zeros) ssr_3d addr_a
unfolding stream_a loop_3d read repeat
Delivers-a = record {
  start = omega arith;
  round_0 = λ i0 i1 i2 i3 lt. omega arith;
  round_1 = λ i1 i2 i3 deep lt. omega arith;
  round_2 = λ i2 i3 deep lt. omega arith;
  round_3 = λ i3 deep lt. absurd (omega arith);
}

Delivers-b : Delivers (stream_b 2 3 8 0 0x2000 zeros) ssr_4d addr_b
unfolding stream_b loop_4d read
Delivers-b = record {
  start = omega arith;
  round_0 = λ i0 i1 i2 i3 lt. omega arith;
  round_1 = λ i1 i2 i3 deep lt. omega arith;
  round_2 = λ i2 i3 deep lt. omega arith;
  round_3 = λ i3 deep lt. omega arith;
}

-- Position by position: rounds of 3, rows of one block, each element of A for 8 columns.
abbrev seq_a : ℕ → ℕ
seq_a p = addr_a (p / 8 % 3) 0 (p / 24) 0

abbrev seq_b : ℕ → ℕ
seq_b p = addr_b (p % 8) (p / 8 % 3) 0 (p / 24)

InTurn-a : InTurn (stream_a 2 3 8 0 0x1000 zeros) ssr_3d addr_a seq_a
unfolding stream_a loop_3d read repeat
InTurn-a = record {
  turn = λ i0 i1 i2 i3 q h0 h1 h2 h3 hq.
      omega (arith, h1.0 (omega arith), h2.0 (omega arith), h3.1 (omega arith));
}

InTurn-b : InTurn (stream_b 2 3 8 0 0x2000 zeros) ssr_4d addr_b seq_b
unfolding stream_b loop_4d read
InTurn-b = record {
  turn = λ i0 i1 i2 i3 q h0 h1 h2 h3 hq.
      omega (arith, h1.0 (omega arith), h2.0 (omega arith), h3.0 (omega arith));
}

gemm_streams_square :
    (addr_a 2 0 1 0 ≡ elem_addr 0x1000 (a_idx 2 3 8 0 1 2))
    × (addr_b 5 2 0 1 ≡ elem_addr 0x2000 (b_idx 2 3 8 0 5 2))
gemm_streams_square =
    gemm_streams 2 3 8 0 0 0x1000 0x2000 zeros zeros addr_a addr_b (omega arith) (omega arith)
      (omega arith) (omega arith) Delivers-a Delivers-b 1 0 2 5 (omega arith) (omega arith)
      (omega arith) (omega arith)

-- Natural numbers for floats, and a memory that holds at each address the address itself.
abbrev numbers : Float ℕ
numbers = record { fzero = 0; fadd = λ a b. a + b; fmul = λ a b. a * b; fmadd = λ a b c. a * b + c }

abbrev memory : ℕ → ℕ
memory p = p

abbrev product : Args
product = record {
  src_a = 0x1000;
  src_b = 0x2000;
  src_c = 0x3000;
  has_c = true;
  m = 2;
  n = 3;
  o = 8;
  trans_a = 0;
  trans_b = 0;
}

abbrev at_start : State ℕ
at_start = record { acc = zeros; pos_a = 0; pos_b = 0; y = zeros }

AreStreams-product : AreStreams numbers memory product zeros zeros addr_a addr_b seq_a seq_b
AreStreams-product = record {
  delivers_a = Delivers-a;
  turn_a = InTurn-a;
  delivers_b = Delivers-b;
  turn_b = InTurn-b;
  once = refl;
}

product-IsShape : IsShape numbers memory product zeros zeros addr_a addr_b seq_a seq_b
product-IsShape = record {
  streamed = refl;
  height = omega arith;
  depth = omega arith;
  width = omega arith;
  size = omega arith;
}

gemm-entry_example :
    gemm numbers memory (λ g. seq_a) (λ g. seq_b) (λ g y. y) product zeros (1 * 8 + 5)
    ≡ entry numbers memory product 1 5
gemm-entry_example =
    gemm-entry numbers memory zeros zeros (λ g. addr_a) (λ g. addr_b) (λ g. seq_a) (λ g. seq_b)
      (λ g y. y) product zeros (product-IsShape, AreStreams-product) 1 5 (omega arith) (omega arith)

-- The element is 0x100c * 0x2014 + 0x1010 * 0x2034 + 0x1014 * 0x2054 + 0x3034.
entry_value :
    entry numbers memory product 1 5
    ≡ 0x1014 * 0x2054 + (0x1010 * 0x2034 + (0x100c * 0x2014 + 0x3034))
unfolding fused start_value
entry_value = refl

-- A vector unit of sixteen floats, of which three rounds are needed for 40 columns.
abbrev sixteen : ℕ → ℕ
sixteen n = min n 16

sixteen-Grants : Grants sixteen
sixteen-Grants = record { some_granted = λ n h. omega arith; within = λ n. omega arith }

-- Six rows, in a block of four and one of two.
abbrev wide : Args
wide = record product { m = 6; o = 40 }

gemm_rvv_product_example :
    (y' : Array ℕ) × (gemm_rvv numbers memory sixteen wide zeros ≡ some y')
    × ((i j : ℕ) → i < 6 → j < 40 → y' (i * 40 + j) ≡ fused numbers memory wide i j 3)
gemm_rvv_product_example =
    gemm_rvv_product numbers memory sixteen wide sixteen-Grants
      record { height = omega arith; width = omega arith; size = omega arith }
      record { plain_a = refl; plain_b = refl } zeros

rvv-ssr_example :
    (y' : Array ℕ) × (gemm_rvv numbers memory sixteen product zeros ≡ some y')
    × ((i j : ℕ)
        → i < 2
        → j < 8
        → (gemm_ssr numbers memory seq_a seq_b product at_start).y (i * 8 + j) ≡ y' (i * 8 + j))
rvv-ssr_example =
    rvv-ssr numbers memory product zeros zeros addr_a addr_b seq_a seq_b sixteen at_start zeros
      product-IsShape AreStreams-product refl refl (omega arith)
      record { plain_a = refl; plain_b = refl } sixteen-Grants

-- ===== src/Kernel/Conv/Tests.antt =====
-- Five filters of two by two taps over two channels of three by three floats.
use k9r.Base.{ℕ, ◌+◌, ◌*◌, ◌/◌, ◌%◌, ◌≡◌, refl, true, Array, arith, u32_mod}
use k9r.Ssr.{ssr_2d, ssr_3d, loop_2d, loop_3d, read, repeat}
use k9r.Ssr.Walk.{Delivers, InTurn}
use k9r.Kernel.Compute.{Float}
use k9r.Kernel.Conv.{Shape, stream_a, stream_b, conv2d, over_taps, scalar_pixel, scalar_sum}
use k9r.Kernel.Conv.Window.{AreStreams, IsWindow}
use k9r.Kernel.Conv.Places.{IsOutput}
use k9r.Kernel.Conv.Pixel.{output}
use k9r.Kernel.Conv.Correct.{conv2d_convolution}

abbrev five_filters : Shape
five_filters = record {
  src_a = 0x1000;
  src_b = 0x2000;
  src_bias = 0x3000;
  has_bias = true;
  c = 2;
  h = 3;
  w = 3;
  f = 5;
  p = 2;
  q = 2;
  sp = 1;
  sq = 1;
}

abbrev zeros : Array ℕ
zeros reg = 0

-- Address generators that do what is documented.
abbrev addr_a : ℕ → ℕ → ℕ → ℕ → ℕ → ℕ
addr_a ptr i0 i1 i2 i3 = (ptr + i2 * 36 + i1 * 12 + i0 * 4) % u32_mod

abbrev addr_b : ℕ → ℕ → ℕ → ℕ → ℕ → ℕ
addr_b ptr i0 i1 i2 i3 = (ptr + i1 * 4 + i0 * 32) % u32_mod

abbrev gen_a : ℕ → ℕ → ℕ
gen_a ptr n = addr_a ptr (n / 4 % 2) (n / 8 % 2) (n / 16) 0

abbrev gen_b : ℕ → ℕ → ℕ
gen_b ptr n = addr_b ptr (n % 4) (n / 4) 0 0

Delivers-a : (ptr : ℕ) → Delivers (stream_a five_filters ptr zeros) ssr_3d (addr_a ptr)
unfolding stream_a loop_3d read repeat
Delivers-a ptr = record {
  start = omega arith;
  round_0 = λ i0 i1 i2 i3 lt. omega arith;
  round_1 = λ i1 i2 i3 deep lt. omega arith;
  round_2 = λ i2 i3 deep lt. omega arith;
  round_3 = λ i3 deep lt. absurd (omega arith);
}

Delivers-b : (ptr : ℕ) → Delivers (stream_b five_filters ptr zeros) ssr_2d (addr_b ptr)
unfolding stream_b loop_2d read
Delivers-b ptr = record {
  start = omega arith;
  round_0 = λ i0 i1 i2 i3 lt. omega arith;
  round_1 = λ i1 i2 i3 deep lt. omega arith;
  round_2 = λ i2 i3 deep lt. absurd (omega arith);
  round_3 = λ i3 deep lt. absurd (omega arith);
}

InTurn-a : (ptr : ℕ) → InTurn (stream_a five_filters ptr zeros) ssr_3d (addr_a ptr) (gen_a ptr)
unfolding stream_a loop_3d read repeat
InTurn-a ptr = record {
  turn = λ i0 i1 i2 i3 n h0 h1 h2 h3 hn.
      omega (arith, h1.0 (omega arith), h2.0 (omega arith), h3.1 (omega arith));
}

InTurn-b : (ptr : ℕ) → InTurn (stream_b five_filters ptr zeros) ssr_2d (addr_b ptr) (gen_b ptr)
unfolding stream_b loop_2d read
InTurn-b ptr = record {
  turn = λ i0 i1 i2 i3 n h0 h1 h2 h3 hn.
      omega (arith, h1.0 (omega arith), h2.1 (omega arith), h3.1 (omega arith));
}

five-AreStreams : AreStreams five_filters zeros zeros gen_a gen_b
five-AreStreams = record {
  addr_a = addr_a;
  addr_b = addr_b;
  delivers_a = Delivers-a;
  turn_a = InTurn-a;
  delivers_b = Delivers-b;
  turn_b = InTurn-b;
  once = refl;
}

five-IsWindow : IsWindow five_filters
five-IsWindow = record {
  channels = omega arith;
  rows = omega arith;
  columns = omega arith;
  elements = omega arith;
}

five-IsOutput : IsOutput five_filters
five-IsOutput = record { some_rows = omega arith; some_columns = omega arith; size = omega arith }

-- Natural numbers for floats, and a memory that holds at each address the address itself.
abbrev numbers : Float ℕ
numbers = record { fzero = 0; fadd = λ a b. a + b; fmul = λ a b. a * b; fmadd = λ a b c. a * b + c }

abbrev memory : ℕ → ℕ
memory p = p

conv2d_convolution_example :
    conv2d numbers memory gen_a gen_b five_filters zeros ((3 * 2 + 1) * 2 + 1)
    ≡ output numbers memory five_filters 3 1 1
conv2d_convolution_example =
    conv2d_convolution numbers memory five_filters five-IsOutput five-IsWindow zeros zeros gen_a
      gen_b five-AreStreams zeros 3 1 1 (omega arith) (omega arith) (omega arith)

-- The kernel, run on these generators, computes the same output for the filter of no full group.
last_filter :
    conv2d numbers memory gen_a gen_b five_filters zeros ((4 * 2 + 0) * 2 + 1)
    ≡ output numbers memory five_filters 4 0 1
unfolding conv2d scalar_pixel scalar_sum over_taps k9r.Kernel.Conv.Taps.plain_pixel
last_filter = refl

-- ===== src/Kernel/Mfcc/Tests.antt =====
-- Two frames of six samples, transforms of eight, two filters and five cepstra.
use k9r.Base.{
  ℕ, zero, suc, ◌+◌, ◌-◌, ◌*◌, ◌/◌, ◌%◌, ◌^◌, ◌<◌, ◌≤◌, ◌≡◌, ap, Array, arith, u32_mod, some, ltb,
  lt→ltb, le→ltb, ◌==◌, if◌then◌else◌,
}
use k9r.Ssr.{ssr_1d, ssr_2d, loop_1d, loop_2d, repeat, read}
use k9r.Ssr.Walk.{Delivers, InTurn}
use k9r.Kernel.Gemm.{elem_addr}
use k9r.Kernel.Compute.{Float}
use k9r.Kernel.Fft.{Signal, fft_radix2}
use k9r.Kernel.Fft.Recursive.{fourier}
use k9r.Kernel.Fft.Correct.{fft_radix2-fourier}
use k9r.Kernel.Mfcc.{Math, Setup, Work, mfcc}
use k9r.Kernel.Mfcc.Frame.{offset}
use k9r.Kernel.Mfcc.Correct.{filter_sum, row_sum, IsSetup, band, mfcc-cepstra}
use k9r.Kernel.Mfcc.Streamed.{Pointers, Streams, filter_stream, band_stream, row_stream, mfcc_ssr}
use k9r.Kernel.Mfcc.Streamed.Lanes.{AreStreams, IsMemory}
use k9r.Kernel.Mfcc.Streamed.Filters.{by_lanes}
use k9r.Kernel.Mfcc.Streamed.Correct.{by_blocks, mfcc_ssr-cepstra}

-- Numbers modulo 97 for floats.
abbrev numbers : Float ℕ
numbers = record {
  fzero = 0;
  fadd = λ a b. (a + b) % 97;
  fmul = λ a b. a * b % 97;
  fmadd = λ a b c. (a * b + c) % 97;
}

abbrev math : Math ℕ
math = record {
  fsub = λ a b. (a + 97 - b) % 97;
  exceeds = λ a b. ltb b a;
  logf = λ a. a;
  log_floor = 1;
}

abbrev ramp : Array ℕ
ramp i = i

abbrev signal : Signal ℕ
signal = record { re = ramp; im = λ i. 0 }

fft_radix2-fourier_example :
    (t : Signal ℕ) × (fft_radix2 numbers math.fsub ramp (2 ^ 3) signal ≡ some t)
    × ((p : ℕ)
        → p < 2 ^ 3
        → (t.re p, t.im p)
          ≡ fourier numbers math.fsub ramp (2 ^ 3) 3 (λ i. (signal.re i, signal.im i)) p)
fft_radix2-fourier_example = fft_radix2-fourier numbers math.fsub ramp 3 (omega arith) signal

abbrev setup : Setup ℕ
setup = record {
  audio = ramp;
  nb_frames = 2;
  frame_len = 6;
  hop = 4;
  fft_len = 8;
  window = λ i. 2;
  twiddles = ramp;
  mel_coeff = λ i. i + 1;
  mel_start = λ m. m;
  mel_len = λ m. if m == 0 then 5 else 3;
  nb_mel = 2;
  dct = ramp;
  nb_cep = 5;
}

abbrev work : Work ℕ
work = record { signal = signal; mel = ramp; out = ramp }

bins_lem : (m : ℕ) → m < 2 → m + (if m == 0 then 5 else 3) ≤ 5
bins_lem m lt = ground arith

setup-IsSetup : IsSetup numbers math setup 3
setup-IsSetup = record {
  small = omega arith;
  length = omega arith;
  fits = omega arith;
  bins = bins_lem;
}

mfcc-cepstra_example :
    (w' : Work ℕ) × (mfcc numbers math setup work ≡ some w')
    × ((t c : ℕ)
        → t < 2
        → c < 5
        → w'.out (t * 5 + c)
          ≡ row_sum numbers math setup
              (band numbers math setup (filter_sum numbers math setup) 3 t)
              c)
mfcc-cepstra_example = mfcc-cepstra numbers math setup 3 work setup-IsSetup

abbrev pointers : Pointers
pointers = record { re = 0x1000; mel_coeff = 0x2000; mel = 0x3000; dct = 0x4000 }

abbrev bins_mem : Array ℕ → ℕ → ℕ
bins_mem re a = if ltb a 0x2000 then re ((a - 0x1000) / 4) else (a - 0x2000) / 4 + 1

abbrev bands_mem : Array ℕ → ℕ → ℕ
bands_mem mel a = if ltb a 0x4000 then mel ((a - 0x3000) / 4) else (a - 0x4000) / 4

abbrev zeros : Array ℕ
zeros reg = 0

abbrev addr_line : ℕ → ℕ → ℕ → ℕ → ℕ → ℕ
addr_line ptr i0 i1 i2 i3 = (ptr + i0 * 4) % u32_mod

abbrev addr_rows : ℕ → ℕ → ℕ → ℕ → ℕ → ℕ
addr_rows ptr i0 i1 i2 i3 = (ptr + i1 * 4 + i0 * 8) % u32_mod

abbrev streams : Streams
streams = record {
  bins = λ ptr count i. (ptr + i * 4) % u32_mod;
  coeffs = λ ptr count i. (ptr + i * 4) % u32_mod;
  bands = λ ptr i. (ptr + i / 4 * 4) % u32_mod;
  rows = λ ptr i. (ptr + i / 4 * 4 + i % 4 * 8) % u32_mod;
}

Delivers-filter : (ptr count : ℕ) → Delivers (filter_stream ptr count zeros) ssr_1d (addr_line ptr)
unfolding filter_stream loop_1d read repeat
Delivers-filter ptr count = record {
  start = omega arith;
  round_0 = λ i0 i1 i2 i3 lt. omega arith;
  round_1 = λ i1 i2 i3 deep lt. absurd (omega arith);
  round_2 = λ i2 i3 deep lt. absurd (omega arith);
  round_3 = λ i3 deep lt. absurd (omega arith);
}

InTurn-filter :
    (ptr count : ℕ)
    → InTurn (filter_stream ptr count zeros) ssr_1d (addr_line ptr) (streams.bins ptr count)
unfolding filter_stream loop_1d read repeat
InTurn-filter ptr count = record {
  turn = λ i0 i1 i2 i3 q h0 h1 h2 h3 hq.
      rw (h1.1 (omega arith), h2.1 (omega arith), h3.1 (omega arith)) (omega arith);
}

Delivers-bands : (ptr : ℕ) → Delivers (band_stream 2 ptr zeros) ssr_1d (addr_line ptr)
unfolding band_stream loop_1d read repeat
Delivers-bands ptr = record {
  start = omega arith;
  round_0 = λ i0 i1 i2 i3 lt. omega arith;
  round_1 = λ i1 i2 i3 deep lt. absurd (omega arith);
  round_2 = λ i2 i3 deep lt. absurd (omega arith);
  round_3 = λ i3 deep lt. absurd (omega arith);
}

InTurn-bands :
    (ptr : ℕ) → InTurn (band_stream 2 ptr zeros) ssr_1d (addr_line ptr) (streams.bands ptr)
unfolding band_stream loop_1d read repeat
InTurn-bands ptr = record {
  turn = λ i0 i1 i2 i3 q h0 h1 h2 h3 hq.
      omega (arith, h1.1 (omega arith), h2.1 (omega arith), h3.1 (omega arith));
}

Delivers-rows : (ptr : ℕ) → Delivers (row_stream 2 ptr zeros) ssr_2d (addr_rows ptr)
unfolding row_stream loop_2d read repeat
Delivers-rows ptr = record {
  start = omega arith;
  round_0 = λ i0 i1 i2 i3 lt. omega arith;
  round_1 = λ i1 i2 i3 deep lt. omega arith;
  round_2 = λ i2 i3 deep lt. absurd (omega arith);
  round_3 = λ i3 deep lt. absurd (omega arith);
}

InTurn-rows : (ptr : ℕ) → InTurn (row_stream 2 ptr zeros) ssr_2d (addr_rows ptr) (streams.rows ptr)
unfolding row_stream loop_2d read repeat
InTurn-rows ptr = record {
  turn = λ i0 i1 i2 i3 q h0 h1 h2 h3 hq.
      omega (arith, h1.0 (omega arith), h2.1 (omega arith), h3.1 (omega arith));
}

streams-AreStreams : AreStreams 2 zeros zeros streams
streams-AreStreams = record {
  addr_bins = λ ptr count. addr_line ptr;
  addr_coeffs = λ ptr count. addr_line ptr;
  addr_bands = addr_line;
  addr_rows = addr_rows;
  delivers_bins = Delivers-filter;
  turn_bins = InTurn-filter;
  delivers_coeffs = Delivers-filter;
  turn_coeffs = InTurn-filter;
  delivers_bands = Delivers-bands;
  turn_bands = InTurn-bands;
  delivers_rows = Delivers-rows;
  turn_rows = InTurn-rows;
}

memory-IsMemory : IsMemory numbers math setup pointers streams bins_mem bands_mem 8
memory-IsMemory = record {
  re_at = λ re i hi. rw (lt→ltb (elem_addr 0x1000 i) 0x2000 (omega arith)) (ap re (omega arith));
  coeff_at = λ re i hi. rw (le→ltb (elem_addr 0x2000 i) 0x2000 (omega arith)) (omega arith);
  mel_at = λ mel i hi. rw (lt→ltb (elem_addr 0x3000 i) 0x4000 (omega arith)) (ap mel (omega arith));
  dct_at = λ mel i hi. rw (le→ltb (elem_addr 0x4000 i) 0x4000 (omega arith)) (omega arith);
}

within_lem : (m : ℕ) → m < 2 → offset numbers math setup m + (if m == 0 then 5 else 3) ≤ 8
unfolding offset
within_lem zero lt = omega arith
within_lem (suc zero) lt = omega arith
within_lem (suc (suc m)) lt = absurd (omega arith)

mfcc_ssr-cepstra_example :
    (w' : Work ℕ) × (mfcc_ssr numbers math setup pointers streams bins_mem bands_mem work ≡ some w')
    × ((t c : ℕ)
        → t < 2
        → c < 5
        → w'.out (t * 5 + c)
          ≡ by_blocks numbers math setup
              (band numbers math setup (by_lanes numbers math setup) 3 t)
              c)
mfcc_ssr-cepstra_example =
    mfcc_ssr-cepstra numbers math setup pointers streams bins_mem bands_mem 8 memory-IsMemory zeros
      zeros streams-AreStreams 3 work setup-IsSetup within_lem (omega arith)

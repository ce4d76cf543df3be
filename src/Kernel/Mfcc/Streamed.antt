-- ===== src/Kernel/Mfcc/Streamed.antt =====
-- `mel_energy` and `Mfcc_fp32_fp32` of runtime/snitch/kernels/mfcc_fp32_ssr.c. The streams read
-- memory: `bins_mem re` is what it holds while the spectrum is `re`, `bands_mem mel` while the bands
-- are `mel`. Writing a stream's pointer rewinds it, and a line of floats is a stream by its pointer
-- and length.
pub mod Lanes
pub mod Filters
pub mod Correct
use k9r.Base.{
  ℕ, zero, suc, ◌+◌, ◌-◌, ◌*◌, ◌/◌, Array, update, mul32, Bool, ◌||◌, ◌==◌, if◌then◌else◌, Option,
  some, for,
}
use k9r.Ssr.{ssr_1d, ssr_2d, loop_1d, loop_2d, repeat, read}
use k9r.Kernel.Gemm.{stride, elem_addr}
use k9r.Kernel.Compute.{Float, State, frep}
use k9r.Kernel.Mfcc.{Math, Setup, Work, dct_row, frames}

-- UNROLL of this kernel.
abbrev pub lanes : ℕ
lanes = 4

-- The pointers that the streams take.
pub record Pointers : Type 0 where
  pub re : ℕ
  pub mel_coeff : ℕ
  pub mel : ℕ
  pub dct : ℕ

-- What the two streams deliver, element by element: the address at a position.
pub record Streams : Type 0 where
  -- Of a filter: by pointer and count.
  pub bins : (ptr count : ℕ) → ℕ → ℕ
  pub coeffs : (ptr count : ℕ) → ℕ → ℕ
  -- Of a block of the DCT: by pointer.
  pub bands : (ptr : ℕ) → ℕ → ℕ
  pub rows : (ptr : ℕ) → ℕ → ℕ

-- Their configurations.
unfoldable pub filter_stream : (ptr count : ℕ) → Array ℕ → Array ℕ
filter_stream ptr count cfg = read ssr_1d ptr (loop_1d count stride (repeat 1 cfg))

unfoldable pub band_stream : (nb_mel ptr : ℕ) → Array ℕ → Array ℕ
band_stream nb_mel ptr cfg = read ssr_1d ptr (loop_1d nb_mel stride (repeat lanes cfg))

unfoldable pub row_stream : (nb_mel ptr : ℕ) → Array ℕ → Array ℕ
row_stream nb_mel ptr cfg =
    read ssr_2d ptr (loop_2d lanes nb_mel (mul32 nb_mel stride) stride (repeat 1 cfg))

module _ {F : Type 0} (fl : Float F) (ma : Math F) (g : Setup F) (ptrs : Pointers) (st : Streams)
    (bins_mem bands_mem : Array F → ℕ → F) where
  -- The four accumulators, from 0 on.
  abbrev pub start : State F
  start = record { acc = λ u. fl.fzero; pos_a = 0; pos_b = 0; y = λ i. fl.fzero }

  -- The accumulators of the full blocks of a filter. The body runs `frep_rpt + 1` times.
  unfoldable pub filter_acc : Array F → (start off blocks : ℕ) → ℕ → F
  filter_acc re first off blocks =
      (frep fl (bins_mem re) (st.bins (elem_addr ptrs.re first) (blocks * lanes))
        (st.coeffs (elem_addr ptrs.mel_coeff off) (blocks * lanes)) lanes (blocks - 1 + 1)
        start).acc

  unfoldable pub mel_energy : Array F → (start off len : ℕ) → F
  unfolding filter_acc for
  mel_energy re first off len =
      let blocks = len / lanes in
      let a = filter_acc re first off blocks in
      let folded = fl.fadd (fl.fadd (a 0) (a 1)) (fl.fadd (a 2) (a 3)) in
      for (len - blocks * lanes)
        (λ i acc.
          fl.fadd acc (
            fl.fmul (re (first + (blocks * lanes + i))) (g.mel_coeff (off + (blocks * lanes + i)))))
        (if blocks == 0 then fl.fzero else folded)

  -- The accumulators of a block of four cepstra from `c` on.
  unfoldable pub row_acc : Array F → (c : ℕ) → ℕ → F
  row_acc mel c =
      (frep fl (bands_mem mel) (st.bands ptrs.mel) (st.rows (elem_addr ptrs.dct (c * g.nb_mel)))
        lanes (g.nb_mel - 1 + 1) start).acc

  -- The DCT of a frame: the full blocks, then the cepstra that are left.
  unfoldable pub dct_blocks : Array F → (t : ℕ) → Array F → Array F
  unfolding row_acc dct_row for
  dct_blocks mel t out =
      let cep_blocks = g.nb_cep / lanes in
      let streamed =
        for cep_blocks
          (λ b.
            for lanes
              (λ u y. update y (t * g.nb_cep + (b * lanes + u)) (row_acc mel (b * lanes) u)))
          out in
      for (g.nb_cep - cep_blocks * lanes)
        (λ r y.
          update y (t * g.nb_cep + (cep_blocks * lanes + r))
            (dct_row fl ma g mel (cep_blocks * lanes + r)))
        streamed

  unfoldable pub mfcc_ssr : Work F → Option (Work F)
  unfolding mel_energy dct_blocks frames
  mfcc_ssr w =
      if (g.nb_frames == 0) || ((g.nb_mel == 0) || (g.nb_cep == 0))
      then some w
      else frames fl ma g mel_energy dct_blocks g.nb_frames w

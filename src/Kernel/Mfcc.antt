-- ===== src/Kernel/Mfcc.antt =====
-- `Mfcc_fp32_fp32` of runtime/common/kernels/mfcc_fp32.c, and what it shares with the streamed one of
-- runtime/snitch/kernels/mfcc_fp32_ssr.c. The scratch is cut into the arrays of the FFT and the mel
-- bands; arrays are indexed from their pointers.
pub mod Streamed
pub mod Frame
pub mod Correct
mod Tests
use k9r.Base.{
  ℕ, zero, suc, ◌+◌, ◌-◌, ◌*◌, ◌/◌, Array, update, add32, Bool, if◌then◌else◌, Option, none, some,
  for,
}
use k9r.Kernel.Compute.{Float}
use k9r.Kernel.Fft.{Signal, fft_radix2}

-- The operations on floats that the other kernels have no use for, and MFCC_LOG_FLOOR.
pub record Math (F : Type 0) : Type 0 where
  pub fsub : F → F → F
  pub exceeds : F → F → Bool
  pub logf : F → F
  pub log_floor : F

-- The arguments, without the output and the scratch.
pub record Setup (F : Type 0) : Type 0 where
  pub audio : Array F
  pub nb_frames : ℕ
  pub frame_len : ℕ
  pub hop : ℕ
  pub fft_len : ℕ
  pub window : Array F
  pub twiddles : Array F
  pub mel_coeff : Array F
  pub mel_start : Array ℕ
  pub mel_len : Array ℕ
  pub nb_mel : ℕ
  pub dct : Array F
  pub nb_cep : ℕ

-- The scratch, and the output.
pub record Work (F : Type 0) : Type 0 where
  pub signal : Signal F
  pub mel : Array F
  pub out : Array F

abbrev pub nb_bins : {F : Type 0} → Setup F → ℕ
nb_bins g = g.fft_len / 2 + 1

module _ {F : Type 0} (fl : Float F) (ma : Math F) (g : Setup F) where
  -- Frame `t` times the window, and zeros up to the length of the FFT.
  unfoldable pub load : (t : ℕ) → Signal F → Signal F
  unfolding for
  load t s =
      let windowed =
        for g.frame_len
          (λ i x. record {
            re = update x.re i (fl.fmul (g.audio (t * g.hop + i)) (g.window i));
            im = update x.im i fl.fzero;
          })
          s in
      for (g.fft_len - g.frame_len)
        (λ i x. record {
          re = update x.re (g.frame_len + i) fl.fzero;
          im = update x.im (g.frame_len + i) fl.fzero;
        })
        windowed

  -- The power spectrum, over `re`.
  unfoldable pub power : Signal F → Signal F
  unfolding for
  power s =
      for (nb_bins g)
        (λ b x. record x {
          re = update x.re b (fl.fadd (fl.fmul (x.re b) (x.re b)) (fl.fmul (x.im b) (x.im b)));
        })
        s

  abbrev pub log_mel : F → F
  log_mel acc = ma.logf (if ma.exceeds acc ma.log_floor then acc else ma.log_floor)

  -- The energy of a filter: `len` bins from `start` on, with the coefficients from `off` on.
  unfoldable pub energy : Array F → (start off len : ℕ) → F
  unfolding for
  energy re start off len =
      for len (λ i acc. fl.fadd acc (fl.fmul (re (start + i)) (g.mel_coeff (off + i)))) fl.fzero

  -- The filters, with the energy of each by `measure`; the state is `off` and `mel`.
  unfoldable pub filterbank : (Array F → (start off len : ℕ) → F) → Array F → Array F → ℕ × Array F
  unfolding for
  filterbank measure re mel =
      for g.nb_mel
        (λ m s. (
          add32 s.0 (g.mel_len m),
          update s.1 m (log_mel (measure re (g.mel_start m) s.0 (g.mel_len m))),
        ))
        (0, mel)

  -- A row of the DCT times the mel bands.
  unfoldable pub dct_row : Array F → ℕ → F
  unfolding for
  dct_row mel c =
      for g.nb_mel (λ m acc. fl.fadd acc (fl.fmul (g.dct (c * g.nb_mel + m)) (mel m))) fl.fzero

  unfoldable pub dct_stage : Array F → (t : ℕ) → Array F → Array F
  unfolding for dct_row
  dct_stage mel t out = for g.nb_cep (λ c y. update y (t * g.nb_cep + c) (dct_row mel c)) out

  -- A frame, with its filters measured by `measure` and its cepstra by `project`; `none` if the FFT
  -- has no end.
  unfoldable pub frame :
      (Array F → (start off len : ℕ) → F)
      → (Array F → ℕ → Array F → Array F)
      → (t : ℕ) → Work F
      → Option (Work F)
  unfolding load power filterbank
  frame measure project t w = elim (fft_radix2 fl ma.fsub g.twiddles g.fft_len (load t w.signal)) [
    | none ↦ none
    | some s ↦
        let spectrum = power s in
        let bands = filterbank measure spectrum.re w.mel in
        some record { signal = spectrum; mel = bands.1; out = project bands.1 t w.out }
  ]

  -- The first `t` frames.
  unfoldable pub frames :
      (Array F → (start off len : ℕ) → F)
      → (Array F → ℕ → Array F → Array F)
      → (t : ℕ) → Work F
      → Option (Work F)
  unfolding frame
  frames measure project zero w = some w
  frames measure project (suc t) w = elim (frames measure project t w) [
    | none ↦ none
    | some w' ↦ frame measure project t w'
  ]

  unfoldable pub mfcc : Work F → Option (Work F)
  unfolding frames energy dct_stage
  mfcc w = frames energy dct_stage g.nb_frames w

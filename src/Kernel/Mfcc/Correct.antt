-- ===== src/Kernel/Mfcc/Correct.antt =====
-- `Mfcc_fp32_fp32` computes the cepstra of its frames; the portable kernel, and the loop over frames
-- for both.
use mathlib.Core.Path.{ap₂}
use k9r.Base.{
  if◌then◌else◌, ℕ, zero, suc, ◌+◌, ◌*◌, ◌^◌, ◌≤◌, ◌<◌, ◌≡◌, ◌∙◌, refl, sym, ap, Array, arith,
  update, update_self, update_ne, Option, none, some, for, for_keeps, for_at, ℕ_discrete,
}
use native.Mathlib.Nat.{mul-le-mul_right}
use k9r.Kernel.Compute.{Float}
use k9r.Kernel.Fft.{Signal, fft_radix2}
use k9r.Kernel.Fft.Reverse.{mirror-lt}
use k9r.Kernel.Fft.Passes.{at}
use k9r.Kernel.Fft.Recursive.{fourier, fourier-eq}
use k9r.Kernel.Fft.Correct.{fft_radix2-fourier}
use k9r.Kernel.Mfcc.{
  Math, Setup, Work, nb_bins, load, power, log_mel, energy, filterbank, dct_row, dct_stage, frame,
  frames, mfcc,
}
use k9r.Kernel.Mfcc.Frame.{
  windowed, load-windowed, power_of, power-power_of, offset, filterbank-band_at,
}

-- The same loop with rounds that agree.
pub for-eq {ℓ} :
    {S : Type ℓ} (body body' : ℕ → S → S) (n : ℕ) (s : S)
    → ((i : ℕ) → i < n → (t : S) → body i t ≡ body' i t)
    → for n body s ≡ for n body' s
unfolding for
for-eq body body' zero s same = refl
for-eq body body' (suc n) s same =
    same n (omega arith) (for n body s)
    ∙ ap (body' n) (for-eq body body' n s (λ i lt. same i (omega arith)))

module _ {F : Type 0} (fl : Float F) (ma : Math F) (g : Setup F) where
  -- A way to measure the filters gives `value` for each, which takes the bins of the filter only.
  pub record IsMeasure (measure value : Array F → (start off len : ℕ) → F) : Type 0 where
    pub measures :
        (re : Array F) (m : ℕ)
        → m < g.nb_mel
        → measure re (g.mel_start m) (offset fl ma g m) (g.mel_len m)
          ≡ value re (g.mel_start m) (offset fl ma g m) (g.mel_len m)
    pub reads_bins :
        (re re' : Array F) (start off len : ℕ)
        → ((i : ℕ) → i < len → re (start + i) ≡ re' (start + i))
        → value re start off len ≡ value re' start off len

  -- A way to fill the row of a frame from the bands: element `c` becomes `row mel c`, and what
  -- stands before the row stays.
  pub record IsProject (project : Array F → (t : ℕ) → Array F → Array F) (row : Array F → ℕ → F)
      : Type 0 where
    pub fills :
        (mel : Array F) (t : ℕ) (out : Array F) (c : ℕ)
        → c < g.nb_cep
        → project mel t out (t * g.nb_cep + c) ≡ row mel c
    pub before :
        (mel : Array F) (t : ℕ) (out : Array F) (p : ℕ)
        → p < t * g.nb_cep
        → project mel t out p ≡ out p
    pub reads_bands :
        (mel mel' : Array F) (c : ℕ)
        → ((m : ℕ) → m < g.nb_mel → mel m ≡ mel' m)
        → row mel c ≡ row mel' c

  -- The first `n` products of two sequences, added up in order.
  unfoldable pub dot : (x y : ℕ → F) → ℕ → F
  dot x y zero = fl.fzero
  dot x y (suc n) = fl.fadd (dot x y n) (fl.fmul (x n) (y n))

  for-dot :
      (x y : ℕ → F) (n : ℕ)
      → for n (λ i acc. fl.fadd acc (fl.fmul (x i) (y i))) fl.fzero ≡ dot x y n
  unfolding for dot
  for-dot x y zero = refl
  for-dot x y (suc n) = ap (λ acc. fl.fadd acc (fl.fmul (x n) (y n))) (for-dot x y n)

  dot-eq :
      (x x' y y' : ℕ → F) (n : ℕ)
      → ((i : ℕ) → i < n → x i ≡ x' i)
      → ((i : ℕ) → i < n → y i ≡ y' i)
      → dot x y n ≡ dot x' y' n
  unfolding dot
  dot-eq x x' y y' zero first second = refl
  dot-eq x x' y y' (suc n) first second =
      ap₂ fl.fadd
        (dot-eq x x' y y' n (λ i lt. first i (omega arith)) (λ i lt. second i (omega arith)))
        (ap₂ fl.fmul (first n (omega arith)) (second n (omega arith)))

  -- The bins of a filter times its coefficients, which start at `off`.
  abbrev pub filter_sum : Array F → (start off len : ℕ) → F
  filter_sum re start off len = dot (λ i. re (start + i)) (λ i. g.mel_coeff (off + i)) len

  energy-IsMeasure : IsMeasure (energy fl ma g) filter_sum
  unfolding energy
  energy-IsMeasure = record {
    measures = λ re m hm.
        for-dot (λ i. re (g.mel_start m + i)) (λ i. g.mel_coeff (offset fl ma g m + i))
          (g.mel_len m);
    reads_bins = λ re re' start off len same.
        dot-eq (λ i. re (start + i)) (λ i. re' (start + i)) (λ i. g.mel_coeff (off + i))
          (λ i. g.mel_coeff (off + i)) len same (λ i lt. refl);
  }

  -- Row `c` of the DCT, a matrix of rows of `nb_mel`, times the bands.
  abbrev pub row_sum : Array F → ℕ → F
  row_sum mel c = dot (λ m. g.dct (c * g.nb_mel + m)) mel g.nb_mel

  pub dct_row-row_sum : (mel : Array F) (c : ℕ) → dct_row fl ma g mel c ≡ row_sum mel c
  unfolding dct_row
  dct_row-row_sum mel c = for-dot (λ m. g.dct (c * g.nb_mel + m)) mel g.nb_mel

  pub dct_stage-IsProject : IsProject (dct_stage fl ma g) row_sum
  unfolding dct_stage
  dct_stage-IsProject = record {
    fills = λ mel t out c hc.
        for_at (λ q y. update y (t * g.nb_cep + q) (dct_row fl ma g mel q)) (t * g.nb_cep + c)
          g.nb_cep c _ out hc
          (λ q lt ne x. update_ne x (t * g.nb_cep + q) _ (λ e. ne (omega (arith, e))))
          (λ x. update_self x (t * g.nb_cep + c) _)
        ∙ dct_row-row_sum mel c;
    before = λ mel t out p hp.
        for_keeps (λ q y. update y (t * g.nb_cep + q) (dct_row fl ma g mel q)) (λ y. y p) g.nb_cep
          out (λ q lt x. update_ne x (t * g.nb_cep + q) _ (λ e. absurd (omega (arith, e))));
    reads_bands = λ mel mel' c same.
        dot-eq (λ m. g.dct (c * g.nb_mel + m)) (λ m. g.dct (c * g.nb_mel + m)) mel mel' g.nb_mel
          (λ m lt. refl) same;
  }

  -- The length of the FFT is 2 ^ `k`, a frame is not longer, and the filters lie in its bins.
  pub record IsSetup (k : ℕ) : Type 0 where
    pub small : k ≤ 30
    pub length : g.fft_len ≡ 2 ^ k
    pub fits : g.frame_len ≤ g.fft_len
    pub bins : (m : ℕ) → m < g.nb_mel → g.mel_start m + g.mel_len m ≤ nb_bins g

  -- The power spectrum of frame `t`, and its band `m` when `value` adds up a filter.
  abbrev pub spectrum : (k t b : ℕ) → F
  spectrum k t b = power_of fl ma g (fourier fl ma.fsub g.twiddles (2 ^ k) k (windowed fl ma g t) b)

  abbrev pub band : (Array F → (start off len : ℕ) → F) → (k t m : ℕ) → F
  band value k t m =
      let sum = value (spectrum k t) (g.mel_start m) (offset fl ma g m) (g.mel_len m) in
      ma.logf (if ma.exceeds sum ma.log_floor then sum else ma.log_floor)

  module _ (k : ℕ) (su : IsSetup k) (measure value : Array F → (start off len : ℕ) → F)
      (me : IsMeasure measure value) (project : Array F → (t : ℕ) → Array F → Array F)
      (row : Array F → ℕ → F) (pr : IsProject project row) where
    transformed :
        (t : ℕ) (s : Signal F)
        → (s' : Signal F) × (fft_radix2 fl ma.fsub g.twiddles g.fft_len (load fl ma g t s)
            ≡ some s')
          × ((b : ℕ) → b < nb_bins g → (power fl ma g s').re b ≡ spectrum k t b)
    transformed t s =
        let (s', ends, whole) =
          fft_radix2-fourier fl ma.fsub g.twiddles k su.small (load fl ma g t s) in
        (
          s',
          ap (λ n. fft_radix2 fl ma.fsub g.twiddles n (load fl ma g t s)) su.length ∙ ends,
          λ b hb.
              let inside : b < 2 ^ k = omega (arith, su.length, mirror-lt k 0) in
              power-power_of fl ma g s' b hb
              ∙ ap (power_of fl ma g) (
                  whole b inside
                  ∙ fourier-eq fl ma.fsub g.twiddles (2 ^ k) k (at (load fl ma g t s))
                      (windowed fl ma g t) b inside
                      (λ i hi. load-windowed fl ma g t i s su.fits (omega (arith, su.length)))),
        )

    frame-cepstrum :
        (t : ℕ) (w : Work F)
        → (w' : Work F) × (frame fl ma g measure project t w ≡ some w')
          × ((c : ℕ) → c < g.nb_cep → w'.out (t * g.nb_cep + c) ≡ row (band value k t) c)
          × ((p : ℕ) → p < t * g.nb_cep → w'.out p ≡ w.out p)
    unfolding frame
    frame-cepstrum t w =
        let (s', ends, bins) = transformed t w.signal in
        let spec : Signal F = power fl ma g s' in
        let bands = filterbank fl ma g measure spec.re w.mel in
        let after : Option (Signal F) → Option (Work F) = λ r. elim r [
          | none ↦ none
          | some s ↦
              let sp = power fl ma g s in
              let ba = filterbank fl ma g measure sp.re w.mel in
              some record { signal = sp; mel = ba.1; out = project ba.1 t w.out }
        ] in
        (
          record { signal = spec; mel = bands.1; out = project bands.1 t w.out },
          ap after ends,
          λ c hc.
              pr.fills bands.1 t w.out c hc
              ∙ pr.reads_bands bands.1 (band value k t) c (λ m hm.
                filterbank-band_at fl ma g measure spec.re w.mel m hm
                ∙ ap (log_mel fl ma g) (
                    me.measures spec.re m hm
                    ∙ me.reads_bins spec.re (spectrum k t) (g.mel_start m) (offset fl ma g m)
                        (g.mel_len m)
                        (λ i hi. bins (g.mel_start m + i) (omega (arith, su.bins m hm))))),
          λ p hp. pr.before bands.1 t w.out p hp,
        )

    pub frames-cepstrum :
        (n : ℕ) (w : Work F)
        → (w' : Work F) × (frames fl ma g measure project n w ≡ some w')
          × ((t c : ℕ) → t < n → c < g.nb_cep → w'.out (t * g.nb_cep + c) ≡ row (band value k t) c)
    unfolding frames
    frames-cepstrum zero w = (w, refl, λ t c ht hc. absurd (omega arith))
    frames-cepstrum (suc n) w =
        let (w', ends, done) = frames-cepstrum n w in
        let (w'', ends', here, before) = frame-cepstrum n w' in
        let after : Option (Work F) → Option (Work F) =
          λ r. elim r [ none ↦ none | some v ↦ frame fl ma g measure project n v ] in
        (
          w'',
          ap after ends ∙ ends',
          λ t c ht hc. elim (ℕ_discrete t n) [
            | yes last ↦
                ap (λ q. w''.out (q * g.nb_cep + c)) last
                ∙ here c hc
                ∙ ap (λ q. row (band value k q) c) (sym last)
            | no earlier ↦
                let lt : t < n = omega arith in
                before (t * g.nb_cep + c) (omega (arith, mul-le-mul_right g.nb_cep lt))
                ∙ done t c lt hc
          ],
        )

  -- The portable kernel ends, and gives for each frame its cepstra: each is the row of the DCT times
  -- the bands, added up in order; a band is the logarithm, floored, of the filter's coefficients
  -- times the power spectrum, added up in order; and the spectrum is that of the Fourier transform
  -- of the windowed and padded frame. This is for an FFT whose length is a power of two up to
  -- 2 ^ 30, frames that are not longer, and filters within the bins.
  pub mfcc-cepstra :
      (k : ℕ) (w : Work F)
      → IsSetup k
      → (w' : Work F) × (mfcc fl ma g w ≡ some w')
        × ((t c : ℕ)
            → t < g.nb_frames
            → c < g.nb_cep
            → w'.out (t * g.nb_cep + c) ≡ row_sum (band filter_sum k t) c)
  unfolding mfcc
  mfcc-cepstra k w su =
      frames-cepstrum k su (energy fl ma g) filter_sum energy-IsMeasure (dct_stage fl ma g) row_sum
        dct_stage-IsProject g.nb_frames w

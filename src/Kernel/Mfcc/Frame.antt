-- ===== src/Kernel/Mfcc/Frame.antt =====
-- The stages of a frame of the MFCC kernels, each by its elements.
use mathlib.Core.Path.{ap₂}
use k9r.Base.{
  ℕ, zero, suc, ◌+◌, ◌-◌, ◌*◌, ◌≤◌, ◌<◌, ◌≡◌, ◌≢◌, ◌∙◌, refl, sym, ap, Array, arith, update,
  update_self, update_ne, add32, ltb, lt→ltb, le→ltb, if◌then◌else◌, if_true, if_false, dec_lt, for,
  for_keeps, for_once, ℕ_discrete,
}
use k9r.Kernel.Compute.{Float}
use k9r.Kernel.Fft.{Signal}
use k9r.Kernel.Fft.Passes.{Complex, at}
use k9r.Kernel.Mfcc.{Math, Setup, nb_bins, load, power, log_mel, filterbank}

module _ {F : Type 0} (fl : Float F) (ma : Math F) (g : Setup F) where
  -- Element `i` of frame `t`, windowed and padded, as a complex number.
  abbrev pub windowed : (t i : ℕ) → Complex F
  windowed t i = (
    if ltb i g.frame_len then fl.fmul (g.audio (t * g.hop + i)) (g.window i) else fl.fzero,
    fl.fzero,
  )

  pub load-windowed :
      (t i : ℕ) (s : Signal F)
      → g.frame_len ≤ g.fft_len
      → i < g.fft_len
      → at (load fl ma g t s) i ≡ windowed t i
  unfolding load
  load-windowed t i s fits hi =
      let put : ℕ → F → Signal F → Signal F =
        λ p v x. record { re = update x.re p v; im = update x.im p fl.fzero } in
      let view : Signal F → Complex F = λ x. at x i in
      let leaves : (p : ℕ) (v : F) → p ≢ i → (x : Signal F) → view (put p v x) ≡ view x =
        λ p v ne x. ap₂ (λ a b. (a, b)) (update_ne x.re p v ne) (update_ne x.im p fl.fzero ne) in
      let writes : (v : F) (x : Signal F) → view (put i v x) ≡ (v, fl.fzero) =
        λ v x. ap₂ (λ a b. (a, b)) (update_self x.re i v) (update_self x.im i fl.fzero) in
      let sample : ℕ → F = λ j. fl.fmul (g.audio (t * g.hop + j)) (g.window j) in
      let first = for g.frame_len (λ j. put j (sample j)) s in
      elim (dec_lt i g.frame_len) [
        | yes inside ↦
            for_keeps (λ j. put (g.frame_len + j) fl.fzero) view (g.fft_len - g.frame_len) first
              (λ j lt x. leaves (g.frame_len + j) fl.fzero (λ e. absurd (omega (arith, e))) x)
            ∙ for_once (λ j. put j (sample j)) view g.frame_len i (λ z. (sample i, fl.fzero)) s
                inside (λ j lt ne x. leaves j (sample j) ne x) (writes (sample i))
            ∙ ap (λ v. (v, fl.fzero)) (sym (if_true fl.fzero (lt→ltb i g.frame_len inside)))
        | no past ↦
            let j : ℕ = i - g.frame_len in
            let place : g.frame_len + j ≡ i = omega arith in
            for_once (λ q. put (g.frame_len + q) fl.fzero) view (g.fft_len - g.frame_len) j
              (λ z. (fl.fzero, fl.fzero)) first (omega arith)
              (λ q lt ne x. leaves (g.frame_len + q) fl.fzero (λ e. ne (omega (arith, e))) x)
              (λ x. ap (λ q. view (put q fl.fzero x)) place ∙ writes fl.fzero x)
            ∙ ap (λ v. (v, fl.fzero)) (sym (if_false _ (le→ltb i g.frame_len (omega arith))))
      ]

  -- The power of a complex number.
  abbrev pub power_of : Complex F → F
  power_of z = fl.fadd (fl.fmul z.0 z.0) (fl.fmul z.1 z.1)

  pub power-power_of :
      (s : Signal F) (b : ℕ) → b < nb_bins g → (power fl ma g s).re b ≡ power_of (at s b)
  unfolding power
  power-power_of s b hb =
      let body : ℕ → Signal F → Signal F = λ q x. record x {
        re = update x.re q (fl.fadd (fl.fmul (x.re q) (x.re q)) (fl.fmul (x.im q) (x.im q)));
      } in
      ap (λ z. z.0)
        (for_once body (λ x. at x b) (nb_bins g) b (λ z. (power_of z, z.1)) s hb
          (λ q lt ne x. ap (λ v. (v, x.im b)) (update_ne x.re q _ ne))
          (λ x. ap (λ v. (v, x.im b)) (update_self x.re b _)))

  -- Where the coefficients of filter `m` start.
  unfoldable pub offset : ℕ → ℕ
  offset zero = 0
  offset (suc m) = add32 (offset m) (g.mel_len m)

  module _ (measure : Array F → (start off len : ℕ) → F) (re mel : Array F) where
    -- Band `m`, with coefficients from `off` on.
    abbrev band_at : (m off : ℕ) → F
    band_at m off = log_mel fl ma g (measure re (g.mel_start m) off (g.mel_len m))

    abbrev round : ℕ → ℕ × Array F → ℕ × Array F
    round m s = (add32 s.0 (g.mel_len m), update s.1 m (band_at m s.0))

    round-offset : (n : ℕ) → (for n round (0, mel)).0 ≡ offset n
    unfolding for offset
    round-offset zero = refl
    round-offset (suc n) = ap (λ o. add32 o (g.mel_len n)) (round-offset n)

    round-band_at : (n m : ℕ) → m < n → (for n round (0, mel)).1 m ≡ band_at m (offset m)
    unfolding for
    round-band_at zero m lt = absurd (omega arith)
    round-band_at (suc n) m lt =
        let s : ℕ × Array F = for n round (0, mel) in
        elim (ℕ_discrete m n) [
          | yes last ↦
              ap (update s.1 n (band_at n s.0)) last
              ∙ update_self s.1 n (band_at n s.0)
              ∙ ap (band_at n) (round-offset n)
              ∙ ap (λ q. band_at q (offset q)) (sym last)
          | no before ↦
              update_ne s.1 n (band_at n s.0) (λ e. before (sym e))
              ∙ round-band_at n m (omega arith)
        ]

    pub filterbank-band_at :
        (m : ℕ) → m < g.nb_mel → (filterbank fl ma g measure re mel).1 m ≡ band_at m (offset m)
    unfolding filterbank
    filterbank-band_at m hm = round-band_at g.nb_mel m hm

-- ===== src/Kernel/Mfcc/Streamed/Correct.antt =====
-- The streamed `Mfcc_fp32_fp32` of runtime/snitch/kernels/mfcc_fp32_ssr.c computes the cepstra.
use mathlib.Core.Path.{ap₂}
use k9r.Base.{
  ℕ, ◌+◌, ◌-◌, ◌*◌, ◌/◌, ◌%◌, ◌≤◌, ◌<◌, ◌≡◌, ◌≢◌, ◌∙◌, inl, inr, sym, ap, Array, arith, update,
  update_self, update_ne, ltb, lt→ltb, le→ltb, ◌||◌, ◌==◌, if◌then◌else◌, if_true, if_false, true,
  Bool-cases, dec_lt, some, for, for_keeps, for_at,
}
use k9r.Ssr.Nest.{IsCount}
use k9r.Kernel.Compute.{Float}
use k9r.Kernel.Mfcc.{Math, Setup, Work, dct_row, frames}
use k9r.Kernel.Mfcc.Frame.{offset}
use k9r.Kernel.Mfcc.Correct.{
  row_sum, dct_row-row_sum, IsProject, IsSetup, band, dct_stage-IsProject, frames-cepstrum,
}
use k9r.Kernel.Mfcc.Streamed.{lanes, Pointers, Streams, mel_energy, row_acc, dct_blocks, mfcc_ssr}
use k9r.Kernel.Mfcc.Streamed.Filters.{fused_dot-eq, by_lanes, mel_energy-IsMeasure}
use k9r.Kernel.Mfcc.Streamed.Lanes.{AreStreams, IsMemory, fused_row, row_acc-fused_row}

module _ {F : Type 0} (fl : Float F) (ma : Math F) (g : Setup F) where
  -- A cepstrum: fused in the full blocks of four, not in those that are left.
  abbrev pub by_blocks : Array F → ℕ → F
  by_blocks mel c =
      if ltb c (g.nb_cep / lanes * lanes) then fused_row fl g mel c else row_sum fl ma g mel c

  module _ (ptrs : Pointers) (st : Streams) (bins_mem bands_mem : Array F → ℕ → F) (nb_coeff : ℕ)
      (me : IsMemory fl ma g ptrs st bins_mem bands_mem nb_coeff) (cfg_a cfg_b : Array ℕ)
      (ar : AreStreams g.nb_mel cfg_a cfg_b st) where
    -- The part of a row that is streamed, and the rest.
    abbrev full : ℕ
    full = g.nb_cep / lanes * lanes

    abbrev put_row : Array F → (t b : ℕ) → Array F → Array F
    put_row mel t b = for lanes (λ u y.
        update y (t * g.nb_cep + (b * lanes + u))
          (row_acc fl ma g ptrs st bins_mem bands_mem mel (b * lanes) u))

    put_row_out :
        (mel : Array F) (t b p : ℕ) (y : Array F)
        → ((u : ℕ) → u < lanes → t * g.nb_cep + (b * lanes + u) ≢ p)
        → put_row mel t b y p ≡ y p
    put_row_out mel t b p y out =
        for_keeps _ (λ x. x p) lanes y
          (λ u hu x. update_ne x (t * g.nb_cep + (b * lanes + u)) _ (out u hu))

    streamed_at :
        (mel : Array F) (t c : ℕ) (y : Array F)
        → IsCount g.nb_mel
        → c < full
        → for (g.nb_cep / lanes) (put_row mel t) y (t * g.nb_cep + c) ≡ fused_row fl g mel c
    streamed_at mel t c y count hc =
        let b : ℕ = c / lanes in
        let u : ℕ = c % lanes in
        let p : ℕ = t * g.nb_cep + c in
        let split : b * lanes + u ≡ c = omega arith in
        for_at (put_row mel t) p (g.nb_cep / lanes) b _ y (omega arith)
          (λ b' lt ne x. put_row_out mel t b' p x (λ v hv e. ne (omega (arith, e))))
          (λ x.
            for_at _ p lanes u _ x (omega arith)
              (λ v hv ne x'.
                update_ne x' (t * g.nb_cep + (b * lanes + v)) _ (λ e. ne (omega (arith, e))))
              (λ x'.
                ap
                  (λ q.
                    update x' (t * g.nb_cep + q)
                      (row_acc fl ma g ptrs st bins_mem bands_mem mel (b * lanes) u) p)
                  split
                ∙ update_self x' p _
                ∙ row_acc-fused_row fl ma g ptrs st bins_mem bands_mem nb_coeff me cfg_a cfg_b ar
                    mel (b * lanes) u count (omega arith) (omega arith)
                ∙ ap (fused_row fl g mel) split))

    abbrev put_rest : Array F → (t r : ℕ) → Array F → Array F
    put_rest mel t r y = update y (t * g.nb_cep + (full + r)) (dct_row fl ma g mel (full + r))

    pub dct_blocks-IsProject :
        IsCount g.nb_mel
        → IsProject fl ma g (dct_blocks fl ma g ptrs st bins_mem bands_mem) by_blocks
    unfolding dct_blocks
    dct_blocks-IsProject count = record {
      fills = λ mel t out c hc.
          let p : ℕ = t * g.nb_cep + c in
          let streamed = for (g.nb_cep / lanes) (put_row mel t) out in
          elim (dec_lt c full) [
            | yes lt ↦
                for_keeps (put_rest mel t) (λ y. y p) (g.nb_cep - full) streamed
                  (λ r hr x.
                    update_ne x (t * g.nb_cep + (full + r)) _ (λ e. absurd (omega (arith, e))))
                ∙ streamed_at mel t c out count lt
                ∙ sym (if_true (row_sum fl ma g mel c) (lt→ltb c full lt))
            | no ge ↦
                let r : ℕ = c - full in
                let place : full + r ≡ c = omega arith in
                for_at (put_rest mel t) p (g.nb_cep - full) r _ streamed (omega arith)
                  (λ q hq ne x.
                    update_ne x (t * g.nb_cep + (full + q)) _ (λ e. ne (omega (arith, e))))
                  (λ x.
                    ap (λ q. update x (t * g.nb_cep + q) (dct_row fl ma g mel q) p) place
                    ∙ update_self x p _)
                ∙ dct_row-row_sum fl ma g mel c
                ∙ sym (if_false (fused_row fl g mel c) (le→ltb c full (omega arith)))
          ];
      before = λ mel t out p hp.
          for_keeps (put_rest mel t) (λ y. y p) (g.nb_cep - full)
            (for (g.nb_cep / lanes) (put_row mel t) out)
            (λ r hr x. update_ne x (t * g.nb_cep + (full + r)) _ (λ e. absurd (omega (arith, e))))
          ∙ for_keeps (put_row mel t) (λ y. y p) (g.nb_cep / lanes) out
              (λ b hb x. put_row_out mel t b p x (λ u hu e. absurd (omega (arith, e))));
      reads_bands = λ mel mel' c same.
          ap₂ (λ a b. if ltb c full then a else b)
            (fused_dot-eq fl mel mel' (λ k. g.dct (c * g.nb_mel + k)) g.nb_mel same)
            ((dct_stage-IsProject fl ma g).reads_bands mel mel' c same);
    }

    -- The streamed kernel ends, and gives for each frame the cepstra of the portable kernel up to the
    -- order of additions and the fused operations: a filter is added up in four lanes and a tail,
    -- and the rows of full blocks of four are fused. This is for the setups of the portable kernel,
    -- memory that holds the arrays at their pointers, and address generators that do what is
    -- documented.
    pub mfcc_ssr-cepstra :
        (k : ℕ) (w : Work F)
        → IsSetup fl ma g k
        → ((m : ℕ) → m < g.nb_mel → offset fl ma g m + g.mel_len m ≤ nb_coeff)
        → IsCount g.nb_mel
        → (w' : Work F) × (mfcc_ssr fl ma g ptrs st bins_mem bands_mem w ≡ some w')
          × ((t c : ℕ)
              → t < g.nb_frames
              → c < g.nb_cep
              → w'.out (t * g.nb_cep + c) ≡ by_blocks (band fl ma g (by_lanes fl ma g) k t) c)
    unfolding mfcc_ssr
    mfcc_ssr-cepstra k w su within count =
        let energy = mel_energy fl ma g ptrs st bins_mem bands_mem in
        let blocks = dct_blocks fl ma g ptrs st bins_mem bands_mem in
        elim (Bool-cases ((g.nb_frames == 0) || ((g.nb_mel == 0) || (g.nb_cep == 0)))) [
          | inl empty ↦ (
            w,
            if_true (frames fl ma g energy blocks g.nb_frames w) empty,
            λ t c ht hc. absurd (nothing t c ht hc (count.0) empty),
          )
          | inr work ↦
              let (w', ends, cepstra) =
                frames-cepstrum fl ma g k su energy (by_lanes fl ma g)
                  (mel_energy-IsMeasure fl ma g ptrs st bins_mem bands_mem nb_coeff me cfg_a cfg_b
                    ar k su within)
                  blocks by_blocks (dct_blocks-IsProject count) g.nb_frames w in
              (w', if_false (some w) work ∙ ends, cepstra)
        ]
      where
        nothing :
            (t c : ℕ)
            → t < g.nb_frames
            → c < g.nb_cep
            → 0 < g.nb_mel
            → ((g.nb_frames == 0) || ((g.nb_mel == 0) || (g.nb_cep == 0))) ≡ true
            → ⊥
        nothing t c ht hc hm e = ground arith

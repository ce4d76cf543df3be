-- ===== src/Kernel/Mfcc/Streamed/Lanes.antt =====
-- What the streams of runtime/snitch/kernels/mfcc_fp32_ssr.c deliver, and the accumulators that its
-- instructions leave.
use native.Mathlib.Nat.{mul-le-mul_right}
use k9r.Base.{
  ℕ, zero, suc, ◌+◌, ◌-◌, ◌*◌, ◌≤◌, ◌<◌, ◌≡◌, ◌∙◌, refl, ap, Array, arith, u32_mod, mul32,
  mul32-u32,
}
use k9r.Ssr.{ssr_1d, ssr_2d, loop_2d, repeat, read}
use k9r.Ssr.Walk.{Delivers, InTurn}
use k9r.Ssr.Nest.{IsCount, loop_2d-walks}
use k9r.Ssr.Line.{line}
use k9r.Kernel.Gemm.{stride, elem_addr}
use k9r.Kernel.Compute.{Float}
use k9r.Kernel.Compute.Order.{position_2d}
use k9r.Kernel.Compute.Block.{fma_at, column, frep-Replayed}
use k9r.Kernel.Mfcc.{Math, Setup, nb_bins}
use k9r.Kernel.Mfcc.Streamed.{
  lanes, Pointers, Streams, filter_stream, band_stream, row_stream, start, filter_acc, row_acc,
}

-- The address generators do what is documented, whatever the pointer and the count are.
pub record AreStreams (nb_mel : ℕ) (cfg_a cfg_b : Array ℕ) (st : Streams) : Type 0 where
  pub addr_bins : (ptr count : ℕ) → ℕ → ℕ → ℕ → ℕ → ℕ
  pub addr_coeffs : (ptr count : ℕ) → ℕ → ℕ → ℕ → ℕ → ℕ
  pub addr_bands : (ptr : ℕ) → ℕ → ℕ → ℕ → ℕ → ℕ
  pub addr_rows : (ptr : ℕ) → ℕ → ℕ → ℕ → ℕ → ℕ
  pub delivers_bins :
      (ptr count : ℕ) → Delivers (filter_stream ptr count cfg_a) ssr_1d (addr_bins ptr count)
  pub turn_bins :
      (ptr count : ℕ)
      → InTurn (filter_stream ptr count cfg_a) ssr_1d (addr_bins ptr count) (st.bins ptr count)
  pub delivers_coeffs :
      (ptr count : ℕ) → Delivers (filter_stream ptr count cfg_b) ssr_1d (addr_coeffs ptr count)
  pub turn_coeffs :
      (ptr count : ℕ)
      → InTurn (filter_stream ptr count cfg_b) ssr_1d (addr_coeffs ptr count) (st.coeffs ptr count)
  pub delivers_bands : (ptr : ℕ) → Delivers (band_stream nb_mel ptr cfg_a) ssr_1d (addr_bands ptr)
  pub turn_bands :
      (ptr : ℕ) → InTurn (band_stream nb_mel ptr cfg_a) ssr_1d (addr_bands ptr) (st.bands ptr)
  pub delivers_rows : (ptr : ℕ) → Delivers (row_stream nb_mel ptr cfg_b) ssr_2d (addr_rows ptr)
  pub turn_rows :
      (ptr : ℕ) → InTurn (row_stream nb_mel ptr cfg_b) ssr_2d (addr_rows ptr) (st.rows ptr)

-- `n` fused products, from 0 on.
unfoldable pub fused_dot : {F : Type 0} → Float F → (x y : ℕ → F) → ℕ → F
fused_dot fl x y zero = fl.fzero
fused_dot fl x y (suc n) = fl.fmadd (x n) (y n) (fused_dot fl x y n)

-- An accumulator on streams that deliver `x` and `y`.
column-fused_dot :
    {F : Type 0} (fl : Float F) (mem : ℕ → F) (seq_a seq_b : ℕ → ℕ) (width u n : ℕ) (x y : ℕ → F)
    → ((k : ℕ) → k < n → (mem (seq_a (k * width + u)) ≡ x k) × (mem (seq_b (k * width + u)) ≡ y k))
    → column fl mem seq_a seq_b width 0 u fl.fzero n ≡ fused_dot fl x y n
unfolding column fused_dot
column-fused_dot fl mem seq_a seq_b width u zero x y at = refl
column-fused_dot {F} fl mem seq_a seq_b width u (suc n) x y at =
    let c : F = column fl mem seq_a seq_b width 0 u fl.fzero n in
    let place : 0 + n * width + u ≡ n * width + u = omega arith in
    let (a, b) = at n (omega arith) in
    ap (λ p. fma_at fl mem seq_a seq_b width p c) place
    ∙ ap (λ v. fl.fmadd v (mem (seq_b (n * width + u))) c) a
    ∙ ap (λ v. fl.fmadd (x n) v c) b
    ∙ ap (fl.fmadd (x n) (y n))
        (column-fused_dot fl mem seq_a seq_b width u n x y (λ k lt. at k (omega arith)))

module _ {F : Type 0} (fl : Float F) (g : Setup F) where
  -- Every fourth product of a filter, from element `u` on.
  abbrev pub lane : Array F → (first off u : ℕ) → (k : ℕ) → F
  lane re first off u =
      fused_dot fl (λ k. re (first + (k * lanes + u))) (λ k. g.mel_coeff (off + (k * lanes + u)))

  -- The products of a row of the DCT, one after the other.
  abbrev pub fused_row : Array F → (c : ℕ) → F
  fused_row mel c = fused_dot fl mel (λ k. g.dct (c * g.nb_mel + k)) g.nb_mel

module _ {F : Type 0} (fl : Float F) (ma : Math F) (g : Setup F) (ptrs : Pointers) (st : Streams)
    (bins_mem bands_mem : Array F → ℕ → F) where
  -- Memory holds the arrays at their pointers: the spectrum, `nb_coeff` coefficients, the bands, and
  -- the matrix of the DCT.
  pub record IsMemory (nb_coeff : ℕ) : Type 0 where
    pub re_at : (re : Array F) (i : ℕ) → i < nb_bins g → bins_mem re (elem_addr ptrs.re i) ≡ re i
    pub coeff_at :
        (re : Array F) (i : ℕ)
        → i < nb_coeff
        → bins_mem re (elem_addr ptrs.mel_coeff i) ≡ g.mel_coeff i
    pub mel_at :
        (mel : Array F) (i : ℕ) → i < g.nb_mel → bands_mem mel (elem_addr ptrs.mel i) ≡ mel i
    pub dct_at :
        (mel : Array F) (i : ℕ)
        → i < g.nb_cep * g.nb_mel
        → bands_mem mel (elem_addr ptrs.dct i) ≡ g.dct i

  module _ (nb_coeff : ℕ) (me : IsMemory nb_coeff) (cfg_a cfg_b : Array ℕ)
      (ar : AreStreams g.nb_mel cfg_a cfg_b st) where
    pub filter_at :
        (re : Array F) (first off blocks i : ℕ)
        → blocks * lanes < u32_mod
        → first + blocks * lanes ≤ nb_bins g
        → off + blocks * lanes ≤ nb_coeff
        → i < blocks * lanes
        → (bins_mem re (st.bins (elem_addr ptrs.re first) (blocks * lanes) i) ≡ re (first + i))
          × (bins_mem re (st.coeffs (elem_addr ptrs.mel_coeff off) (blocks * lanes) i)
              ≡ g.mel_coeff (off + i))
    unfolding filter_stream
    filter_at re first off blocks i fits hb hc hi =
        let count : ℕ = blocks * lanes in
        let some : IsCount count = (omega arith, fits) in
        let p : ℕ = elem_addr ptrs.re first in
        let q : ℕ = elem_addr ptrs.mel_coeff off in
        (
          ap (λ a. bins_mem re (st.bins p count a)) (omega arith)
              ∙ ap (bins_mem re) (
                  line count 1 stride p cfg_a (ar.addr_bins p count) (st.bins p count) some
                    (omega arith) (ar.delivers_bins p count) (ar.turn_bins p count) i 0 hi
                    (omega arith))
              ∙ ap (bins_mem re) (omega arith)
              ∙ me.re_at re (first + i) (omega arith),
          ap (λ a. bins_mem re (st.coeffs q count a)) (omega arith)
              ∙ ap (bins_mem re) (
                  line count 1 stride q cfg_b (ar.addr_coeffs q count) (st.coeffs q count) some
                    (omega arith) (ar.delivers_coeffs q count) (ar.turn_coeffs q count) i 0 hi
                    (omega arith))
              ∙ ap (bins_mem re) (omega arith)
              ∙ me.coeff_at re (off + i) (omega arith),
        )

    pub filter_acc-lane :
        (re : Array F) (first off blocks u : ℕ)
        → 0 < blocks
        → blocks * lanes < u32_mod
        → first + blocks * lanes ≤ nb_bins g
        → off + blocks * lanes ≤ nb_coeff
        → u < lanes
        → filter_acc fl ma g ptrs st bins_mem bands_mem re first off blocks u
          ≡ lane fl g re first off u blocks
    unfolding filter_acc
    filter_acc-lane re first off blocks u some fits hb hc hu =
        (frep-Replayed fl (bins_mem re) seq_a seq_b lanes 0 (blocks - 1 + 1)
            (start fl ma g ptrs st bins_mem bands_mem) refl refl).acc
          u hu
        ∙ ap (column fl (bins_mem re) seq_a seq_b lanes 0 u fl.fzero) all
        ∙ column-fused_dot fl (bins_mem re) seq_a seq_b lanes u blocks
            (λ k. re (first + (k * lanes + u))) (λ k. g.mel_coeff (off + (k * lanes + u)))
            (λ k lt. filter_at re first off blocks (k * lanes + u) fits hb hc (omega arith))
      where
        seq_a : ℕ → ℕ
        seq_a = st.bins (elem_addr ptrs.re first) (blocks * lanes)

        seq_b : ℕ → ℕ
        seq_b = st.coeffs (elem_addr ptrs.mel_coeff off) (blocks * lanes)

        all : blocks - 1 + 1 ≡ blocks
        all = omega arith

    row_at :
        (mel : Array F) (c k u : ℕ)
        → IsCount g.nb_mel
        → c + lanes ≤ g.nb_cep
        → k < g.nb_mel
        → u < lanes
        → (bands_mem mel (st.bands ptrs.mel (k * lanes + u)) ≡ mel k)
          × (bands_mem mel (st.rows (elem_addr ptrs.dct (c * g.nb_mel)) (k * lanes + u))
              ≡ g.dct ((c + u) * g.nb_mel + k))
    unfolding band_stream row_stream read loop_2d repeat
    row_at mel c k u some hc hk hu =
        let p : ℕ = ptrs.mel in
        let q : ℕ = elem_addr ptrs.dct (c * g.nb_mel) in
        let row : c + u + 1 ≤ g.nb_cep = omega arith in
        (
          ap (bands_mem mel) (
                line g.nb_mel lanes stride p cfg_a (ar.addr_bands p) (st.bands p) some (omega arith)
                  (ar.delivers_bands p) (ar.turn_bands p) k u hk hu)
              ∙ ap (bands_mem mel) (omega arith)
              ∙ me.mel_at mel k hk,
          ap (λ a. bands_mem mel (st.rows q a)) (omega arith)
              ∙ ap (bands_mem mel) (
                  position_2d (row_stream g.nb_mel q cfg_b) (ar.addr_rows q) (st.rows q) lanes
                    (g.nb_mel - 1) 1 (omega arith) (omega arith) (omega arith) (ar.turn_rows q) u k
                    0 hu (omega arith) (omega arith)
                  ∙ loop_2d-walks lanes g.nb_mel (mul32 g.nb_mel stride) stride q (repeat 1 cfg_b)
                      (ar.addr_rows q) (omega arith) some (ar.delivers_rows q) u k hu hk
                  ∙ omega (arith, mul32-u32 (g.nb_mel * stride) u))
              ∙ me.dct_at mel ((c + u) * g.nb_mel + k)
                  (omega (arith, mul-le-mul_right g.nb_mel row)),
        )

    pub row_acc-fused_row :
        (mel : Array F) (c u : ℕ)
        → IsCount g.nb_mel
        → c + lanes ≤ g.nb_cep
        → u < lanes
        → row_acc fl ma g ptrs st bins_mem bands_mem mel c u ≡ fused_row fl g mel (c + u)
    unfolding row_acc
    row_acc-fused_row mel c u some hc hu =
        let seq_a : ℕ → ℕ = st.bands ptrs.mel in
        let seq_b : ℕ → ℕ = st.rows (elem_addr ptrs.dct (c * g.nb_mel)) in
        let all : g.nb_mel - 1 + 1 ≡ g.nb_mel = omega (arith, some) in
        (frep-Replayed fl (bands_mem mel) seq_a seq_b lanes 0 (g.nb_mel - 1 + 1)
            (start fl ma g ptrs st bins_mem bands_mem) refl refl).acc
          u hu
        ∙ ap (column fl (bands_mem mel) seq_a seq_b lanes 0 u fl.fzero) all
        ∙ column-fused_dot fl (bands_mem mel) seq_a seq_b lanes u g.nb_mel mel
            (λ k. g.dct ((c + u) * g.nb_mel + k)) (λ k lt. row_at mel c k u some hc lt hu)

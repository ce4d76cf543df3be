-- ===== src/Kernel/Mfcc/Streamed/Filters.antt =====
-- The filters of runtime/snitch/kernels/mfcc_fp32_ssr.c: `mel_energy` adds them up in four lanes.
use mathlib.Core.Path.{ap₂}
use k9r.Base.{
  ℕ, zero, suc, ◌+◌, ◌-◌, ◌*◌, ◌/◌, ◌≤◌, ◌<◌, ◌≡◌, ◌∙◌, inl, inr, refl, sym, ap, Array, arith,
  u32_mod, ◌==◌, beq→ne, if◌then◌else◌, if_true, Bool-cases, for,
}
use k9r.Kernel.Compute.{Float}
use k9r.Kernel.Fft.Correct.{power-lt}
use k9r.Kernel.Mfcc.{Math, Setup, nb_bins}
use k9r.Kernel.Mfcc.Frame.{offset}
use k9r.Kernel.Mfcc.Correct.{for-eq, IsMeasure, IsSetup}
use k9r.Kernel.Mfcc.Streamed.{lanes, Pointers, Streams, filter_acc, mel_energy}
use k9r.Kernel.Mfcc.Streamed.Lanes.{AreStreams, IsMemory, fused_dot, lane, filter_acc-lane}

pub fused_dot-eq :
    {F : Type 0} (fl : Float F) (x x' y : ℕ → F) (n : ℕ)
    → ((k : ℕ) → k < n → x k ≡ x' k)
    → fused_dot fl x y n ≡ fused_dot fl x' y n
unfolding fused_dot
fused_dot-eq fl x x' y zero same = refl
fused_dot-eq fl x x' y (suc n) same =
    ap₂ (λ v c. fl.fmadd v (y n) c) (same n (omega arith))
      (fused_dot-eq fl x x' y n (λ k lt. same k (omega arith)))

module _ {F : Type 0} (fl : Float F) (ma : Math F) (g : Setup F) where
  -- Four lanes, added up in pairs.
  abbrev pairwise : (ℕ → F) → F
  pairwise a = fl.fadd (fl.fadd (a 0) (a 1)) (fl.fadd (a 2) (a 3))

  -- The elements past the full blocks, one after the other.
  abbrev tail : Array F → (first off blocks n : ℕ) → F → F
  tail re first off blocks n acc =
      for n
        (λ i acc.
          fl.fadd acc (
            fl.fmul (re (first + (blocks * lanes + i))) (g.mel_coeff (off + (blocks * lanes + i)))))
        acc

  -- The energy of a filter as the streamed kernel adds it up.
  abbrev pub by_lanes : Array F → (start off len : ℕ) → F
  by_lanes re first off len =
      let blocks = len / lanes in
      tail re first off blocks (len - blocks * lanes)
        (if blocks == 0 then fl.fzero else pairwise (λ u. lane fl g re first off u blocks))

  by_lanes-reads_bins :
      (re re' : Array F) (first off len : ℕ)
      → ((i : ℕ) → i < len → re (first + i) ≡ re' (first + i))
      → by_lanes re first off len ≡ by_lanes re' first off len
  by_lanes-reads_bins re re' first off len same =
      let b : ℕ = len / lanes in
      let each : (u : ℕ) → u < lanes → lane fl g re first off u b ≡ lane fl g re' first off u b =
        λ u hu.
          fused_dot-eq fl (λ k. re (first + (k * lanes + u))) (λ k. re' (first + (k * lanes + u)))
            (λ k. g.mel_coeff (off + (k * lanes + u))) b
            (λ k lt. same (k * lanes + u) (omega arith)) in
      for-eq _ _ (len - b * lanes) _ (λ i lt acc.
        ap (λ v. fl.fadd acc (fl.fmul v (g.mel_coeff (off + (b * lanes + i)))))
          (same (b * lanes + i) (omega arith)))
      ∙ ap (λ v. tail re' first off b (len - b * lanes) (if b == 0 then fl.fzero else v))
          (ap₂ fl.fadd (ap₂ fl.fadd (each 0 (omega arith)) (each 1 (omega arith)))
            (ap₂ fl.fadd (each 2 (omega arith)) (each 3 (omega arith))))

  module _ (ptrs : Pointers) (st : Streams) (bins_mem bands_mem : Array F → ℕ → F) (nb_coeff : ℕ)
      (me : IsMemory fl ma g ptrs st bins_mem bands_mem nb_coeff) (cfg_a cfg_b : Array ℕ)
      (ar : AreStreams g.nb_mel cfg_a cfg_b st) where
    energy-by_lanes :
        (re : Array F) (first off len : ℕ)
        → len < u32_mod
        → first + len ≤ nb_bins g
        → off + len ≤ nb_coeff
        → mel_energy fl ma g ptrs st bins_mem bands_mem re first off len ≡ by_lanes re first off len
    unfolding mel_energy
    energy-by_lanes re first off len fits hb hc =
        let b : ℕ = len / lanes in
        let a : ℕ → F = filter_acc fl ma g ptrs st bins_mem bands_mem re first off b in
        let l : ℕ → F = λ u. lane fl g re first off u b in
        let n : ℕ = len - b * lanes in
        elim (Bool-cases (b == 0)) [
          | inl none_full ↦
              ap (tail re first off b n)
                (if_true (pairwise a) none_full ∙ sym (if_true (pairwise l) none_full))
          | inr some_full ↦
              let each : (u : ℕ) → u < lanes → a u ≡ l u = λ u hu.
                filter_acc-lane fl ma g ptrs st bins_mem bands_mem nb_coeff me cfg_a cfg_b ar re
                  first off b u (omega (arith, beq→ne b 0 some_full)) (omega arith) (omega arith)
                  (omega arith) hu in
              ap (λ v. tail re first off b n (if b == 0 then fl.fzero else v))
                (ap₂ fl.fadd (ap₂ fl.fadd (each 0 (omega arith)) (each 1 (omega arith)))
                  (ap₂ fl.fadd (each 2 (omega arith)) (each 3 (omega arith))))
        ]

    pub mel_energy-IsMeasure :
        (k : ℕ)
        → IsSetup fl ma g k
        → ((m : ℕ) → m < g.nb_mel → offset fl ma g m + g.mel_len m ≤ nb_coeff)
        → IsMeasure fl ma g (mel_energy fl ma g ptrs st bins_mem bands_mem) by_lanes
    mel_energy-IsMeasure k su within = record {
      measures = λ re m hm.
          energy-by_lanes re (g.mel_start m) (offset fl ma g m) (g.mel_len m)
            (omega (arith, su.bins m hm, su.length, power-lt k (omega (arith, su.small))))
            (su.bins m hm) (within m hm);
      reads_bins = by_lanes-reads_bins;
    }

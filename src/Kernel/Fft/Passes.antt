-- ===== src/Kernel/Fft/Passes.antt =====
-- A stage of `fft_radix2` in the MFCC kernels: each pair of elements goes through one butterfly.
use mathlib.Core.Path.{ap₂}
use k9r.Base.{ℕ, ◌+◌, ◌*◌, ◌≤◌, ◌<◌, ◌≡◌, ◌≢◌, ◌⊎◌, inl, inr, sym, arith, for, for_keeps, for_once}
use k9r.Kernel.Compute.{Float}
use k9r.Kernel.Compute.Product.{index_unique}
use k9r.Kernel.Fft.{Signal, butterfly}

-- A complex number, real part first.
abbrev pub Complex : Type 0 → Type 0
Complex F = F × F

abbrev pub at : {F : Type 0} → Signal F → ℕ → Complex F
at s p = (s.re p, s.im p)

abbrev pub pair_at : {F : Type 0} → (a b : ℕ) → Signal F → Complex F × Complex F
pair_at a b s = (at s a, at s b)

-- Element `j` of the first half of block `i`, with halves of `h`.
abbrev pub low : (h i j : ℕ) → ℕ
low h i j = i * (2 * h) + j

apart :
    (h i j i' j' e e' : ℕ)
    → j < h
    → j' < h
    → e ≤ 1
    → e' ≤ 1
    → low h i j + e * h ≡ low h i' j' + e' * h
    → (i ≡ i') × (j ≡ j')
apart h i j i' j' e e' hj hj' he he' same =
    let (half, col) = index_unique h (2 * i + e) j (2 * i' + e') j' hj hj' (omega (arith, same)) in
    (omega (arith, half), col)

pairs_apart :
    (h i j i' j' : ℕ)
    → j < h
    → j' < h
    → (i' ≢ i) ⊎ (j' ≢ j)
    → (low h i j ≢ low h i' j')
      × (low h i j ≢ low h i' j' + h)
      × (low h i j + h ≢ low h i' j')
      × (low h i j + h ≢ low h i' j' + h)
pairs_apart h i j i' j' hj hj' d =
    let clash : (i ≡ i') × (j ≡ j') → ⊥ =
      λ e. elim d [ inl ne ↦ ne (sym e.0) | inr ne ↦ ne (sym e.1) ] in
    (
      λ e. clash (apart h i j i' j' 0 0 hj hj' (omega arith) (omega arith) (omega (arith, e))),
      λ e. clash (apart h i j i' j' 0 1 hj hj' (omega arith) (omega arith) (omega (arith, e))),
      λ e. clash (apart h i j i' j' 1 0 hj hj' (omega arith) (omega arith) (omega (arith, e))),
      λ e. clash (apart h i j i' j' 1 1 hj hj' (omega arith) (omega arith) (omega (arith, e))),
    )

module _ {F : Type 0} (fl : Float F) (fsub : F → F → F) where
  abbrev pub cadd : Complex F → Complex F → Complex F
  cadd x y = (fl.fadd x.0 y.0, fl.fadd x.1 y.1)

  abbrev pub csub : Complex F → Complex F → Complex F
  csub x y = (fsub x.0 y.0, fsub x.1 y.1)

  -- A complex number times a twiddle.
  abbrev pub turned : Complex F → Complex F → Complex F
  turned w x =
      (fsub (fl.fmul x.0 w.0) (fl.fmul x.1 w.1), fl.fadd (fl.fmul x.0 w.1) (fl.fmul x.1 w.0))

  abbrev pub combine : Complex F → Complex F × Complex F → Complex F × Complex F
  combine w (u, x) = (cadd u (turned w x), csub u (turned w x))

  module _ (w : Complex F) where
    butterfly_here :
        (a b : ℕ) (s : Signal F)
        → a ≢ b
        → pair_at a b (butterfly fl fsub w.0 w.1 a b s) ≡ combine w (pair_at a b s)
    unfolding butterfly
    butterfly_here a b s ne = ground (arith)

    butterfly_out :
        (a b p : ℕ) (s : Signal F) → p ≢ a → p ≢ b → at (butterfly fl fsub w.0 w.1 a b s) p ≡ at s p
    unfolding butterfly
    butterfly_out a b p s na nb = ground (arith)

    -- Another butterfly leaves the pair.
    butterfly_keeps :
        (a b a' b' : ℕ) (s : Signal F)
        → (a ≢ a') × (a ≢ b') × (b ≢ a') × (b ≢ b')
        → pair_at a b (butterfly fl fsub w.0 w.1 a' b' s) ≡ pair_at a b s
    butterfly_keeps a b a' b' s ne =
        ap₂ (λ x y. (x, y)) (butterfly_out a' b' a s ne.0 ne.1) (butterfly_out a' b' b s ne.2 ne.3)

  -- All butterflies of a stage, with halves of `h`, `nb` blocks, and the twiddles `w`.
  abbrev pub pass : (h nb : ℕ) → (ℕ → Complex F) → Signal F → Signal F
  pass h nb w =
      for h (λ j.
        for nb (λ i. butterfly fl fsub (w j).0 (w j).1 (i * (2 * h) + j) (i * (2 * h) + j + h)))

  pub pass_pair :
      (h nb i j : ℕ) (w : ℕ → Complex F) (s : Signal F)
      → i < nb
      → j < h
      → pair_at (low h i j) (low h i j + h) (pass h nb w s)
        ≡ combine (w j) (pair_at (low h i j) (low h i j + h) s)
  pass_pair h nb i j w s hi hj =
      let a = low h i j in
      let view : Signal F → Complex F × Complex F = pair_at a (a + h) in
      let round : ℕ → ℕ → Signal F → Signal F =
        λ j' i'. butterfly fl fsub (w j').0 (w j').1 (i' * (2 * h) + j') (i' * (2 * h) + j' + h) in
      for_once (λ j'. for nb (round j')) view h j (combine (w j)) s hj
        (λ j' lt ne t. for_keeps (round j') view nb t (λ i' lt' t'.
          butterfly_keeps (w j') a (a + h) (low h i' j') (low h i' j' + h) t'
            (pairs_apart h i j i' j' hj lt (inr ne))))
        (λ t.
          for_once (round j) view nb i (combine (w j)) t hi
            (λ i' lt' ne t'.
              butterfly_keeps (w j) a (a + h) (low h i' j) (low h i' j + h) t'
                (pairs_apart h i j i' j hj hj (inl ne)))
            (λ t'. butterfly_here (w j) a (a + h) t' (λ e. absurd (omega (arith, e)))))

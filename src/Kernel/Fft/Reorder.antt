-- ===== src/Kernel/Fft/Reorder.antt =====
-- The reordering pass of `fft_radix2` in the MFCC kernels: it puts the element of the mirrored index
-- in each place.
use k9r.Base.{
  ℕ, zero, suc, ◌^◌, ◌≤◌, ◌<◌, ◌≡◌, ◌≢◌, ◌∙◌, inl, inr, refl, sym, ap, min, Array, arith, update,
  update_self, update_ne, ltb, lt→ltb, le→ltb, if◌then◌else◌, if_true, if_false, Bool-cases, for,
  ℕ_discrete, dec_lt,
}
use k9r.Kernel.Fft.{Signal, bit_reverse, swap, reorder}
use k9r.Kernel.Fft.Reverse.{mirror, mirror-lt, mirror_twice, bit_reverse-mirror}

module _ {F : Type 0} (m : ℕ) (small : m ≤ 32) where
  -- A round, on one of the two arrays.
  abbrev step : ℕ → Array F → Array F
  step i x = if ltb i (bit_reverse i m) then swap i (bit_reverse i m) x else x

  module _ (part : Signal F → Array F)
      (each : (i : ℕ) (s : Signal F) → part (reorder m i s) ≡ step i (part s)) (s : Signal F) where
    -- The element at `p` after `k` rounds.
    abbrev after : (k p : ℕ) → F
    after k p = if ltb (min p (mirror m p)) k then part s (mirror m p) else part s p

    after_done : (k p : ℕ) → min p (mirror m p) < k → after k p ≡ part s (mirror m p)
    after_done k p lt = if_true (part s p) (lt→ltb (min p (mirror m p)) k lt)

    after_todo : (k p : ℕ) → k ≤ min p (mirror m p) → after k p ≡ part s p
    after_todo k p le = if_false (part s (mirror m p)) (le→ltb (min p (mirror m p)) k le)

    after_other : (k p : ℕ) → min p (mirror m p) ≢ k → after k p ≡ after (suc k) p
    after_other k p ne = elim (dec_lt (min p (mirror m p)) k) [
      | yes lt ↦ after_done k p lt ∙ sym (after_done (suc k) p (omega arith))
      | no ge ↦ after_todo k p (omega arith) ∙ sym (after_todo (suc k) p (omega arith))
    ]

    -- A place that is the mirror of itself.
    after_fixed : (k p : ℕ) → mirror m p ≡ p → after k p ≡ after (suc k) p
    after_fixed k p e = elim (dec_lt (min p (mirror m p)) k) [
      | yes lt ↦ after_done k p lt ∙ sym (after_done (suc k) p (omega arith))
      | no ge ↦ elim (dec_lt (min p (mirror m p)) (suc k)) [
        | yes lt ↦
            after_todo k p (omega arith) ∙ ap (part s) (sym e) ∙ sym (after_done (suc k) p lt)
        | no gt ↦ after_todo k p (omega arith) ∙ sym (after_todo (suc k) p (omega arith))
      ]
    ]

    swapped :
        (k p : ℕ) (x : Array F)
        → k < 2 ^ m
        → p < 2 ^ m
        → k < mirror m k
        → ((q : ℕ) → q < 2 ^ m → x q ≡ after k q)
        → swap k (mirror m k) x p ≡ after (suc k) p
    unfolding swap
    swapped k p x hk hp lt old =
        let j : ℕ = mirror m k in
        let back : mirror m j ≡ k = mirror_twice m k hk in
        let hj : j < 2 ^ m = mirror-lt m k in
        elim (ℕ_discrete p j) [
          | yes at_j ↦
              ap (update (update x k (x j)) j (x k)) at_j
              ∙ update_self (update x k (x j)) j (x k)
              ∙ old k hk
              ∙ after_todo k k (omega arith)
              ∙ ap (part s) (sym back)
              ∙ sym (after_done (suc k) j (omega (arith, back)))
              ∙ ap (after (suc k)) (sym at_j)
          | no not_j ↦
              update_ne (update x k (x j)) j (x k) (λ e. not_j (sym e)) ∙ elim (ℕ_discrete p k) [
                | yes at_k ↦
                    ap (update x k (x j)) at_k
                    ∙ update_self x k (x j)
                    ∙ old j hj
                    ∙ after_todo k j (omega (arith, back))
                    ∙ sym (after_done (suc k) k (omega arith))
                    ∙ ap (after (suc k)) (sym at_k)
                | no not_k ↦
                    update_ne x k (x j) (λ e. not_k (sym e))
                    ∙ old p hp
                    ∙ after_other k p (λ e.
                      let first : mirror m p ≡ k = omega (arith, e, not_k) in
                      not_j (sym (mirror_twice m p hp) ∙ ap (mirror m) first))
              ]
        ]

    fixed : (k p : ℕ) → p < 2 ^ m → mirror m k ≤ k → min p (mirror m p) ≡ k → mirror m p ≡ p
    fixed k p hp le e = elim (ℕ_discrete p k) [
      | yes at_k ↦ omega (arith, ap (mirror m) at_k, e)
      | no not_k ↦
          let first : mirror m p ≡ k = omega (arith, e, not_k) in
          omega (arith, sym (mirror_twice m p hp) ∙ ap (mirror m) first, e)
    ]

    round :
        (k p : ℕ) (t : Signal F)
        → k < 2 ^ m
        → p < 2 ^ m
        → ((q : ℕ) → q < 2 ^ m → part t q ≡ after k q)
        → part (reorder m k t) p ≡ after (suc k) p
    round k p t hk hp old =
        let j : ℕ = mirror m k in
        let back : mirror m j ≡ k = mirror_twice m k hk in
        ap (λ x. x p) (each k t)
        ∙ ap (λ b. (if ltb k b then swap k b (part t) else part t) p) (bit_reverse-mirror k m small)
        ∙ elim (dec_lt k j) [
          | yes lt ↦
              ap (λ x. x p) (if_true (part t) (lt→ltb k j lt)) ∙ swapped k p (part t) hk hp lt old
          | no ge ↦
              ap (λ x. x p) (if_false (swap k j (part t)) (le→ltb k j (omega arith)))
              ∙ old p hp
              ∙ elim (ℕ_discrete (min p (mirror m p)) k) [
                | no other ↦ after_other k p other
                | yes this ↦ after_fixed k p (fixed k p hp (omega arith) this)
              ]
        ]

    pub passed : (k p : ℕ) → k ≤ 2 ^ m → p < 2 ^ m → part (for k (reorder m) s) p ≡ after k p
    unfolding for
    passed zero p hk hp = sym (after_todo 0 p (omega arith))
    passed (suc k) p hk hp =
        round k p (for k (reorder m) s) (omega arith) hp (λ q hq. passed k q (omega arith) hq)

  reorder-re : (i : ℕ) (s : Signal F) → (reorder m i s).re ≡ step i s.re
  unfolding reorder
  reorder-re i s = elim (Bool-cases (ltb i (bit_reverse i m))) [
    | inl swaps ↦ rw swaps refl
    | inr leaves ↦ rw leaves refl
  ]

  reorder-im : (i : ℕ) (s : Signal F) → (reorder m i s).im ≡ step i s.im
  unfolding reorder
  reorder-im i s = elim (Bool-cases (ltb i (bit_reverse i m))) [
    | inl swaps ↦ rw swaps refl
    | inr leaves ↦ rw leaves refl
  ]

  -- The whole pass puts the element of the mirrored index in each place, in both arrays.
  pub reorder-mirrors :
      (s : Signal F) (p : ℕ)
      → p < 2 ^ m
      → ((for (2 ^ m) (reorder m) s).re p ≡ s.re (mirror m p))
        × ((for (2 ^ m) (reorder m) s).im p ≡ s.im (mirror m p))
  reorder-mirrors s p hp = (
    passed (λ t. t.re) reorder-re s (2 ^ m) p (omega arith) hp
        ∙ after_done (λ t. t.re) reorder-re s (2 ^ m) p (omega arith),
    passed (λ t. t.im) reorder-im s (2 ^ m) p (omega arith) hp
        ∙ after_done (λ t. t.im) reorder-im s (2 ^ m) p (omega arith),
  )

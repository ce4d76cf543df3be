-- ===== src/App/Argmax/First.antt =====
-- The index that `argmax` of runtime/mesh/kws_main.c returns.
use mathlib.Core.Path.{subst}
use k9r.Base.{
  ℕ, zero, suc, ◌+◌, ◌-◌, ◌<◌, ◌≡◌, inl, inr, Array, Bool, true, false, arith, Bool-cases,
  ℕ_discrete,
}
use k9r.App.Argmax.{scan, argmax}

-- How `>` orders numbers: what holds of it if none of them is NaN.
pub record IsOrder {F : Type 0} (gt : F → F → Bool) : Type 0 where
  pub irrefl : (x : F) → gt x x ≡ false
  pub trans : (x y z : F) → gt x y ≡ true → gt y z ≡ true → gt x z ≡ true
  pub cotrans : (x y z : F) → gt x y ≡ false → gt y z ≡ false → gt x z ≡ false

the_end : (i n : ℕ) → i + 0 ≡ n → i ≡ n
the_end i n e = omega arith

the_first : (j : ℕ) → j < 1 → j ≡ 0
the_first j lt = omega arith

module _ {F : Type 0} {gt : F → F → Bool} (ord : IsOrder gt) (p : Array F) where
  -- The first greatest of the elements below `n`.
  pub record IsFirstMax (n best : ℕ) : Type 0 where
    pub inside : best < n
    pub greatest : (j : ℕ) → j < n → gt (p j) (p best) ≡ false
    pub first : (j : ℕ) → j < best → gt (p best) (p j) ≡ true

  not_above :
      (i best j : ℕ)
      → gt (p i) (p best) ≡ true
      → gt (p j) (p best) ≡ false
      → (gt (p j) (p i) ≡ false) × (gt (p i) (p j) ≡ true)
  not_above i best j more less = (
    ground (arith, ord.trans (p j) (p i) (p best)),
    ground (arith, ord.cotrans (p i) (p j) (p best)),
  )

  take-IsFirstMax :
      (i best : ℕ) → IsFirstMax i best → gt (p i) (p best) ≡ true → IsFirstMax (i + 1) i
  take-IsFirstMax i best m more = record {
    inside = omega arith;
    greatest = λ j lt. elim (ℕ_discrete j i) [
      | yes same ↦ rw same (ord.irrefl (p i))
      | no ne ↦ (not_above i best j more (m.greatest j (omega arith))).0
    ];
    first = λ j lt. (not_above i best j more (m.greatest j lt)).1;
  }

  keep-IsFirstMax :
      (i best : ℕ) → IsFirstMax i best → gt (p i) (p best) ≡ false → IsFirstMax (i + 1) best
  keep-IsFirstMax i best m less = record {
    inside = omega (arith, m.inside);
    greatest = λ j lt. elim (ℕ_discrete j i) [
      | yes same ↦ rw same less
      | no ne ↦ m.greatest j (omega arith)
    ];
    first = m.first;
  }

  scan-IsFirstMax :
      (rounds i best n : ℕ)
      → i + rounds ≡ n
      → IsFirstMax i best
      → IsFirstMax n (scan gt rounds i p best)
  unfolding scan
  scan-IsFirstMax zero i best n e m = subst (λ k. IsFirstMax k best) (the_end i n e) m
  scan-IsFirstMax (suc rounds) i best n e m = elim (Bool-cases (gt (p i) (p best))) [
    | inl more ↦
        rw more (scan-IsFirstMax rounds (i + 1) i n (omega arith) (take-IsFirstMax i best m more))
    | inr less ↦
        rw less
          (scan-IsFirstMax rounds (i + 1) best n (omega arith) (keep-IsFirstMax i best m less))
  ]

  first-IsFirstMax : IsFirstMax 1 0
  first-IsFirstMax = record {
    inside = omega arith;
    greatest = λ j lt. rw (the_first j lt) (ord.irrefl (p 0));
    first = λ j lt. absurd (omega arith);
  }

  -- Among at least one element, with `>` an order on them (which leaves out NaN), `argmax` is the
  -- index of a greatest element, and all elements before it are smaller.
  pub argmax-IsFirstMax : (n : ℕ) → 0 < n → IsFirstMax n (argmax gt p n)
  unfolding argmax
  argmax-IsFirstMax n pos = scan-IsFirstMax (n - 1) 1 0 n (omega arith) first-IsFirstMax

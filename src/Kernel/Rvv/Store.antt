-- ===== src/Kernel/Rvv/Store.antt =====
-- What the stores of a block of `gemm_rvv` write, element by element of Y.
use native.Mathlib.Nat.{mul-le-mul_right}
use k9r.Base.{
  ℕ, zero, suc, ◌+◌, ◌*◌, ◌≤◌, ◌<◌, ◌≡◌, ◌∙◌, ◌⊎◌, inl, inr, refl, ap, Array, arith, u32_mod, add32,
  mul32, Bool-cases, true, lt→ltb, le→leb, lt→leb, le→ltb, if_true, if_false, dec_lt,
}
use k9r.Kernel.Compute.{Args}
use k9r.Kernel.Rvv.{Vector, has_row, vse32, store_rows}

module _ {F : Type 0} (vl : ℕ) where
  vse32_in : (at v : ℕ) (x : Vector F) (y : Array F) → v < vl → vse32 at vl x y (at + v) ≡ x v
  unfolding vse32
  vse32_in at v x y h =
      rw (le→leb at (at + v) (omega arith), lt→ltb (at + v) (at + vl) (omega arith))
        (ap x (omega arith))

  vse32_out :
      (at p : ℕ) (x : Vector F) (y : Array F) → (p < at) ⊎ (at + vl ≤ p) → vse32 at vl x y p ≡ y p
  unfolding vse32
  vse32_out at p x y (inl h) = rw (lt→leb at p h) refl
  vse32_out at p x y (inr h) = rw (le→leb at p (omega arith), le→ltb p (at + vl) h) refl

-- The shapes of the streamed path, in 32-bit sizes, and no wrap in an index of Y or in a
-- row counter.
pub record IsShape (g : Args) : Type 0 where
  pub height : g.m + 3 < u32_mod
  pub width : g.o < u32_mod
  pub size : g.m * g.o < u32_mod

pub row_place :
    (g : Args) (r c : ℕ) → IsShape g → r < g.m → c < g.o → add32 (mul32 r g.o) c ≡ r * g.o + c
row_place g r c w hr hc = omega (arith, w.size, mul-le-mul_right g.o hr)

has_row-lt : (rows r : ℕ) → 0 < rows → has_row rows r ≡ true → r < rows
has_row-lt rows r some h = ground arith

pub lt-has_row : (rows r : ℕ) → r < rows → has_row rows r ≡ true
lt-has_row rows r h = ground arith

-- A block of `rows` rows from `i` and `vl` columns from `j` lies in the matrix.
pub record IsBlock (g : Args) (i j rows vl : ℕ) : Type 0 where
  pub some_rows : 0 < rows
  pub in_rows : i + rows ≤ g.m
  pub some_columns : 0 < vl
  pub in_columns : j + vl ≤ g.o

module _ {F : Type 0} (g : Args) (i j rows vl : ℕ) (acc : ℕ → Vector F) (y : Array F)
    (w : IsShape g) (bl : IsBlock g i j rows vl) where
  row_at : (u : ℕ) → u < rows → add32 (mul32 (add32 i u) g.o) j ≡ (i + u) * g.o + j
  row_at u hu =
      let row : add32 i u ≡ i + u = omega (arith, w.height, bl.in_rows) in
      ap (λ t. add32 (mul32 t g.o) j) row
      ∙ row_place g (i + u) j w (omega (arith, bl.in_rows))
          (omega (arith, bl.in_columns, bl.some_columns))

  abbrev stored : ℕ → Array F
  stored u = store_rows g i j rows vl acc u y

  -- A row that does not have the element leaves it.
  step_out :
      (u p : ℕ)
      → (u < rows → (p < (i + u) * g.o + j) ⊎ ((i + u) * g.o + j + vl ≤ p))
      → stored (suc u) p ≡ stored u p
  unfolding store_rows
  step_out u p out = elim (Bool-cases (has_row rows u)) [
    | inl there ↦
        let lt = has_row-lt rows u bl.some_rows there in
        ap (λ f. f p) (if_true (stored u) there)
        ∙ ap (λ a. vse32 a vl (acc u) (stored u) p) (row_at u lt)
        ∙ vse32_out vl ((i + u) * g.o + j) p (acc u) (stored u) (out lt)
    | inr gone ↦
        ap (λ f. f p)
          (if_false (vse32 (add32 (mul32 (add32 i u) g.o) j) vl (acc u) (stored u)) gone)
  ]

  step_in : (u v : ℕ) → u < rows → v < vl → stored (suc u) ((i + u) * g.o + j + v) ≡ acc u v
  unfolding store_rows
  step_in u v hu hv =
      ap (λ f. f ((i + u) * g.o + j + v)) (if_true (stored u) (lt-has_row rows u hu))
      ∙ ap (λ a. vse32 a vl (acc u) (stored u) ((i + u) * g.o + j + v)) (row_at u hu)
      ∙ vse32_in vl ((i + u) * g.o + j) v (acc u) (stored u) hv

  pub stored_out :
      (n p : ℕ)
      → ((u : ℕ) → u < rows → (p < (i + u) * g.o + j) ⊎ ((i + u) * g.o + j + vl ≤ p))
      → stored n p ≡ y p
  unfolding store_rows
  stored_out zero p out = refl
  stored_out (suc n) p out = step_out n p (out n) ∙ stored_out n p out

  pub stored_in :
      (n r v : ℕ) → r < n → r < rows → v < vl → stored n ((i + r) * g.o + j + v) ≡ acc r v
  unfolding store_rows
  stored_in zero r v hn hr hv = absurd (omega arith)
  stored_in (suc n) r v hn hr hv = elim (dec_lt r n) [
    | yes before ↦
        step_out n ((i + r) * g.o + j + v)
          (λ lt. inl (omega (arith, bl.in_columns, mul-le-mul_right g.o (below r n before))))
        ∙ stored_in n r v before hr hv
    | no last ↦
        let same : n ≡ r = omega arith in
        ap (λ q. stored (suc q) ((i + r) * g.o + j + v)) same ∙ step_in r v hr hv
  ]
    where
      below : (r n : ℕ) → r < n → i + r + 1 ≤ i + n
      below r n h = omega arith

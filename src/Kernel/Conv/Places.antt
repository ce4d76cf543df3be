-- ===== src/Kernel/Conv/Places.antt =====
-- Where `Conv2d_fp32_fp32_fp32_NCHW` writes its output.
use native.Mathlib.Nat.{mul-le-mul_right}
use k9r.Base.{
  ℕ, ◌+◌, ◌*◌, ◌≤◌, ◌<◌, ◌≡◌, ◌≢◌, ◌∙◌, ◌⊎◌, inl, inr, ap, Array, arith, for, for_out, for_at,
  u32_mod, add32, mul32,
}
use k9r.Kernel.Compute.Product.{index_unique}
use k9r.Kernel.Conv.{Shape, h_out, w_out, out_idx}

-- There is an output, and its size does not wrap.
pub record IsOutput (g : Shape) : Type 0 where
  pub some_rows : 0 < h_out g
  pub some_columns : 0 < w_out g
  pub size : g.f * h_out g * w_out g < u32_mod

-- The loops over the rows and the columns of a plane.
abbrev pub over_plane {ℓ} :
    {A : Type ℓ} → (ℕ → ℕ → Array A → Array A) → (nh nw : ℕ) → Array A → Array A
over_plane body nh nw = for nh (λ h. for nw (body h))

module _ {ℓ} {A : Type ℓ} (body : ℕ → ℕ → Array A → Array A) (p nh nw : ℕ) where
  pub plane_out :
      (y : Array A)
      → ((h w : ℕ) → h < nh → w < nw → (x : Array A) → body h w x p ≡ x p)
      → over_plane body nh nw y p ≡ y p
  plane_out y out =
      for_out (λ h. for nw (body h)) p nh y
        (λ h lt x. for_out (body h) p nw x (λ w lt'. out h w lt lt'))

  pub plane_at :
      (h w : ℕ) (v : A) (y : Array A)
      → h < nh
      → w < nw
      → ((h' w' : ℕ)
          → h' < nh
          → w' < nw
          → (h' ≢ h) ⊎ (w' ≢ w)
          → (x : Array A) → body h' w' x p ≡ x p)
      → ((x : Array A) → body h w x p ≡ v)
      → over_plane body nh nw y p ≡ v
  plane_at h w v y hh hw out here =
      for_at (λ h'. for nw (body h')) p nh h v y hh
        (λ h' lt ne x. for_out (body h') p nw x (λ w' lt'. out h' w' lt lt' (inl ne)))
        (λ x. for_at (body h) p nw w v x hw (λ w' lt' ne. out h w' hh lt' (inr ne)) here)

module _ (g : Shape) (o : IsOutput g) where
  -- The element of filter `f`, row `h` and column `w`.
  abbrev pub place : (f h w : ℕ) → ℕ
  place f h w = (f * h_out g + h) * w_out g + w

  plane_fits : g.f * h_out g ≤ g.f * h_out g * w_out g
  plane_fits = omega (arith, mul-le-mul_right (g.f * h_out g) o.some_columns)

  pub out_idx-place :
      (f h w : ℕ) → f < g.f → h < h_out g → w < w_out g → out_idx g f h w ≡ place f h w
  out_idx-place f h w hf hh hw =
      let row : f * h_out g + h < g.f * h_out g = omega (arith, mul-le-mul_right (h_out g) hf) in
      let all = mul-le-mul_right (w_out g) row in
      let first : mul32 f (h_out g) ≡ f * h_out g = omega (arith, row, o.size, plane_fits) in
      ap (λ t. add32 (add32 (mul32 t (w_out g)) (mul32 h (w_out g))) w) first
      ∙ omega (arith, all, o.size)

  pub place_unique :
      (f h w f' h' w' : ℕ)
      → h < h_out g
      → w < w_out g
      → h' < h_out g
      → w' < w_out g
      → place f h w ≡ place f' h' w'
      → (f ≡ f') × (h ≡ h') × (w ≡ w')
  place_unique f h w f' h' w' hh hw hh' hw' e =
      let (row, w_eq) =
        index_unique (w_out g) (f * h_out g + h) w (f' * h_out g + h') w' hw hw' e in
      let (f_eq, h_eq) = index_unique (h_out g) f h f' h' hh hh' row in (f_eq, h_eq, w_eq)

  -- `y[u * plane]`
  pub pixel_place :
      (f h w u : ℕ)
      → f + u < g.f
      → h < h_out g
      → w < w_out g
      → out_idx g f h w + mul32 u (mul32 (h_out g) (w_out g)) ≡ place (f + u) h w
  pixel_place f h w u hf hh hw =
      let hi = h_out g in
      let wi = w_out g in
      let row : (f + u) * hi + h < g.f * hi = omega (arith, mul-le-mul_right hi hf) in
      let all = mul-le-mul_right wi row in
      let some : 1 ≤ g.f = omega arith in
      let plane : mul32 hi wi ≡ hi * wi = omega (arith, o.size, mul-le-mul_right (hi * wi) some) in
      ap (λ t. out_idx g f h w + mul32 u t) plane
      ∙ ap (λ t. t + mul32 u (hi * wi)) (out_idx-place f h w (omega arith) hh hw)
      ∙ omega (arith, all, o.size)

-- ===== src/Base/Loops.antt =====
-- Counted loops that fill an array, and which round writes an element.
use Prim.Native.Nat.{ℕ, zero, suc, ◌<◌}
use mathlib.Core.Path.{◌≡◌, refl, ap, ◌∙◌}
use mathlib.Core.Logic.{◌≢◌}
use native.Mathlib.Omega.{arith}
use native.Mathlib.Decide.{ℕ_discrete}
use k9r.Base.Lists.{Array}

-- `for (i = 0; i < n; i++)`
unfoldable pub for {ℓ} : {S : Type ℓ} → ℕ → (ℕ → S → S) → S → S
for zero body s = s
for (suc n) body s = body n (for n body s)

-- What the rounds leave alone, and what one of them changes.
module _ {ℓ κ} {S : Type ℓ} {B : Type κ} (body : ℕ → S → S) (view : S → B) where
  pub for_keeps :
      (n : ℕ) (s : S)
      → ((i : ℕ) → i < n → (t : S) → view (body i t) ≡ view t)
      → view (for n body s) ≡ view s
  unfolding for
  for_keeps zero s keep = refl
  for_keeps (suc n) s keep =
      keep n (omega arith) (for n body s) ∙ for_keeps n s (λ i lt. keep i (omega arith))

  pub for_once :
      (n r : ℕ) (change : B → B) (s : S)
      → r < n
      → ((i : ℕ) → i < n → i ≢ r → (t : S) → view (body i t) ≡ view t)
      → ((t : S) → view (body r t) ≡ change (view t))
      → view (for n body s) ≡ change (view s)
  unfolding for
  for_once zero r change s lt keep once = absurd (omega arith)
  for_once (suc n) r change s lt keep once = elim (ℕ_discrete n r) [
    | yes last ↦
        ap (λ i. view (body i (for n body s))) last
        ∙ once (for n body s)
        ∙ ap change (for_keeps n s (λ i lt'. keep i (omega arith) (λ e. absurd (omega arith))))
    | no before ↦
        keep n (omega arith) before (for n body s)
        ∙ for_once n r change s (omega arith) (λ i lt' ne. keep i (omega arith) ne) once
  ]

module _ {ℓ} {A : Type ℓ} (body : ℕ → Array A → Array A) (p : ℕ) where
  -- Rounds that leave an element.
  pub for_out :
      (n : ℕ) (y : Array A)
      → ((i : ℕ) → i < n → (x : Array A) → body i x p ≡ x p)
      → for n body y p ≡ y p
  for_out n y out = for_keeps body (λ x. x p) n y out

  -- One round writes it and the others leave it.
  pub for_at :
      (n r : ℕ) (v : A) (y : Array A)
      → r < n
      → ((i : ℕ) → i < n → i ≢ r → (x : Array A) → body i x p ≡ x p)
      → ((x : Array A) → body r x p ≡ v)
      → for n body y p ≡ v
  for_at n r v y lt out here = for_once body (λ x. x p) n r (λ x. v) y lt out here

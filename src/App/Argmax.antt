-- ===== src/App/Argmax.antt =====
-- `argmax` of runtime/mesh/kws_main.c and `argmax10` of runtime/mesh/mnist_main.c. Floats are a
-- parameter: `gt` is their `>`.
pub mod First
use k9r.Base.{ℕ, zero, suc, ◌+◌, ◌-◌, Array, Bool, if◌then◌else◌}

module _ {F : Type 0} (gt : F → F → Bool) where
  -- The rounds of the loop from `i` on.
  unfoldable pub scan : ℕ → ℕ → Array F → ℕ → ℕ
  scan zero i p best = best
  scan (suc rounds) i p best = scan rounds (i + 1) p (if gt (p i) (p best) then i else best)

  unfoldable pub argmax : Array F → ℕ → ℕ
  unfolding scan
  argmax p n = scan (n - 1) 1 p 0

  unfoldable pub argmax10 : Array F → ℕ
  unfolding argmax
  argmax10 p = argmax p 10

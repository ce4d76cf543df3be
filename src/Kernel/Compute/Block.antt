-- ===== src/Kernel/Compute/Block.antt =====
-- A block of columns in `gemm_ssr` of runtime/snitch/kernels/gemm_fp32_ssr.c.
use k9r.Base.{
  ℕ, zero, suc, ◌+◌, ◌*◌, ◌≤◌, ◌<◌, ◌≡◌, ◌∙◌, refl, ap, sym, arith, update_self, update_ne,
  ℕ_discrete,
}
use k9r.Kernel.Compute.{Float, State, fma, body, frep, store}

module _ {F : Type 0} (fl : Float F) (mem : ℕ → F) (seq_a seq_b : ℕ → ℕ) (width : ℕ) where
  -- The product of the elements at position `p` of both streams is added to `c`.
  abbrev pub fma_at : ℕ → F → F
  fma_at p c = fl.fmadd (mem (seq_a p)) (mem (seq_b p)) c

  -- Column `u` of a block after `k` rounds, from the positions `base` on.
  unfoldable pub column : ℕ → ℕ → F → ℕ → F
  column base u c zero = c
  column base u c (suc k) = fma_at (base + k * width + u) (column base u c k)

  -- The first `u` accumulators have taken one step, and both streams have moved by `u`.
  record Stepped (base u : ℕ) (s t : State F) : Type 0 where
    pos_a : t.pos_a ≡ base + u
    pos_b : t.pos_b ≡ base + u
    done : (v : ℕ) → v < u → t.acc v ≡ fma_at (base + v) (s.acc v)
    left : (v : ℕ) → u ≤ v → t.acc v ≡ s.acc v
    y : t.y ≡ s.y

  body-Stepped :
      (base u : ℕ) (s : State F)
      → s.pos_a ≡ base
      → s.pos_b ≡ base
      → Stepped base u s (body fl mem seq_a seq_b u s)
  unfolding body fma
  body-Stepped base zero s ha hb = record {
    pos_a = omega arith;
    pos_b = omega arith;
    done = λ v lt. absurd (omega arith);
    left = λ v le. refl;
    y = refl;
  }
  body-Stepped base (suc u) s ha hb =
      let t = body-Stepped base u s ha hb in
      let prev : State F = body fl mem seq_a seq_b u s in
      record {
        pos_a = omega (arith, t.pos_a);
        pos_b = omega (arith, t.pos_b);
        done = λ v lt. elim (ℕ_discrete v u) [
          | yes same ↦
              rw same
                (update_self prev.acc u _ ∙ rw (t.pos_a, t.pos_b, t.left u (omega arith)) refl)
          | no ne ↦ update_ne prev.acc u _ (λ e. ne (sym e)) ∙ t.done v (omega arith)
        ];
        left = λ v le. update_ne prev.acc u _ (λ e. absurd (omega arith)) ∙ t.left v (omega arith);
        y = t.y;
      }

  -- All accumulators have taken `k` steps.
  pub record Replayed (base k : ℕ) (s t : State F) : Type 0 where
    pub pos_a : t.pos_a ≡ base + k * width
    pub pos_b : t.pos_b ≡ base + k * width
    pub acc : (u : ℕ) → u < width → t.acc u ≡ column base u (s.acc u) k
    pub y : t.y ≡ s.y

  pub frep-Replayed :
      (base k : ℕ) (s : State F)
      → s.pos_a ≡ base
      → s.pos_b ≡ base
      → Replayed base k s (frep fl mem seq_a seq_b width k s)
  unfolding frep column
  frep-Replayed base zero s ha hb = record {
    pos_a = omega arith;
    pos_b = omega arith;
    acc = λ u lt. refl;
    y = refl;
  }
  frep-Replayed base (suc k) s ha hb =
      let r = frep-Replayed base k s ha hb in
      let t =
        body-Stepped (base + k * width) width (frep fl mem seq_a seq_b width k s) r.pos_a r.pos_b in
      record {
        pos_a = omega (arith, t.pos_a);
        pos_b = omega (arith, t.pos_b);
        acc = λ u lt. t.done u lt ∙ ap (fma_at (base + k * width + u)) (r.acc u lt);
        y = t.y ∙ r.y;
      }

  -- The first `u` accumulators stand in Y from `at` on, and the rest of Y is as it was.
  pub record Stored (at u : ℕ) (s t : State F) : Type 0 where
    pub pos_a : t.pos_a ≡ s.pos_a
    pub pos_b : t.pos_b ≡ s.pos_b
    pub acc : t.acc ≡ s.acc
    pub here : (v : ℕ) → v < u → t.y (at + v) ≡ s.acc v
    pub below : (i : ℕ) → i < at → t.y i ≡ s.y i

  pub store-Stored : (at u : ℕ) (s : State F) → Stored at u s (store at u s)
  unfolding store
  store-Stored at zero s = record {
    pos_a = refl;
    pos_b = refl;
    acc = refl;
    here = λ v lt. absurd (omega arith);
    below = λ i lt. refl;
  }
  store-Stored at (suc u) s =
      let t = store-Stored at u s in
      let prev : State F = store at u s in
      record {
        pos_a = t.pos_a;
        pos_b = t.pos_b;
        acc = t.acc;
        here = λ v lt. elim (ℕ_discrete v u) [
          | yes same ↦ rw same (update_self prev.y (at + u) _ ∙ ap (λ f. f u) t.acc)
          | no ne ↦ update_ne prev.y (at + u) _ (omega arith) ∙ t.here v (omega arith)
        ];
        below = λ i lt. update_ne prev.y (at + u) _ (omega arith) ∙ t.below i lt;
      }

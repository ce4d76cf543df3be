-- ===== src/Machine/Cores.antt =====
-- The cores of a cluster: which hart has which share of a job.
use k9r.Base.{ℕ, ◌+◌, ◌≤◌, ◌<◌, ◌≡◌, true, inl, inr, arith, ltb, Bool-cases, u32_mod}
use k9r.Machine.{Config, snitch, spatz, is_compute_core, compute_idx}

-- What the generated numbers of a cluster have to satisfy.
pub record IsWellFormed (c : Config) : Type 0 where
  pub cores : c.nb_core ≡ c.nb_compute + 1
  pub dma_in : c.dma_core < c.nb_core
  pub ctrl_is_dma : c.ctrl_core ≡ c.dma_core
  pub harts : c.first_hartid + c.nb_core ≤ u32_mod

snitch-IsWellFormed : IsWellFormed snitch
snitch-IsWellFormed = omega arith

pub spatz-IsWellFormed : IsWellFormed spatz
spatz-IsWellFormed = omega arith

-- Hart `first_hartid + core` of a well-formed cluster, for `core` below `nb_core`.
module _ {c : Config} (w : IsWellFormed c) where
  -- In a well-formed cluster the compute index of each compute core is below the number of compute
  -- cores, and two compute cores with one index are the same core.
  compute_idx_injective :
      (i j : ℕ)
      → i < c.nb_core
      → j < c.nb_core
      → is_compute_core c (c.first_hartid + i) ≡ true
      → is_compute_core c (c.first_hartid + j) ≡ true
      → (compute_idx c (c.first_hartid + i) < c.nb_compute)
        × (compute_idx c (c.first_hartid + i) ≡ compute_idx c (c.first_hartid + j) → i ≡ j)
  unfolding compute_idx is_compute_core
  compute_idx_injective i j hi hj ci cj = ground arith

  -- In a well-formed cluster every index below the number of compute cores is the compute index of
  -- some compute core.
  compute_idx_surjective :
      (k : ℕ)
      → k < c.nb_compute
      → (i : ℕ) × (i < c.nb_core)
        × (is_compute_core c (c.first_hartid + i) ≡ true)
        × (compute_idx c (c.first_hartid + i) ≡ k)
  unfolding compute_idx is_compute_core
  compute_idx_surjective k hk = elim (Bool-cases (ltb k c.dma_core)) [
    | inl below ↦ (k, ground arith, ground arith, ground arith)
    | inr above ↦ (k + 1, ground arith, ground arith, ground arith)
  ]

  -- In a well-formed cluster the compute index of each compute core is below the number of compute
  -- cores, two compute cores with one index are the same core, and every index below the number of
  -- compute cores is the compute index of some compute core.
  pub compute_idx_numbers :
      (i j k : ℕ)
      → i < c.nb_core
      → j < c.nb_core
      → is_compute_core c (c.first_hartid + i) ≡ true
      → is_compute_core c (c.first_hartid + j) ≡ true
      → k < c.nb_compute
      → (compute_idx c (c.first_hartid + i) < c.nb_compute)
        × (compute_idx c (c.first_hartid + i) ≡ compute_idx c (c.first_hartid + j) → i ≡ j)
        × (core : ℕ) × (core < c.nb_core)
        × (is_compute_core c (c.first_hartid + core) ≡ true)
        × (compute_idx c (c.first_hartid + core) ≡ k)
  compute_idx_numbers i j k hi hj ci cj hk =
      let (below, same) = compute_idx_injective i j hi hj ci cj in
      let (core, inside, computes, index) = compute_idx_surjective k hk in
      (below, same, core, inside, computes, index)

-- ===== src/Machine/Tests.antt =====
-- The core questions on the two clusters of the board.
use k9r.Base.{ℕ, ◌+◌, ◌<◌, ◌≡◌, refl, true, arith}
use k9r.Machine.{spatz, is_compute_core, compute_idx}
use k9r.Machine.Cores.{spatz-IsWellFormed, compute_idx_numbers}

numbers_spatz :
    (compute_idx spatz (9 + 1) < 8)
    × (compute_idx spatz (9 + 1) ≡ compute_idx spatz (9 + 8) → ◌≡◌ {A = ℕ} 1 8)
    × (core : ℕ) × (core < 9)
    × (is_compute_core spatz (9 + core) ≡ true)
    × (compute_idx spatz (9 + core) ≡ 7)
unfolding is_compute_core
numbers_spatz =
    compute_idx_numbers spatz-IsWellFormed 1 8 7 (omega arith) (omega arith) refl refl (omega arith)

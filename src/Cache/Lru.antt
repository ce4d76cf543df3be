-- ===== src/Cache/Lru.antt =====
-- The abstract view of a set of the cache of targets/hetero/timing_cache.cpp: its tags, the last
-- one used first, one for each way. What a use of a line does to it is all there is to say of LRU.
pub mod Order
pub mod View
pub mod Seat
pub mod Refines
pub mod Stack
pub mod Retain
use k9r.Base.{
  ℕ, zero, suc, ◌+◌, List, [], ◌∷◌, Bool, true, false, ◌||◌, ◌==◌, if◌then◌else◌, Array, update,
}

abbrev pub holds : ℕ → List ℕ → Bool
holds x [] = false
holds x (y ∷ ys) = (x == y) || holds x ys

-- The list without `x`; without its last entry if `x` is not in it.
abbrev pub without : ℕ → List ℕ → List ℕ
without x [] = []
without x (y ∷ []) = []
without x (y ∷ z ∷ zs) = if x == y then z ∷ zs else y ∷ without x (z ∷ zs)

-- A use of `x`, which takes the place of the least recently used entry if it is new.
abbrev pub use_line : ℕ → List ℕ → List ℕ
use_line x xs = x ∷ without x xs

-- All sets: a use changes one of them.
abbrev pub use_set : Array (List ℕ) → ℕ → ℕ → Array (List ℕ)
use_set sets set x = update sets set (use_line x (sets set))

-- ===== src/Cluster/Slice.antt =====
-- `slice` of runtime/mesh/cluster_main.c: the items of a job that one compute core takes.
pub mod Cover
use k9r.Base.{ℕ, ◌/◌, ◌%◌, ltb, if◌then◌else◌, add32, mul32}

-- `*first` and `*last`
pub record Range : Type 0 where
  pub first : ℕ
  pub last : ℕ

unfoldable pub slice : ℕ → ℕ → ℕ → Range
slice n idx nb =
    let base = n / nb in
    let rem = n % nb in
    let first = add32 (mul32 idx base) (if ltb idx rem then idx else rem) in
    record { first = first; last = add32 (add32 first base) (if ltb idx rem then 1 else 0) }

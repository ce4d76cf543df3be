-- ===== src/Cluster/Slice/Cover.antt =====
-- The ranges of `slice` of runtime/mesh/cluster_main.c, over all cores.
use native.Mathlib.Nat.{div-add-mod, mul-le-mul_right, mod-lt}
use k9r.Base.{
  ℕ, zero, suc, ◌+◌, ◌*◌, ◌/◌, ◌%◌, ◌≤◌, ◌<◌, ◌-◌, ◌≡◌, ap, ◌∙◌, min, arith, u32_mod, dec_lt,
}
use k9r.Cluster.Slice.{slice}

-- The first item of core `idx`, with no wrap.
abbrev start : ℕ → ℕ → ℕ → ℕ
start n nb idx = idx * (n / nb) + min idx (n % nb)

start-last : (n nb : ℕ) → 0 < nb → start n nb nb ≡ n
start-last n nb h = omega (arith, div-add-mod n nb, mod-lt n h)

start_mono : (n nb i j : ℕ) → i ≤ j → start n nb i ≤ start n nb j
start_mono n nb i j h = omega (arith, mul-le-mul_right (n / nb) h)

start-le : (n nb idx : ℕ) → idx < nb → start n nb (suc idx) ≤ n
start-le n nb idx h = omega (arith, start_mono n nb (suc idx) nb h, start-last n nb (omega arith))

-- Below 2 ^ 32 no sum or product of `slice` wraps.
slice-eq-start :
    (n idx nb : ℕ)
    → n < u32_mod
    → idx < nb
    → ((slice n idx nb).first ≡ start n nb idx) × ((slice n idx nb).last ≡ start n nb (suc idx))
unfolding slice
slice-eq-start n idx nb hn hi = ground (arith, start-le n nb idx hi, start_mono n nb idx (suc idx))

-- The range of a core is inside the job.
pub slice_inside :
    (n idx nb : ℕ)
    → n < u32_mod
    → idx < nb
    → ((slice n idx nb).first ≤ (slice n idx nb).last) × ((slice n idx nb).last ≤ n)
slice_inside n idx nb hn hi = omega (
  arith,
  slice-eq-start n idx nb hn hi,
  start_mono n nb idx (suc idx) (omega arith),
  start-le n nb idx hi,
)

abbrev pub Takes : ℕ → ℕ → ℕ → ℕ → Type 0
Takes n nb idx item = ((slice n idx nb).first ≤ item) × (item < (slice n idx nb).last)

-- For a positive number of cores and fewer than 2 ^ 32 items, the first core starts at item 0, each
-- core starts where the core before it stops, the last one stops at the number of items, and each
-- core's range is in order.
slice_consecutive :
    (n nb : ℕ)
    → n < u32_mod
    → 0 < nb
    → ((slice n 0 nb).first ≡ 0)
      × ((idx : ℕ) → suc idx < nb → (slice n (suc idx) nb).first ≡ (slice n idx nb).last)
      × ((idx : ℕ) → suc idx ≡ nb → (slice n idx nb).last ≡ n)
      × ((idx : ℕ) → idx < nb → (slice n idx nb).first ≤ (slice n idx nb).last)
slice_consecutive n nb hn pos = (
  omega (arith, slice-eq-start n 0 nb hn pos),
  λ idx h.
      omega (arith, slice-eq-start n (suc idx) nb hn h, slice-eq-start n idx nb hn (omega arith)),
  λ idx h. (slice-eq-start n idx nb hn (omega arith)).1 ∙ ap (start n nb) h ∙ start-last n nb pos,
  λ idx h. omega (arith, slice-eq-start n idx nb hn h, start_mono n nb idx (suc idx) (omega arith)),
)

-- The core that takes an item, searched from the first `k` cores.
owner_below :
    (n nb item k : ℕ)
    → k ≤ nb
    → item < start n nb k
    → (idx : ℕ) × (idx < nb) × (start n nb idx ≤ item) × (item < start n nb (suc idx))
owner_below n nb item zero hk h = absurd (omega arith)
owner_below n nb item (suc k) hk h = elim (dec_lt item (start n nb k)) [
  | yes before ↦ owner_below n nb item k (omega arith) before
  | no here ↦ (k, hk, omega arith, h)
]

-- The ranges do not overlap.
start_unique :
    (n nb item i j : ℕ)
    → (start n nb i ≤ item) × (item < start n nb (suc i))
    → (start n nb j ≤ item) × (item < start n nb (suc j))
    → i ≡ j
start_unique n nb item i j hi hj = elim (dec_lt i j) [
  | yes before ↦ absurd (omega (arith, start_mono n nb (suc i) j before))
  | no after ↦ elim (dec_lt j i) [
    | yes past ↦ absurd (omega (arith, start_mono n nb (suc j) i past))
    | no same ↦ omega arith
  ]
]

-- For a positive number of cores and fewer than 2 ^ 32 items, every item is taken by a core, and by
-- one core only.
pub slice_covers_once :
    (n nb item : ℕ)
    → n < u32_mod
    → 0 < nb
    → item < n
    → (idx : ℕ) × (idx < nb)
      × Takes n nb idx item
      × ((j : ℕ) → j < nb → Takes n nb j item → j ≡ idx)
slice_covers_once n nb item hn pos h =
    let (idx, here, from, upto) =
      owner_below n nb item nb (omega arith) (omega (arith, start-last n nb pos)) in
    (
      idx,
      here,
      omega (arith, slice-eq-start n idx nb hn here),
      λ j hj takes.
          start_unique n nb item j idx (omega (arith, slice-eq-start n j nb hn hj)) (omega arith),
    )

-- With fewer than 2 ^ 32 items, no core takes more than one item more than another.
slice_balanced :
    (n nb i j : ℕ)
    → n < u32_mod
    → i < nb
    → j < nb
    → (slice n i nb).last - (slice n i nb).first ≤ (slice n j nb).last - (slice n j nb).first + 1
slice_balanced n nb i j hn hi hj =
    omega (arith, slice-eq-start n i nb hn hi, slice-eq-start n j nb hn hj)

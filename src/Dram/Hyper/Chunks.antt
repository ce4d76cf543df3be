-- ===== src/Dram/Hyper/Chunks.antt =====
-- The chunks of a HyperBus transfer of targets/hetero/dram_core.hpp: they are the whole transfer, and
-- none keeps CS# low for longer than tCSM.
use native.Mathlib.Nat.{div-lt_iff_lt-mul, div-mul-le_self, mul-le-mul_right}
use k9r.Base.{
  ℕ, zero, suc, ◌+◌, ◌-◌, ◌*◌, ◌/◌, ◌≤◌, ◌<◌, ◌≡◌, min, List, [], ◌∷◌, All, arith, lt→ltb, le→ltb,
  dec_lt,
}
use k9r.Dram.{Params}
use k9r.Dram.Hyper.{bytes_per_clk, overhead, max_chunk, data_clks, low_ps, chunks}

abbrev pub sum : List ℕ → ℕ
sum [] = 0
sum (x ∷ xs) = x + sum xs

module _ (p : Params) (bus : 0 < p.hb_bus_bytes) where
  -- Fuel for each byte is enough.
  sum-chunks : (fuel bytes : ℕ) → bytes ≤ fuel → sum (chunks p fuel bytes) ≡ bytes
  unfolding chunks
  sum-chunks zero bytes le = omega arith
  sum-chunks (suc fuel) bytes le = elim (dec_lt 0 bytes) [
    | yes more ↦
        let chunk = min bytes (max_chunk p) in
        let rest = sum-chunks fuel (bytes - chunk) (omega arith) in
        rw (lt→ltb 0 bytes more) (omega (arith, rest))
    | no none_left ↦ rw (le→ltb 0 bytes (omega arith)) (omega arith)
  ]

  chunks-bounded :
      (fuel bytes : ℕ) → All (λ chunk. (0 < chunk) × (chunk ≤ max_chunk p)) (chunks p fuel bytes)
  unfolding chunks
  chunks-bounded zero bytes = tt
  chunks-bounded (suc fuel) bytes = elim (dec_lt 0 bytes) [
    | yes more ↦
        rw (lt→ltb 0 bytes more)
          ((omega arith, omega arith), chunks-bounded fuel (bytes - min bytes (max_chunk p)))
    | no none_left ↦ rw (le→ltb 0 bytes (omega arith)) tt
  ]

  -- The clocks of a chunk of `n` clocks' bytes at most.
  data_clks-le : (chunk n : ℕ) → chunk ≤ n * bytes_per_clk p → data_clks p chunk ≤ n
  data_clks-le chunk n le =
      let below : chunk + bytes_per_clk p - 1 < suc n * bytes_per_clk p = omega arith in
      let clks : data_clks p chunk < suc n =
        (div-lt_iff_lt-mul {k = bytes_per_clk p} {x = chunk + bytes_per_clk p - 1} {y = suc n}
            (omega arith)).1
          below in
      omega (arith, clks)

  low_ps-le :
      (chunk : ℕ)
      → overhead p < p.hb_csm_ps / p.hb_ck_ps
      → chunk ≤ max_chunk p
      → low_ps p chunk ≤ p.hb_csm_ps
  low_ps-le chunk room le =
      let clks = p.hb_csm_ps / p.hb_ck_ps in
      let n = clks - overhead p in
      let one : 1 ≤ n = omega arith in
      let wide : 1 * bytes_per_clk p ≤ n * bytes_per_clk p =
        mul-le-mul_right (bytes_per_clk p) one in
      let few = data_clks-le chunk n (omega (arith, wide, le)) in
      let total : overhead p + data_clks p chunk ≤ clks = omega (arith, few) in
      omega (arith, mul-le-mul_right p.hb_ck_ps total, div-mul-le_self p.hb_csm_ps p.hb_ck_ps)

  all_low :
      (xs : List ℕ)
      → overhead p < p.hb_csm_ps / p.hb_ck_ps
      → All (λ chunk. (0 < chunk) × (chunk ≤ max_chunk p)) xs
      → All (λ chunk. low_ps p chunk ≤ p.hb_csm_ps) xs
  all_low [] room h = tt
  all_low (x ∷ xs) room ((some_byte, le), hs) = (low_ps-le x room le, all_low xs room hs)

  -- With a bus of at least one byte, and a tCSM of more clocks than the command and the latency take:
  -- the loop ends with all bytes transferred, and CS# is low for tCSM at most in each round.
  pub chunks-tcsm :
      (bytes : ℕ)
      → overhead p < p.hb_csm_ps / p.hb_ck_ps
      → let rounds = chunks p bytes bytes in
        (sum rounds ≡ bytes) × All (λ chunk. low_ps p chunk ≤ p.hb_csm_ps) rounds
  chunks-tcsm bytes room = (
    sum-chunks bytes bytes (omega arith),
    all_low (chunks p bytes bytes) room (chunks-bounded bytes bytes),
  )

-- ===== src/Ssr/Tests.antt =====
-- A nest of 4 by 3 by 2 by 2.
use k9r.Base.{ℕ, ◌+◌, ◌*◌, ◌%◌, ◌≡◌, Array, arith, u32_mod}
use k9r.Ssr.{ssr_4d, loop_4d, read}
use k9r.Ssr.Walk.{Delivers}
use k9r.Ssr.Nest.{loop_4d-walks}

abbrev zeros : Array ℕ
zeros reg = 0

abbrev addr_4d : ℕ → ℕ → ℕ → ℕ → ℕ
addr_4d i0 i1 i2 i3 = (0x2000 + i3 * 0 + i2 * 32 + i1 * 64 + i0 * 4) % u32_mod

Delivers-4d : Delivers (read ssr_4d 0x2000 (loop_4d 4 3 2 2 4 64 32 0 zeros)) ssr_4d addr_4d
unfolding loop_4d read
Delivers-4d = record {
  start = omega arith;
  round_0 = λ i0 i1 i2 i3 lt. omega arith;
  round_1 = λ i1 i2 i3 deep lt. omega arith;
  round_2 = λ i2 i3 deep lt. omega arith;
  round_3 = λ i3 deep lt. omega arith;
}

four_loops : addr_4d 3 2 1 1 ≡ (0x2000 + 1 * 0 + 1 * 32 + 2 * 64 + 3 * 4) % u32_mod
four_loops =
    loop_4d-walks 4 3 2 2 4 64 32 0 0x2000 zeros addr_4d (omega arith) (omega arith) (omega arith)
      (omega arith) Delivers-4d 3 2 1 1 (omega arith) (omega arith) (omega arith) (omega arith)

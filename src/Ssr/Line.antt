-- ===== src/Ssr/Line.antt =====
-- A stream over consecutive floats, with each of them a number of times, as runtime/snitch/snitch_ssr.h
-- sets it up: `ssr_repeat`, `ssr_loop_1d` and `ssr_read`.
use k9r.Base.{ℕ, ◌+◌, ◌*◌, ◌%◌, ◌<◌, ◌≡◌, ◌∙◌, refl, sym, ap, Array, u32_mod, u32, sub32, arith}
use k9r.Ssr.{ssr_1d, loop_1d, repeat, read}
use k9r.Ssr.Walk.{Delivers, InTurn, rounds_0}
use k9r.Ssr.Nest.{IsCount}

pub line :
    (count rep s0 ptr : ℕ) (cfg : Array ℕ) (addr : ℕ → ℕ → ℕ → ℕ → ℕ) (seq : ℕ → ℕ)
    → IsCount count
    → IsCount rep
    → Delivers (read ssr_1d ptr (loop_1d count s0 (repeat rep cfg))) ssr_1d addr
    → InTurn (read ssr_1d ptr (loop_1d count s0 (repeat rep cfg))) ssr_1d addr seq
    → (i q : ℕ) → i < count
    → q < rep
    → seq (i * rep + q) ≡ (ptr + i * s0) % u32_mod
unfolding loop_1d read repeat
line count rep s0 ptr cfg addr seq hc hr d t i q hi hq =
    let again : u32 (sub32 rep 1) + 1 ≡ rep = omega arith in
    rw (sym again) (
      ap seq (omega arith)
      ∙ t.turn i 0 0 0 q (omega arith) (λ deep. absurd (omega arith), λ lt. refl)
          (λ deep. absurd (omega arith), λ lt. refl) (λ deep. absurd (omega arith), λ lt. refl)
          (omega arith))
    ∙ rounds_0 d s0 0 0 0 ptr i 0 0 0 (omega arith) d.start (omega arith)

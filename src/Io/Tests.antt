-- ===== src/Io/Tests.antt =====
-- Numbers at the console and the break of a small heap.
use k9r.Base.{◌+◌, ◌≤◌, ◌<◌, ◌≡◌, ◌≢◌, ◌↔◌, refl, [], ◌∷◌, none, some, arith}
use k9r.Io.Print.{print_u64, print_i64, print_hex}
use k9r.Io.Print.RoundTrip.{ReadsAs, printed-ReadsAs}
use k9r.Io.Sbrk.{pos, negsuc, moved, sbrk}
use k9r.Io.Sbrk.Bounds.{sbrk_blocks}

prints_1024 : print_u64 1024 ≡ some (49 ∷ 48 ∷ 50 ∷ 52 ∷ [])
unfolding print_u64
prints_1024 = refl

prints_minus_one : print_i64 0xffffffffffffffff ≡ some (45 ∷ 49 ∷ [])
unfolding print_i64
prints_minus_one = refl

prints_beef : print_hex 0xbeef ≡ some (98 ∷ 101 ∷ 101 ∷ 102 ∷ [])
unfolding print_hex
prints_beef = refl

sbrk_past_start :
    let (brk', r) = sbrk 1000 100 (negsuc 3) in
    (brk' ≤ 1000)
    × ((r ≡ none) ↔ (1000 < moved 100 (negsuc 3)))
    × (r ≡ none → brk' ≡ 100)
    × (r ≢ none → r ≡ some 100)
    × ((sbrk 1000 100 (pos 64)).1 ≡ some 100
        → (sbrk 1000 (sbrk 1000 100 (pos 64)).0 (pos 32)).1 ≢ none
        → (sbrk 1000 (sbrk 1000 100 (pos 64)).0 (pos 32)).1 ≡ some (100 + 64))
sbrk_past_start = sbrk_blocks 1000 100 64 32 (negsuc 3) (omega arith)

printed-ReadsAs_example :
    ReadsAs 10 (print_u64 48879) 20 48879 × ReadsAs 16 (print_hex 48879) 16 48879
printed-ReadsAs_example = printed-ReadsAs 48879 (omega arith)

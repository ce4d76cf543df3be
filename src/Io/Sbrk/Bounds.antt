-- ===== src/Io/Sbrk/Bounds.antt =====
-- The break and the blocks of `_sbrk` of runtime/common/syscalls.c.
use k9r.Base.{ℕ, ◌+◌, ◌≤◌, ◌<◌, ◌≡◌, ◌≢◌, ◌↔◌, none, some, arith}
use k9r.Io.Sbrk.{ℤ, pos, moved, sbrk}

-- From a break within the heap, whatever is asked for, the break stays within it; the call fails
-- exactly if the break would pass the end, and then moves nothing; and if it succeeds the result is
-- the old break. The block of a second call that grows the heap starts where the block of the
-- first one that grows it stops.
pub sbrk_blocks :
    (heap_end brk n m : ℕ) (incr : ℤ)
    → brk ≤ heap_end
    → let (brk', r) = sbrk heap_end brk incr in
      (brk' ≤ heap_end)
      × ((r ≡ none) ↔ (heap_end < moved brk incr))
      × (r ≡ none → brk' ≡ brk)
      × (r ≢ none → r ≡ some brk)
      × ((sbrk heap_end brk (pos n)).1 ≡ some brk
          → (sbrk heap_end (sbrk heap_end brk (pos n)).0 (pos m)).1 ≢ none
          → (sbrk heap_end (sbrk heap_end brk (pos n)).0 (pos m)).1 ≡ some (brk + n))
unfolding sbrk
sbrk_blocks heap_end brk n m incr h = ground arith

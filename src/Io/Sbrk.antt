-- ===== src/Io/Sbrk.antt =====
-- `_sbrk` of runtime/common/syscalls.c. The bounds of the heap are the linker's.
pub mod Bounds
use k9r.Base.{ℕ, ◌+◌, ◌-◌, Bool, true, false, Option, none, some, ltb, if◌then◌else◌}

-- The increment, an `int`: `negsuc n` is `-(n + 1)`.
pub data ℤ : Type 0 where
  pos negsuc : ℕ → ℤ

-- `brk + incr`; a pointer below 0 is undefined in C, and here it is 0.
abbrev pub moved : ℕ → ℤ → ℕ
moved brk (pos n) = brk + n
moved brk (negsuc n) = brk - (n + 1)

-- The new `brk`, and the old one as the result; `none` is the result -1 with ENOMEM.
unfoldable pub sbrk : ℕ → ℕ → ℤ → ℕ × Option ℕ
sbrk heap_end brk incr =
    let next = moved brk incr in if ltb heap_end next then (brk, none) else (next, some brk)

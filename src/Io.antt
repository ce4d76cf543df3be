-- ===== src/Io.antt =====
-- The console and the heap of a bare-metal program: runtime/common/miniio.h and
-- runtime/common/syscalls.c.
pub mod Print
pub mod Sbrk
mod Tests

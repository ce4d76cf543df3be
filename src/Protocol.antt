-- ===== src/Protocol.antt =====
-- Host and cluster together: the job protocol of runtime/mesh/hes_mailbox.h.
pub mod System
pub mod Invariant
pub mod Safety
pub mod Serve
pub mod GiveUp
mod Tests

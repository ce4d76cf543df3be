-- ===== src/App.antt =====
-- The programs of the host core.
pub mod Argmax
pub mod Mnist
pub mod Kws
mod Tests

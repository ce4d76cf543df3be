-- ===== src/Host.antt =====
-- The host side of the job protocol, runtime/mesh/hes_host.c.
pub mod State
pub mod Engines
pub mod Post
pub mod Wait
pub mod Offload
pub mod Tests

-- ===== src/Cluster.antt =====
-- The code that the cores of a cluster run, runtime/mesh/cluster_main.c.
pub mod Slice
pub mod Operands
pub mod Scratch
pub mod Stage
pub mod Dispatch
pub mod Loop
mod Tests

-- ===== src/Kernel.antt =====
-- The compute kernels of the clusters.
pub mod Gemm
pub mod Compute
pub mod Rvv
pub mod Conv
pub mod Fft
pub mod Mfcc
mod Tests

-- ===== src/Kernels.antt =====
-- engine/kernels: the choice of how a kernel is launched.
pub mod DecodeConfig

-- ===== src/Backends.antt =====
-- engine/backends: which attention kernel serves a phase.
pub mod Registry
mod Examples

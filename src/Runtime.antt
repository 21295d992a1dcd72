-- ===== src/Runtime.antt =====
-- engine/runtime: sampling parameters, and the states and the life of a request.
pub mod Sampling
pub mod States
pub mod Requests

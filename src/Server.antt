-- ===== src/Server.antt =====
-- engine/server: what a caller sees of a request.
pub mod Handles
pub mod Service

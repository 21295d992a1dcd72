-- ===== src/Speculative.antt =====
-- engine/speculative: the proposals of a draft and what of them is committed.
pub mod Acceptance
pub mod Ngram
mod Examples

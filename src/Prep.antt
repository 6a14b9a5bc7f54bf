-- ===== src/Prep.antt =====
-- What is done before an interview: the cache verdicts of the prep graph and the readiness rollup.
pub mod Cache
pub mod Readiness
pub mod Mappings
pub mod Loop
pub mod Nodes

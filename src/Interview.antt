-- ===== src/Interview.antt =====
-- The interview: the state, the nodes and the graph of agents/, and the endpoint that drives them.
pub mod Effects
pub mod State
pub mod Frames
pub mod Interviewer
pub mod Conductor
pub mod Evaluator
pub mod Graph
pub mod Route

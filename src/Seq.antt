-- ===== src/Seq.antt =====
-- seq/: the concurrent Map, MapUnordered and ForEach. Their workers and the consumer of their
-- results are step relations, in which any of them may move next.
pub mod Worker
pub mod Ordered
pub mod Tally
pub mod Each
pub mod Unordered
mod Examples

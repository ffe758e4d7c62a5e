-- ===== src/Search.antt =====
-- frontend/src/lib/search.ts: the fuzzy search over recipes. `Score` models the scoring, `Index` the
-- index and the queries; the other children hold the proofs.
pub mod Score
pub mod Index
pub mod Matching
pub mod Bounds
pub mod Words
pub mod Ranking
pub mod Books

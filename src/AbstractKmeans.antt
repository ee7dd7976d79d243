-- ===== src/AbstractKmeans.antt =====
-- The base class of the k-Means drivers: abstract_kmeans.hpp.
pub mod State
pub mod Calls
pub mod Setters
mod Tests

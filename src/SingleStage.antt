-- ===== src/SingleStage.antt =====
-- The single-stage k-Means driver: kmeans_single_stage.hpp.
pub mod BufferManager
pub mod Run
pub mod Stages
pub mod SameResult
pub mod Sample
mod Tests

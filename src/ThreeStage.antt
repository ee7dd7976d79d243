-- ===== src/ThreeStage.antt =====
-- The three-stage k-Means driver: kmeans_three_stage.hpp.
pub mod BufferMap
pub mod Run
pub mod Copies
pub mod Lloyd
pub mod OneQueue
pub mod Initializer
pub mod Sample
mod Tests

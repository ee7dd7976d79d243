-- ===== src/Driver.antt =====
-- The buffered three-stage k-Means driver: kmeans_three_stage_buffered.hpp.
pub mod Buffered
pub mod Sizes
pub mod Calls
pub mod Iterations
pub mod Labels
mod Tests

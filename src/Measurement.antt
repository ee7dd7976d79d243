-- ===== src/Measurement.antt =====
-- Measurements: measurement.hpp and measurement.cpp.
pub mod Points
pub mod Series
pub mod Totals
pub mod Flattened
pub mod Visits
pub mod Files
pub mod Times
pub mod Parameters
mod Tests

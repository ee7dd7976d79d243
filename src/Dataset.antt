-- ===== src/Dataset.antt =====
-- Data sets: cluster_generator.cpp, which makes them, and binary_format.cpp, which reads them.
pub mod Bytes
pub mod Generator
pub mod Format
pub mod Counts
pub mod Written
pub mod Reading
pub mod RoundTrip
mod Tests

-- ===== src/Csv.antt =====
-- Files of comma-separated values: csv.hpp.
pub mod Tokens
pub mod Files
pub mod Scanning
pub mod Lines
pub mod RoundTrip
mod Tests

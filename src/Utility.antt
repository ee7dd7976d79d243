-- ===== src/Utility.antt =====
-- The number helpers of utility.hpp.
pub mod Powers
mod Tests

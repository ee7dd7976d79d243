-- ===== src/Scheduler.antt =====
-- The single-device scheduler: device_scheduler.hpp, single_device_scheduler.hpp and
-- single_device_scheduler.cpp.
pub mod State
pub mod Active
pub mod Runnables
pub mod Run
pub mod Parts
pub mod Contract
pub mod Activation
pub mod Launches
pub mod Passes
pub mod Rounds
pub mod Complete
pub mod Simple
mod SimpleTests
mod Tests

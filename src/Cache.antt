-- ===== src/Cache.antt =====
-- The buffer cache: buffer_cache.hpp, simple_buffer_cache.hpp and simple_buffer_cache.cpp.
pub mod State
pub mod Setup
pub mod Fill
pub mod Find
pub mod Lock
pub mod Transfer
pub mod Slots
pub mod Lookup
pub mod Writes
pub mod Store
pub mod Protocol
pub mod Effect
pub mod Calls
pub mod Locked
pub mod Valid
pub mod History
pub mod Defined
pub mod Total
pub mod Errors
pub mod Contents
pub mod Answers
pub mod Hit
pub mod IoThread
mod Tests

-- ===== src/Partition.antt =====
-- `BufferHelper::partition_matrix` (buffer_helper.cpp): a column-major matrix is cut into buffers
-- that each hold a part of every column.
pub mod Helper
pub mod Bounds
mod Tests

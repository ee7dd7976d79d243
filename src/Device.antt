-- ===== src/Device.antt =====
-- The kernels under cl_kernels, and the classes that enqueue them.
pub mod Buffers
pub mod Sums
pub mod Halving
pub mod Reduce
pub mod Rounds
pub mod Rows
pub mod Reduction
pub mod OddRows
pub mod Histogram
pub mod Owners
pub mod Turns
pub mod Strides
pub mod MassUpdate
pub mod Cleared
pub mod Totals
pub mod MatrixOp
pub mod Masses
pub mod PartMasses
mod Tests

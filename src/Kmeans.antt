-- ===== src/Kmeans.antt =====
-- Matrices and k-Means on the host: matrix.hpp, kmeans_initializer.cpp and kmeans_naive.cpp.
pub mod Matrix
pub mod Order
pub mod Initializer
pub mod Naive
pub mod Labels
mod Tests

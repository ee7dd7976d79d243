-- ===== src/Utility/Tests.antt =====
-- An instance of the theorem on powers of two.
use cl_kmeans.Prelude.{ℕ, ◌^◌, true, ◌≡◌, ◌↔◌, arith}
use cl_kmeans.Utility.Powers.{is_power_of_two, is_power_of_two_iff}

is_power_of_two_iff_example : (is_power_of_two 32 48 ≡ true) ↔ ((k : ℕ) × (48 ≡ 2 ^ k))
is_power_of_two_iff_example = is_power_of_two_iff 32 48 (omega arith)

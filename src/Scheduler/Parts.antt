-- ===== src/Scheduler/Parts.antt =====
-- The parts into which the scheduler cuts an object.
use native.Mathlib.Nat.{mul-div-le, lt-mul-div-succ, mul-le-mul_left, lt_of_mul-lt-mul_left}
use cl_kmeans.Prelude.{
  ℕ, suc, ◌+◌, ◌-◌, ◌*◌, ◌/◌, ◌^◌, ◌≤◌, ◌<◌, some, ◌≡◌, arith, ltb, if◌then◌else◌,
}
use cl_kmeans.Scheduler.Active.{offset, end_offset}
use cl_kmeans.Scheduler.Runnables.{num_steps}

-- The length that part `index` has: a step, or what is left of the object.
abbrev pub part_length : (object_size step index : ℕ) → ℕ
part_length object_size step index =
    if ltb (object_size - step * index) step then object_size - step * index else step

-- An object and a step for which `size_t` is wide enough.
pub record IsCut (size step : ℕ) : Type 0 where
  pub not_empty : 0 < size
  pub step_positive : 0 < step
  pub narrow : size + step ≤ 2 ^ 64

module _ (size step : ℕ) (cut : IsCut size step) where
  -- The number of parts, and what it bounds.
  pub num_steps_lem :
      (n : ℕ)
      → num_steps size step ≡ some n
      → (0 < n) × (step * n < size + step) × (size ≤ step * n)
  unfolding num_steps
  num_steps_lem n e = ground (
    arith,
    mul-div-le (size + step - 1) step,
    lt-mul-div-succ (size + step - 1) cut.step_positive,
    cut.not_empty,
    cut.narrow,
  )

  pub part_bounds :
      (n index : ℕ)
      → num_steps size step ≡ some n
      → index < n
      → (offset step index ≡ step * index)
        × (end_offset size step index ≡ step * index + part_length size step index)
        × (step * index < size)
        × (0 < part_length size step index)
        × (part_length size step index ≤ step)
  unfolding offset end_offset
  part_bounds n index e l =
      let (_, last, _) = num_steps_lem n e in
      let next = mul-le-mul_left step l in
      ground (arith, last, next, cut.not_empty, cut.step_positive, cut.narrow)

  -- For an object that is not empty, where the sum of size and step is at most 2 ^ 64, each byte
  -- lies in exactly one of the ranges that `activate_buffers` computes for the indices below
  -- `num_steps`.
  pub parts_cover :
      (n x : ℕ)
      → num_steps size step ≡ some n
      → x < size
      → (index : ℕ) × (index < n)
        × (offset step index ≤ x)
        × (x < end_offset size step index)
        × ((j : ℕ) → j < n → offset step j ≤ x → x < end_offset size step j → j ≡ index)
  parts_cover n x e l =
      let below = mul-div-le x step in
      let above = lt-mul-div-succ x cut.step_positive in
      let (_, _, enough) = num_steps_lem n e in
      let index =
        lt_of_mul-lt-mul_left step {m = x / step} {n = n} (omega (arith, below, l, enough)) in
      let (from, to, _, _, _) = part_bounds n (x / step) e index in
      (
        x / step,
        index,
        omega (arith, from, below),
        ground (arith, to, above, l),
        λ j k p q.
            let (from', to', _, _, short) = part_bounds n j e k in
            let j_low =
              lt_of_mul-lt-mul_left step {m = x / step} {n = suc j}
                (omega (arith, below, q, to', short)) in
            let j_high =
              lt_of_mul-lt-mul_left step {m = j} {n = suc (x / step)}
                (omega (arith, above, p, from')) in
            omega (arith, j_low, j_high),
      )

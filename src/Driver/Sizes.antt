-- ===== src/Driver/Sizes.antt =====
-- The parts of the points and of the labels.
use native.Mathlib.Nat.{
  mul-le-mul_left, mul-lt-mul_of_pos_left, mul-sub, lt_of_mul-lt-mul_left, mul-add, mul_assoc,
}
use cl_kmeans.Prelude.{
  ℕ, suc, ◌+◌, ◌-◌, ◌*◌, ◌/◌, ◌^◌, ◌≤◌, ◌<◌, some, ◌≡◌, inl, inr, ◌∙◌, ap, sym, arith, ltb,
  Bool-cases,
}
use cl_kmeans.Cache.State.{sub64, add64}
use cl_kmeans.Scheduler.Runnables.{num_steps}
use cl_kmeans.Scheduler.Parts.{part_length, IsCut, num_steps_lem}

-- A number of parts, by its bounds.
parts_unique :
    (size step m n : ℕ)
    → size ≤ step * m
    → step * m < size + step
    → size ≤ step * n
    → step * n < size + step
    → m ≡ n
parts_unique size step m n a b c d =
    let m_lt : m < suc n = lt_of_mul-lt-mul_left step (grind (arith, a, b, c, d)) in
    let n_lt : n < suc m = lt_of_mul-lt-mul_left step (grind (arith, a, b, c, d)) in
    omega (arith, m_lt, n_lt)

num_steps-some : (size step : ℕ) → 0 < step → (n : ℕ) × (num_steps size step ≡ some n)
unfolding num_steps
num_steps-some size step p = (sub64 (add64 size step) 1 / step, ground (arith, p))

-- Objects and steps that are in the same ratio have equally many parts.
pub num_steps-scaled :
    (k size step n : ℕ)
    → 0 < k
    → 0 < step
    → 0 < size
    → k * size + k * step ≤ 2 ^ 64
    → num_steps size step ≡ some n
    → num_steps (k * size) (k * step) ≡ some n
num_steps-scaled k size step n p q r narrow e =
    let wide : 0 < k * step = grind (arith, mul-lt-mul_of_pos_left q p) in
    let not_empty : 0 < k * size = grind (arith, mul-lt-mul_of_pos_left r p) in
    let (m, e') = num_steps-some (k * size) (k * step) wide in
    let cut : IsCut size step = record {
      not_empty = r;
      step_positive = q;
      narrow = grind (arith, mul-le-mul_left size p, mul-le-mul_left step p, narrow);
    } in
    let cut' : IsCut (k * size) (k * step) = record {
      not_empty = not_empty;
      step_positive = wide;
      narrow = narrow;
    } in
    let (_, above, below) = num_steps_lem size step cut n e in
    let (_, above', below') = num_steps_lem (k * size) (k * step) cut' m e' in
    let less : step * m < size + step =
      lt_of_mul-lt-mul_left k (grind (arith, above', mul_assoc, mul-add)) in
    let more : size < step * m + 1 =
      lt_of_mul-lt-mul_left k (grind (arith, below', p, mul_assoc, mul-add)) in
    e' ∙ ap some (parts_unique size step m n (omega (arith, more)) less below above)

-- Part by part, too.
pub part_length-scaled :
    (k size step index : ℕ)
    → 0 < k
    → part_length (k * size) (k * step) index ≡ k * part_length size step index
part_length-scaled k size step index p =
    let rest : k * size - k * step * index ≡ k * (size - step * index) =
      ap (λ z. k * size - z) (mul_assoc k step index) ∙ sym (mul-sub k size (step * index)) in
    elim (Bool-cases (ltb (size - step * index) step)) [
      | inl h ↦
          let less : k * (size - step * index) < k * step =
            mul-lt-mul_of_pos_left (ground (arith, h)) p in
          ground (arith, rest, less, h)
      | inr h ↦
          let more : k * step ≤ k * (size - step * index) = mul-le-mul_left k (ground (arith, h)) in
          ground (arith, rest, more, h)
    ]

-- ===== src/Partition/Bounds.antt =====
-- `partition_matrix` stays in the bounds of both arrays.
use native.Mathlib.Nat.{
  mul-le-mul_right, mul-div-le, mul_comm, mul-add, mul-le-mul_left, mul_left_comm, mul_assoc,
  mul-mod_right, mul-div_cancel_left, lt_of_mul-lt-mul_left,
}
use cl_kmeans.Prelude.{
  ℕ, suc, ◌+◌, ◌-◌, ◌*◌, ◌/◌, ◌%◌, ◌^◌, ◌≤◌, ◌<◌, List, ◌≡◌, refl, arith, ◌∙◌, length,
  length-modify, get_elem?, get_elem?-some, leb, Gives, Gives-known, Gives-if, Gives-map,
  Gives-loop, for_range, Gives-bind, ℤ, ap, sym, subst, ◌==◌, true, false, if◌then◌else◌,
}
use cl_kmeans.Partition.Helper.{
  copy_byte, memcpy, real_size, copy_part, copy_buffer, num_bufs, to_int, partition_matrix,
}

memcpy_lem {ℓ} :
    {A : Type ℓ} (src : List A) (to from n : ℕ) (dst : List A)
    → from + n ≤ length src
    → to + n ≤ length dst
    → Gives (λ dst'. length dst' ≡ length dst) (memcpy src to from n dst)
unfolding memcpy
memcpy_lem src to from n dst p q =
    Gives-loop (λ _ d. length d ≡ length dst) n (copy_byte src to from) dst
      (λ i d l e.
        let (byte, there) = get_elem?-some src (from + i) (omega arith) in
        Gives-known (λ d'. length d' ≡ length dst) (get_elem? src (from + i)) _ there
          (Gives-if (λ d'. length d' ≡ length dst) (leb (length d) (to + i)) _ _
            (λ out. absurd (ground arith)) (λ _. length-modify d (to + i) (λ _. byte) ∙ e)))
      refl

-- A matrix of `d` columns of `n` bytes, cut into buffers with `k` bytes of each.
module _ (d n k b v : ℕ) (in_buffers : b * k < n) (in_columns : v < d)
    (narrow : d * n + d * k < 2 ^ 64) where
  small : n + k < 2 ^ 64
  small = omega (
    arith,
    mul-le-mul_right {m = 1} {n = d} n (omega arith),
    mul-le-mul_right {m = 1} {n = d} k (omega arith),
    narrow,
  )

  real_size_lem : (b * k + real_size k n b ≤ n) × (real_size k n b ≤ k)
  unfolding real_size
  real_size_lem = ground (arith, mul-add k b 1, mul_comm k b, small, in_buffers)

  -- A column's part in the source, and its place in the buffer.
  part_bounds :
      (v * n + b * k + real_size k n b ≤ d * n)
      × (b * (d * k) + v * real_size k n b + real_size k n b ≤ d * n)
  part_bounds =
      let (part, _) = real_size_lem in
      let column = mul-le-mul_right {m = suc v} {n = d} n in_columns in
      let place = mul-le-mul_right {m = suc v} {n = d} (real_size k n b) in_columns in
      let whole = mul-le-mul_left {m = b * k + real_size k n b} {n = n} d part in
      let spread = mul-add d (b * k) (real_size k n b) in
      let swap = mul_left_comm b d k in
      (omega (arith, column, part), omega (arith, place, whole, spread, swap))

  copy_part_lem {ℓ} :
      {A : Type ℓ} (src dst : List A)
      → length src ≡ d * n
      → d * n ≤ length dst
      → Gives (λ dst'. length dst' ≡ length dst) (copy_part src n k (d * k) b v dst)
  unfolding copy_part
  copy_part_lem src dst e l =
      let (from, to) = part_bounds in
      memcpy_lem src _ _ (real_size k n b) dst (omega (arith, from, e, narrow))
        (omega (arith, to, l, narrow))

module _ {ℓ} {A : Type ℓ} (src : List A) (d n k : ℕ) (some_column : 0 < d) (not_empty : 0 < k)
    (narrow : d * n + d * k < 2 ^ 64) (exact : length src ≡ d * n) where
  copy_buffer_lem :
      (b : ℕ) (dst : List A)
      → b * k < n
      → d * n ≤ length dst
      → Gives (λ dst'. length dst' ≡ length dst) (copy_buffer src n k (d * k) d b dst)
  unfolding copy_buffer
  copy_buffer_lem b dst l fits =
      Gives-loop (λ _ t. length t ≡ length dst) d (copy_part src n k (d * k) b) dst
        (λ v t less same.
          Gives-map (λ t'. length t' ≡ length t) (λ t'. length t' ≡ length dst) (λ t' e. e ∙ same)
            (copy_part src n k (d * k) b v t)
            (copy_part_lem d n k b v l less narrow src t exact (omega (arith, fits, same))))
        refl

  room : 0 < d * k
  room = omega (arith, mul-le-mul_right {m = 1} {n = d} k some_column, not_empty)

  num_bufs_lem : (b : ℕ) → b < num_bufs (d * n) (d * k) → b * k < n
  num_bufs_lem b l =
      let number : num_bufs (d * n) (d * k) ≡ (d * n + d * k - 1) / (d * k) =
        ap (λ z. z / (d * k)) (omega (arith, room, narrow)) in
      let below = mul-div-le (d * n + d * k - 1) (d * k) in
      let next =
        mul-le-mul_left {m = suc b} {n = (d * n + d * k - 1) / (d * k)} (d * k)
          (omega (arith, number, l)) in
      let swap : d * k * b ≡ d * (b * k) = mul_assoc d k b ∙ ap (λ z. d * z) (mul_comm k b) in
      lt_of_mul-lt-mul_left d {m = b * k} {n = n} (omega (arith, below, next, swap, room))

  -- For a source that is `d` columns of `n` bytes and buffers with room for `k` bytes of each
  -- column, both `d` and `k` positive, where the sizes are below 2 ^ 64 together and the destination is at least as long as
  -- the source, `partition_matrix` returns the number of buffers as an `int`, reads and writes
  -- inside of both arrays only, and leaves the destination's length.
  pub partition_matrix_lem :
      (dst : List A)
      → d * n ≤ length dst
      → Gives
          (λ r. (r.0 ≡ to_int (num_bufs (d * n) (d * k))) × (length r.1 ≡ length dst))
          (partition_matrix src dst (d * n) d (d * k))
  unfolding partition_matrix
  partition_matrix_lem dst fits =
      Gives-if P (d == 0) _ _ (λ e. absurd (ground arith))
        λ _.
          Gives-if P (if (d * n % d) == 0 then false else true) _ _
            (λ e. absurd (ground (arith, mul-mod_right d n)))
            λ _.
              Gives-if P (if (d * k % d) == 0 then false else true) _ _
                (λ e. absurd (ground (arith, mul-mod_right d k)))
                λ _.
                  Gives-if P (d * k == 0) _ _ (λ e. absurd (ground (arith, room)))
                    λ _.
                      Gives-bind P (λ t. length t ≡ length dst)
                        (for_range 0 (num_bufs (d * n) (d * k))
                          (copy_buffer src (d * n / d) (d * k / d) (d * k) d) dst)
                        _ loop (λ t e. (refl, e))
    where
      P : ℤ × List A → Type 0
      P r = (r.0 ≡ to_int (num_bufs (d * n) (d * k))) × (length r.1 ≡ length dst)

      loop :
          Gives
            (λ t. length t ≡ length dst)
            (for_range 0
              (num_bufs (d * n) (d * k))
              (copy_buffer src (d * n / d) (d * k / d) (d * k) d)
              dst)
      loop =
          subst
            (λ (z : ℕ × ℕ).
              Gives (λ t. length t ≡ length dst)
                (for_range 0 (num_bufs (d * n) (d * k)) (copy_buffer src z.0 z.1 (d * k) d) dst))
            (sym (λ i. (
              mul-div_cancel_left n {n = d} some_column i,
              mul-div_cancel_left k {n = d} some_column i,
            )))
            (Gives-loop (λ _ t. length t ≡ length dst) (num_bufs (d * n) (d * k))
              (copy_buffer src n k (d * k) d) dst
              (λ b t l same.
                Gives-map (λ t'. length t' ≡ length t) (λ t'. length t' ≡ length dst)
                  (λ t' e. e ∙ same) (copy_buffer src n k (d * k) d b t)
                  (copy_buffer_lem b t (num_bufs_lem b l) (omega (arith, fits, same))))
              refl)

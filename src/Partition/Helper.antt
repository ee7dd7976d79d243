-- ===== src/Partition/Helper.antt =====
-- `partition_matrix`. Memory is a list of bytes; `none` is undefined behaviour.
use cl_kmeans.Prelude.{
  ℕ, Bool, true, false, ◌+◌, ◌-◌, ◌*◌, ◌/◌, ◌%◌, ◌^◌, List, Option, none, some, ℤ, pos, negsuc,
  length, get_elem?, modify, ltb, leb, ◌==◌, if◌then◌else◌, ◌>>=◌, for_range,
}
use cl_kmeans.Cache.State.{add64, sub64, failure}

-- One byte of a copy.
unfoldable pub copy_byte {ℓ} :
    {A : Type ℓ} → List A → (to from : ℕ) → (i : ℕ) → List A → Option (List A)
copy_byte src to from i dst = do
  v ← get_elem? src (from + i)
  if leb (length dst) (to + i) then none else some (modify dst (to + i) (λ _. v))

-- `std::memcpy(&dst[to], &src[from], n)`
unfoldable pub memcpy {ℓ} : {A : Type ℓ} → List A → (to from n : ℕ) → List A → Option (List A)
unfolding copy_byte for_range
memcpy src to from n dst = for_range 0 n (copy_byte src to from) dst

abbrev pub mul64 : ℕ → ℕ → ℕ
mul64 a b = (a * b) % 2 ^ 64

-- `real_buf_dim_size`
unfoldable pub real_size : (buf_dim_size dim_size b : ℕ) → ℕ
real_size buf_dim_size dim_size b =
    if ltb dim_size (mul64 buf_dim_size (b + 1))
    then sub64 dim_size (mul64 b buf_dim_size)
    else buf_dim_size

-- The body of the inner loop.
unfoldable pub copy_part {ℓ} :
    {A : Type ℓ} → List A → (dim_size buf_dim_size buffer_size b v : ℕ) → List A → Option (List A)
unfolding memcpy real_size
copy_part src dim_size buf_dim_size buffer_size b v =
    memcpy src (add64 (mul64 b buffer_size) (mul64 v (real_size buf_dim_size dim_size b)))
      (add64 (mul64 v dim_size) (mul64 b buf_dim_size)) (real_size buf_dim_size dim_size b)

unfoldable pub copy_buffer {ℓ} :
    {A : Type ℓ}
    → List A
    → (dim_size buf_dim_size buffer_size num_dims b : ℕ) → List A
    → Option (List A)
unfolding copy_part for_range
copy_buffer src dim_size buf_dim_size buffer_size num_dims b =
    for_range 0 num_dims (copy_part src dim_size buf_dim_size buffer_size b)

-- A `size_t` as an `int`.
abbrev pub to_int : ℕ → ℤ
to_int n = if ltb (n % 2 ^ 32) (2 ^ 31) then pos (n % 2 ^ 32) else negsuc (2 ^ 32 - n % 2 ^ 32 - 1)

abbrev pub num_bufs : (size buffer_size : ℕ) → ℕ
num_bufs size buffer_size = sub64 (add64 size buffer_size) 1 / buffer_size

-- The code, and `dst` after the call. A division by 0 is undefined.
unfoldable pub partition_matrix {ℓ} :
    {A : Type ℓ} → List A → List A → (size num_dims buffer_size : ℕ) → Option (ℤ × List A)
unfolding copy_buffer for_range
partition_matrix src dst size num_dims buffer_size =
    if num_dims == 0
    then none
    else (if not_divided size
        then some (failure, dst)
        else (if not_divided buffer_size
            then some (failure, dst)
            else (if buffer_size == 0 then none else (do
              dst' ←
                  for_range 0 (num_bufs size buffer_size)
                    (copy_buffer src (size / num_dims) (buffer_size / num_dims) buffer_size
                      num_dims)
                    dst
              some (to_int (num_bufs size buffer_size), dst')))))
  where
    not_divided : ℕ → Bool
    not_divided n = if (n % num_dims) == 0 then false else true

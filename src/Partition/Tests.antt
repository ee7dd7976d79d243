-- ===== src/Partition/Tests.antt =====
-- A run of `partition_matrix`, and an instance of its theorem.
use cl_kmeans.Prelude.{ℕ, List, [], ◌∷◌, some, pos, ◌≡◌, refl, arith, length, Gives}
use cl_kmeans.Partition.Helper.{partition_matrix, num_bufs, to_int}
use cl_kmeans.Partition.Bounds.{partition_matrix_lem}

-- Two columns of three bytes.
abbrev columns : List ℕ
columns = 1 ∷ 2 ∷ 3 ∷ 4 ∷ 5 ∷ 6 ∷ []

abbrev blank : List ℕ
blank = 0 ∷ 0 ∷ 0 ∷ 0 ∷ 0 ∷ 0 ∷ []

-- Buffers of two bytes of each column, of which the second has room to spare.
two_buffers : partition_matrix columns blank 6 2 4 ≡ some (pos 2, 1 ∷ 2 ∷ 4 ∷ 5 ∷ 3 ∷ 6 ∷ [])
unfolding partition_matrix
two_buffers = refl

partition_matrix_lem_example :
    Gives
      (λ r. (r.0 ≡ to_int (num_bufs 6 4)) × (length r.1 ≡ 6))
      (partition_matrix columns blank 6 2 4)
partition_matrix_lem_example =
    partition_matrix_lem columns 2 3 2 (omega arith) (omega arith) (omega arith) refl blank
      (omega arith)

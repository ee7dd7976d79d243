-- ===== src/Dataset/Tests.antt =====
-- Small data sets, and instances of the theorems on them.
use cl_kmeans.Prelude.{
  ℕ, ◌+◌, ◌*◌, ◌%◌, ◌^◌, [], ◌++◌, map, some, ◌≡◌, refl, arith, length, Gives, ◌>>=◌, for_range,
}
use cl_kmeans.Kmeans.Matrix.{Matrix}
use cl_kmeans.Dataset.Bytes.{bytes}
use cl_kmeans.Dataset.Generator.{
  Settings, Random, Counts, counts, start_of, write_point, write_cluster, write_feature,
  generate_bin,
}
use cl_kmeans.Dataset.Format.{read}
use cl_kmeans.Dataset.Counts.{IsEven}
use cl_kmeans.Dataset.Written.{Narrow, Grown}
use cl_kmeans.Dataset.RoundTrip.{read-generate_bin}

-- An engine that counts its draws.
abbrev counting : Random
counting = record {
  Engine = ℕ;
  start = 0;
  uniform = λ k. (1000, k + 1);
  gaussian = λ k. (k, k + 1);
  plus = λ a b. (a + b) % 2 ^ 32;
}

counting-Narrow : Narrow counting
counting-Narrow a b = omega arith

-- Nine points of two features for three clusters, of which one is left out.
abbrev small : Settings
small = record { features = 2; clusters = 3; bytes = 88; multiple = 2 }

abbrev small_counts : Counts
small_counts = record { num_points = 8; points_per_cluster = 3; remainder = 1 }

small-IsEven : IsEven small small_counts
unfolding counts
small-IsEven = record { counted = refl; few = omega arith }

abbrev empty : Matrix ℕ
empty = record { raw = []; x_dim = 0; y_dim = 0 }

read-generate_bin_example :
    Gives
      (λ fh.
        (g : Grown (bytes 8 2 ++ bytes 8 0 ++ bytes 8 8) 16 fh) × (read (λ v. v) 0 fh empty
          ≡ some (record { raw = map (λ v. v) g.values; x_dim = 8; y_dim = 2 })))
      (generate_bin counting small)
read-generate_bin_example =
    read-generate_bin (λ v. v) 0 counting counting-Narrow small small_counts small-IsEven empty
      (omega arith) (omega arith) (omega arith)

-- With five points to be left out of three clusters, four are left out: the header has 16 points,
-- and 17 floats follow it.
abbrev uneven : Settings
uneven = record { features = 1; clusters = 3; bytes = 84; multiple = 8 }

uneven-counts :
    counts uneven ≡ some (record { num_points = 16; points_per_cluster = 7; remainder = 5 })
unfolding counts
uneven-counts = refl

uneven-length : (do fh ← generate_bin counting uneven; some (length fh)) ≡ some (24 + 4 * 17)
unfolding generate_bin counts write_feature write_cluster write_point start_of for_range bytes
uneven-length = refl

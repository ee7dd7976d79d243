-- ===== src/Dataset/Format.antt =====
-- `BinaryFormat::read` (binary_format.cpp), for matrices with `size_t` indices.
use cl_kmeans.Prelude.{ℕ, List, Option, none, some, ◌==◌, if◌then◌else◌, ◌>>=◌, for_range}
use cl_kmeans.Kmeans.Matrix.{Matrix, resize, assign}
use cl_kmeans.Dataset.Bytes

-- `convert` makes an element of a float, `default` is the element that `resize` adds.
module _ {T : Type 0} (convert : ℕ → T) (default : T) where
  unfoldable pub read_point : (f p : ℕ) → List ℕ × Matrix T → Option (List ℕ × Matrix T)
  read_point f p s = do
    point ← Bytes.read 4 s.0
    matrix ← assign s.1 p f (convert point.0)
    some (point.1, matrix)

  unfoldable pub read_feature : (num_points f : ℕ) → List ℕ × Matrix T → Option (List ℕ × Matrix T)
  read_feature num_points f s = for_range 0 num_points (read_point f) s

  unfoldable pub read_features :
      (num_features num_points : ℕ) → List ℕ → Matrix T → Option (Matrix T)
  read_features num_features num_points fh matrix = do
    s ←
        for_range 0 num_features (read_feature num_points)
          (fh, resize default num_points num_features matrix)
    some s.1

  -- A file with centroids ends the program by the assertion.
  unfoldable pub read : List ℕ → Matrix T → Option (Matrix T)
  read fh matrix = do
    num_features ← Bytes.read 8 fh
    num_clusters ← Bytes.read 8 num_features.1
    num_points ← Bytes.read 8 num_clusters.1
    let rest = read_features num_features.0 num_points.0 num_points.1 matrix
    (if num_clusters.0 == 0 then rest else none)

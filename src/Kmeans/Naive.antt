-- ===== src/Kmeans/Naive.antt =====
-- `KmeansNaive` (kmeans_naive.cpp): Lloyd's algorithm on the host.
use cl_kmeans.Prelude.{
  ℕ, ◌+◌, ◌%◌, ◌^◌, Bool, List, [], Option, some, map, ◌==◌, get_elem?, modify, if◌then◌else◌,
  ◌>>=◌, for_range,
}
use cl_kmeans.Kmeans.Matrix.{Matrix, rows, cols, at, assign, resize}

-- The arithmetic of `PointT`, a `float` or a `double`; `of_mass` is the conversion of a mass.
pub record Arithmetic : Type 1 where
  pub Point : Type 0
  pub zero_point : Point
  pub max_point : Point
  pub add : Point → Point → Point
  pub sub : Point → Point → Point
  pub mul : Point → Point → Point
  pub div : Point → Point → Point
  pub less : Point → Point → Bool
  pub of_mass : ℕ → Point

module _ (R : Arithmetic) (points : Matrix R.Point) (w : ℕ) where
  -- The state of the algorithm; labels and masses are `w`-bit integers.
  pub record Clustering : Type 0 where
    pub centroids : Matrix R.Point
    pub cluster_mass : List ℕ
    pub labels : List ℕ
    pub compensation : Matrix R.Point

  -- One term of the squared distance.
  unfoldable pub add_square : (p c : ℕ) → Matrix R.Point → (d : ℕ) → R.Point → Option R.Point
  unfolding at
  add_square p c centroids d distance = do
    x ← at points p d
    y ← at centroids c d
    some (R.add distance (R.mul (R.sub x y) (R.sub x y)))

  unfoldable pub distance_to : (p c : ℕ) → Matrix R.Point → Option R.Point
  unfolding add_square for_range
  distance_to p c centroids = for_range 0 (cols points) (add_square p c centroids) R.zero_point

  -- `min_distance` and `min_centroid`.
  pub record Nearest : Type 0 where
    pub min_distance : R.Point
    pub min_centroid : ℕ

  unfoldable pub compare_centroid : (p : ℕ) → Matrix R.Point → (c : ℕ) → Nearest → Option Nearest
  unfolding distance_to
  compare_centroid p centroids c n = do
    distance ← distance_to p c centroids
    some (
        if R.less distance n.min_distance
        then record { min_distance = distance; min_centroid = c % 2 ^ w }
        else n)

  unfoldable pub nearest : (p : ℕ) → Matrix R.Point → Option Nearest
  unfolding compare_centroid for_range
  nearest p centroids =
      for_range 0 (rows centroids) (compare_centroid p centroids)
        (record { min_distance = R.max_point; min_centroid = 0 })

  -- Phase 1 for one point: its new label. The source writes the label where it differs.
  unfoldable pub label_point : (p : ℕ) → Clustering → Option Clustering
  unfolding nearest
  label_point p s = do
    n ← nearest p s.centroids
    old ← get_elem? s.labels p
    some (
        if n.min_centroid == old
        then s
        else record s { labels = modify s.labels p (λ _. n.min_centroid) })

  unfoldable pub label_points : Clustering → Option Clustering
  unfolding label_point for_range
  label_points s = for_range 0 (rows points) label_point s

  -- `std::fill`
  abbrev pub fill_matrix : R.Point → Matrix R.Point → Matrix R.Point
  fill_matrix v m = record m { raw = map (λ _. v) m.raw }

  unfoldable pub reset : Clustering → Clustering
  unfolding resize
  reset s = record s {
    centroids = fill_matrix R.zero_point s.centroids;
    cluster_mass = map (λ _. 0) s.cluster_mass;
    compensation = fill_matrix R.zero_point (
        resize R.zero_point (rows s.centroids) (cols s.centroids)
          (record { raw = []; x_dim = 0; y_dim = 0 }));
  }

  -- A step of the Kahan sum of `centroids(c, d) += points(p, d)`.
  unfoldable pub kahan : (p c d : ℕ) → Clustering → Option Clustering
  unfolding at assign
  kahan p c d s = do
    point ← at points p d
    comp ← at s.compensation c d
    sum ← at s.centroids c d
    let y = R.sub point comp
    let t = R.add sum y
    compensation ← assign s.compensation c d (R.sub (R.sub t sum) y)
    centroids ← assign s.centroids c d t
    some (record s { compensation = compensation; centroids = centroids })

  abbrev pub count : ℕ → ℕ
  count mass = (mass + 1) % 2 ^ w

  unfoldable pub add_point : (p : ℕ) → Clustering → Option Clustering
  unfolding kahan for_range
  add_point p s = do
    c ← get_elem? s.labels p
    mass ← get_elem? s.cluster_mass c
    for_range 0 (cols points) (kahan p c)
        (record s { cluster_mass = modify s.cluster_mass c count })

  unfoldable pub add_points : Clustering → Option Clustering
  unfolding add_point for_range
  add_points s = for_range 0 (rows points) add_point s

  unfoldable pub divide : (f c : ℕ) → Clustering → Option Clustering
  unfolding at assign
  divide f c s = do
    sum ← at s.centroids c f
    mass ← get_elem? s.cluster_mass c
    centroids ← assign s.centroids c f (R.div sum (R.of_mass mass))
    some (record s { centroids = centroids })

  unfoldable pub divide_feature : (f : ℕ) → Clustering → Option Clustering
  unfolding divide for_range
  divide_feature f s = for_range 0 (rows s.centroids) (divide f) s

  -- Phase 2.
  unfoldable pub update : Clustering → Option Clustering
  unfolding reset add_points divide_feature for_range
  update s = do
    summed ← add_points (reset s)
    for_range 0 (cols summed.centroids) divide_feature summed

  unfoldable pub iterate : (iterations : ℕ) → Clustering → Option Clustering
  unfolding label_points update
  iterate iterations s = do labelled ← label_points s; update labelled

  -- `operator()`. It makes `max_iterations` rounds; `did_changes` is set and not used.
  unfoldable pub cluster : (max_iterations : ℕ) → Clustering → Option Clustering
  unfolding iterate for_range
  cluster max_iterations s = for_range 0 max_iterations iterate s

-- ===== src/Dataset/Generator.antt =====
-- `ClusterGenerator` (cluster_generator.hpp, cluster_generator.cpp).
use cl_kmeans.Prelude.{
  ℕ, ◌+◌, ◌-◌, ◌*◌, ◌/◌, ◌%◌, not, ◌&&◌, List, ◌++◌, Option, none, some, ◌==◌, if◌then◌else◌, ◌>>=◌,
  for_range,
}
use cl_kmeans.Dataset.Bytes.{bytes}

-- The settings, but those that only the random distributions use.
pub record Settings : Type 0 where
  pub features : ℕ
  pub clusters : ℕ
  pub bytes : ℕ
  pub multiple : ℕ

-- The random engine with its two distributions, and the addition of floats. A float is the number
-- whose four bytes are its own.
pub record Random : Type 1 where
  pub Engine : Type 0
  pub start : Engine
  pub uniform : Engine → ℕ × Engine
  pub gaussian : Engine → ℕ × Engine
  pub plus : ℕ → ℕ → ℕ

pub record Counts : Type 0 where
  pub num_points : ℕ
  pub points_per_cluster : ℕ
  pub remainder : ℕ

-- The counts that each generating function computes first. A division by 0 is undefined.
unfoldable pub counts : Settings → Option Counts
counts s =
    let size = s.bytes / 4 in
    let num_points = size / s.features in
    let points_per_cluster = num_points / s.clusters in
    let remainder = (points_per_cluster * s.clusters) % s.multiple in
    if s.features == 0
    then none
    else if s.clusters == 0
    then none
    else if s.multiple == 0
    then none
    else some (record {
      num_points = points_per_cluster * s.clusters - remainder;
      points_per_cluster = points_per_cluster;
      remainder = remainder;
    })

-- How many points of cluster `c` are left out, where `remainder` are still to be left out.
unfoldable pub start_of : Settings → (c remainder : ℕ) → ℕ
start_of s c remainder =
    if not (remainder == 0) && not (c == 0)
    then (s.clusters + remainder - 2) / (s.clusters - 1)
    else 0

module _ (random : Random) where
  -- The state of the loops of `generate_bin`.
  pub record Writer : Type 0 where
    pub rgen : random.Engine
    pub remainder : ℕ
    pub fh : List ℕ

  unfoldable pub write_point : (centroid p : ℕ) → Writer → Option Writer
  write_point centroid p w =
      let (g, rgen) = random.gaussian w.rgen in
      some (record w { rgen = rgen; fh = w.fh ++ bytes 4 (random.plus centroid g) })

  module _ (s : Settings) (n : Counts) where
    unfoldable pub write_cluster : (c : ℕ) → Writer → Option Writer
    write_cluster c w =
        let (centroid, rgen) = random.uniform w.rgen in
        let start = start_of s c w.remainder in
        for_range start (n.points_per_cluster - start) (write_point centroid)
          (record w { rgen = rgen; remainder = w.remainder - start })

    unfoldable pub write_feature : (f : ℕ) → Writer → Option Writer
    write_feature f w = for_range 0 s.clusters write_cluster (record w { remainder = n.remainder })

  unfoldable pub generate_bin : Settings → Option (List ℕ)
  generate_bin s = do
    n ← counts s
    w ← for_range 0 s.features (write_feature s n) (record {
      rgen = random.start;
      remainder = n.remainder;
      fh = bytes 8 s.features ++ bytes 8 0 ++ bytes 8 n.num_points;
    })
    some w.fh

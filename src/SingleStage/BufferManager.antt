-- ===== src/SingleStage/BufferManager.antt =====
-- `KmeansSingleStage::BufferManager` (kmeans_single_stage.hpp): the vectors on the device, some of
-- which an earlier run may have left.
use cl_kmeans.Prelude.{
  ℕ, ◌*◌, List, Option, none, some, length, replicate, ◌==◌, if◌then◌else◌, ◌>>=◌,
}
use cl_kmeans.ThreeStage.BufferMap.{copy_values, Elements}

-- The vector of an earlier run, if it has `n` values, and `fresh` otherwise.
abbrev pub reused : {T : Type 0} → (n : ℕ) → (fresh : List T) → Option (List T) → List T
reused n fresh none = fresh
reused n fresh (some v) = if length v == n then v else fresh

module _ (E : Elements) where
  open E use {Point, Label, Mass, zero_point, zero_label, zero_mass, uninitialised}

  -- `none` is a null pointer.
  pub record BufferManager : Type 0 where
    pub num_features : ℕ
    pub num_points : ℕ
    pub num_clusters : ℕ
    pub points : Option (List Point)
    pub centroids : Option (List Point)
    pub new_centroids : Option (List Point)
    pub labels : Option (List Label)
    pub masses : Option (List Mass)

  unfoldable pub set_parameters :
      (num_features num_points num_clusters : ℕ) → BufferManager → BufferManager
  set_parameters num_features num_points num_clusters b = record b {
    num_features = num_features;
    num_points = num_points;
    num_clusters = num_clusters;
  }

  unfoldable pub set_points_buffer : (buf : List Point) → BufferManager → Option BufferManager
  set_points_buffer buf b = do
    points ←
        copy_values (length buf) buf (reused (length buf) (uninitialised (length buf)) b.points)
    some (record b { points = some points })

  unfoldable pub set_centroids_buffer : (buf : List Point) → BufferManager → Option BufferManager
  set_centroids_buffer buf b = do
    centroids ← copy_values (length buf) buf (uninitialised (length buf))
    some (record b { centroids = some centroids })

  unfoldable pub set_new_centroids_buffer : BufferManager → BufferManager
  set_new_centroids_buffer b = record b {
    new_centroids = some (replicate (b.num_clusters * b.num_features) zero_point);
  }

  unfoldable pub set_labels_buffer : BufferManager → BufferManager
  set_labels_buffer b = record b {
    labels = some (reused b.num_points (replicate b.num_points zero_label) b.labels);
  }

  unfoldable pub set_masses_buffer : BufferManager → BufferManager
  set_masses_buffer b = record b { masses = some (replicate b.num_clusters zero_mass) }

  -- To the host, which has room for them.
  unfoldable pub get_centroids : (buf : List Point) → BufferManager → Option (List Point)
  get_centroids buf b = do
    from ← b.centroids
    copy_values (b.num_clusters * b.num_features) from buf

  unfoldable pub get_labels : (buf : List Label) → BufferManager → Option (List Label)
  get_labels buf b = do from ← b.labels; copy_values b.num_points from buf

  unfoldable pub get_masses : (buf : List Mass) → BufferManager → Option (List Mass)
  get_masses buf b = do from ← b.masses; copy_values b.num_clusters from buf

-- ===== src/AbstractKmeans/State.antt =====
-- `AbstractKmeans` (abstract_kmeans.hpp), without its measurement.
use cl_kmeans.Prelude.{ℕ, ◌/◌, List, Option, none, some, length, ◌==◌, if◌then◌else◌, ◌>>=◌}
use cl_kmeans.ThreeStage.BufferMap.{Elements}
use cl_kmeans.ThreeStage.Run.{Host}

module _ (E : Elements) where
  open E use {Point, Label, Mass}

  -- `none` is a null pointer, a function that is not callable, and a number that is not
  -- initialized.
  pub record AbstractKmeans : Type 0 where
    pub max_iterations : Option ℕ
    pub num_features : ℕ
    pub num_points : ℕ
    pub num_clusters : ℕ
    pub host_points : Option (List Point)
    pub host_centroids : Option (List Point)
    pub host_masses : Option (List Mass)
    pub host_labels : Option (List Label)
    pub centroids_initializer : Option (List Point → List Point → List Point)

  abbrev pub new_kmeans : AbstractKmeans
  new_kmeans = record {
    max_iterations = none;
    num_features = 0;
    num_points = 0;
    num_clusters = 0;
    host_points = none;
    host_centroids = none;
    host_masses = none;
    host_labels = none;
    centroids_initializer = none;
  }

  unfoldable pub set_points : (p : List Point) → AbstractKmeans → AbstractKmeans
  set_points p k = record k {
    host_points = some p;
    num_points = if k.num_features == 0 then k.num_points else length p / k.num_features;
  }

  -- A division by 0 is undefined.
  unfoldable pub set_features : (f : ℕ) → AbstractKmeans → Option AbstractKmeans
  set_features f k = do
    p ← k.host_points
    (if f == 0 then none else some (record k { num_features = f; num_points = length p / f }))

  -- `operator()`, with the method `run` of the derived class.
  unfoldable pub operator_call :
      (run : AbstractKmeans → Option AbstractKmeans)
      → (max_iterations num_features : ℕ) → (points centroids : List Point) → (masses : List Mass)
      → (labels : List Label) → AbstractKmeans
      → Option AbstractKmeans
  operator_call run max_iterations num_features points centroids masses labels k =
      if num_features == 0
      then none
      else run (record k {
        max_iterations = some max_iterations;
        num_features = num_features;
        num_points = length points / num_features;
        num_clusters = length centroids / num_features;
        host_points = some points;
        host_centroids = some centroids;
        host_masses = some masses;
        host_labels = some labels;
      })

  -- The method `run` of a driver, which reads the members and writes to the host's vectors.
  unfoldable pub run_on_members :
      (driver : (num_features num_points num_clusters max_iterations : ℕ)
        → Option (List Point → List Point → List Point)
        → Host E
        → Option (Host E))
      → AbstractKmeans
      → Option AbstractKmeans
  run_on_members driver k = do
    max_iterations ← k.max_iterations
    points ← k.host_points
    centroids ← k.host_centroids
    masses ← k.host_masses
    labels ← k.host_labels
    host ←
        driver k.num_features k.num_points k.num_clusters max_iterations k.centroids_initializer
          (record {
            host_points = points;
            host_centroids = centroids;
            host_labels = labels;
            host_masses = masses;
          })
    some (record k {
      host_centroids = some host.host_centroids;
      host_masses = some host.host_masses;
      host_labels = some host.host_labels;
    })

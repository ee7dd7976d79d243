-- ===== src/ThreeStage/Run.antt =====
-- `KmeansThreeStage::run` (kmeans_three_stage.hpp). The commands take place in the order in which
-- they are enqueued, as those of one queue do. The wait lists stay empty, so that commands of
-- different queues may overlap; what is proved rests on nothing that this order decides.
use cl_kmeans.Prelude.{ℕ, List, Option, none, some, map, ◌>>=◌, for_uint32}
use cl_kmeans.ThreeStage.BufferMap.{
  Phase, ll, mu, cu, get_vector, set_vector, Elements, BufferMap, set_queues, set_parameters,
  set_points_buffer, set_centroids_buffer, set_labels_buffer, set_masses_buffer, sync_centroids,
  sync_labels, sync_masses, get_centroids, get_labels, get_masses,
}

module _ (E : Elements) where
  open E use {Point, Label, Mass, zero_point, zero_mass}

  -- What the kernels compute: the new labels, the new masses, the new centroids, and the rows of
  -- the centroids divided by the masses.
  pub record Kernels : Type 0 where
    pub labeling : (points centroids : List Point) → List Label → List Label
    pub mass_update : List Label → List Mass → List Mass
    pub centroid_update : (points centroids : List Point) → List Label → List Mass → List Point
    pub divide : (centroids : List Point) → List Mass → List Point

  -- Points, centroids, labels and masses on the host.
  pub record Host : Type 0 where
    pub host_points : List Point
    pub host_centroids : List Point
    pub host_labels : List Label
    pub host_masses : List Mass

  module _ (K : Kernels) where
    unfoldable pub label_stage : BufferMap E → Option (BufferMap E)
    label_stage b = do
      p ← get_vector b.points ll
      c ← get_vector b.centroids ll
      l ← get_vector b.labels ll
      v ← set_vector b.labels ll (K.labeling p c l)
      some (record b { labels = v })

    unfoldable pub fill_stage : BufferMap E → Option (BufferMap E)
    fill_stage b = do
      m ← get_vector b.masses mu
      masses ← set_vector b.masses mu (map (λ _. zero_mass) m)
      c ← get_vector b.centroids cu
      centroids ← set_vector b.centroids cu (map (λ _. zero_point) c)
      some (record b { masses = masses; centroids = centroids })

    unfoldable pub mass_stage : BufferMap E → Option (BufferMap E)
    mass_stage b = do
      l ← get_vector b.labels mu
      m ← get_vector b.masses mu
      v ← set_vector b.masses mu (K.mass_update l m)
      some (record b { masses = v })

    unfoldable pub centroid_stage : BufferMap E → Option (BufferMap E)
    centroid_stage b = do
      p ← get_vector b.points cu
      c ← get_vector b.centroids cu
      l ← get_vector b.labels cu
      m ← get_vector b.masses cu
      v ← set_vector b.centroids cu (K.divide (K.centroid_update p c l m) m)
      some (record b { centroids = v })

    -- The body of the loop.
    unfoldable pub three_stages : (iterations : ℕ) → BufferMap E → Option (BufferMap E)
    unfolding sync_centroids label_stage fill_stage sync_labels mass_stage sync_masses
        centroid_stage
    three_stages iterations b = do
      b₁ ← sync_centroids E b
      b₂ ← label_stage b₁
      b₃ ← fill_stage b₂
      b₄ ← sync_labels E b₃
      b₅ ← mass_stage b₄
      b₆ ← sync_masses E b₅
      centroid_stage b₆

    -- `centroids_initializer`, which gives the new centroids where it is callable.
    unfoldable pub initialize_centroids :
        Option (List Point → List Point → List Point) → BufferMap E → Option (BufferMap E)
    initialize_centroids none b = some b
    initialize_centroids (some centroids_initializer) b = do
      p ← get_vector b.points ll
      c ← get_vector b.centroids ll
      v ← set_vector b.centroids ll (centroids_initializer p c)
      some (record b { centroids = v })

    -- Before the loop; `b` is what an earlier run left.
    unfoldable pub set_up :
        (queue : Phase → ℕ)
        → (num_features num_points num_clusters : ℕ) → Option (List Point → List Point → List Point)
        → Host
        → BufferMap E
        → Option (BufferMap E)
    unfolding set_queues set_parameters set_points_buffer set_centroids_buffer set_labels_buffer
        set_masses_buffer initialize_centroids
    set_up queue num_features num_points num_clusters initializer host b = do
      b₁ ←
          set_points_buffer E host.host_points
            (set_parameters E num_features num_points num_clusters (set_queues E queue b))
      b₂ ← set_centroids_buffer E host.host_centroids b₁
      initialize_centroids initializer (set_masses_buffer E (set_labels_buffer E b₂))

    -- After the loop.
    unfoldable pub copy_back : Host → BufferMap E → Option Host
    unfolding get_centroids get_labels get_masses
    copy_back host b = do
      centroids ← get_centroids E host.host_centroids b
      labels ← get_labels E host.host_labels b
      masses ← get_masses E host.host_masses b
      some (record host { host_centroids = centroids; host_labels = labels; host_masses = masses })

    unfoldable pub run_three_stage :
        (queue : Phase → ℕ)
        → (num_features num_points num_clusters max_iterations : ℕ)
        → Option (List Point → List Point → List Point)
        → Host
        → BufferMap E
        → Option Host
    unfolding set_up three_stages copy_back for_uint32
    run_three_stage queue num_features num_points num_clusters max_iterations initializer host b =
        do
          ready ← set_up queue num_features num_points num_clusters initializer host b
          done ← for_uint32 max_iterations 0 max_iterations three_stages ready
          copy_back host done

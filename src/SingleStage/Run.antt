-- ===== src/SingleStage/Run.antt =====
-- `KmeansSingleStage::run` (kmeans_single_stage.hpp), which has one queue.
use cl_kmeans.Prelude.{ℕ, List, Option, none, some, map, ◌>>=◌, for_uint32}
use cl_kmeans.ThreeStage.BufferMap.{Elements}
use cl_kmeans.ThreeStage.Run.{Host}
use cl_kmeans.SingleStage.BufferManager.{
  BufferManager, set_parameters, set_points_buffer, set_centroids_buffer, set_new_centroids_buffer,
  set_labels_buffer, set_masses_buffer, get_centroids, get_labels, get_masses,
}

module _ (E : Elements) where
  open E use {Point, Label, Mass, zero_point, zero_mass}

  -- What the kernels compute: the new centroids, labels and masses, and the rows of the new
  -- centroids divided by the masses.
  pub record FusedKernels : Type 0 where
    pub fused :
        (points centroids new_centroids : List Point)
        → List Label
        → List Mass
        → List Point × List Label × List Mass
    pub divide : (new_centroids : List Point) → List Mass → List Point

  module _ (G : FusedKernels) where
    -- The body of the loop; the vectors of the centroids change places at its end.
    unfoldable pub fused_stage : (iteration : ℕ) → BufferManager E → Option (BufferManager E)
    fused_stage iteration b = do
      m ← b.masses
      c' ← b.new_centroids
      p ← b.points
      c ← b.centroids
      l ← b.labels
      let (sums, labels, masses) = G.fused p c (map (λ _. zero_point) c') l (map (λ _. zero_mass) m)
      some (record b {
        centroids = some (G.divide sums masses);
        new_centroids = some c;
        labels = some labels;
        masses = some masses;
      })

    unfoldable pub initialize_centroids :
        Option (List Point → List Point → List Point) → BufferManager E → Option (BufferManager E)
    initialize_centroids none b = some b
    initialize_centroids (some centroids_initializer) b = do
      p ← b.points
      c ← b.centroids
      some (record b { centroids = some (centroids_initializer p c) })

    -- Before the loop; `b` is what an earlier run left.
    unfoldable pub set_up :
        (num_features num_points num_clusters : ℕ)
        → Option (List Point → List Point → List Point)
        → Host E
        → BufferManager E
        → Option (BufferManager E)
    unfolding set_parameters set_points_buffer set_centroids_buffer set_new_centroids_buffer
        set_labels_buffer set_masses_buffer initialize_centroids
    set_up num_features num_points num_clusters initializer host b = do
      b₁ ←
          set_points_buffer E host.host_points
            (set_parameters E num_features num_points num_clusters b)
      b₂ ← set_centroids_buffer E host.host_centroids b₁
      initialize_centroids initializer
          (set_masses_buffer E (set_labels_buffer E (set_new_centroids_buffer E b₂)))

    -- After the loop.
    unfoldable pub copy_back : Host E → BufferManager E → Option (Host E)
    unfolding get_centroids get_labels get_masses
    copy_back host b = do
      centroids ← get_centroids E host.host_centroids b
      labels ← get_labels E host.host_labels b
      masses ← get_masses E host.host_masses b
      some (record host { host_centroids = centroids; host_labels = labels; host_masses = masses })

    unfoldable pub run_single_stage :
        (num_features num_points num_clusters max_iterations : ℕ)
        → Option (List Point → List Point → List Point)
        → Host E
        → BufferManager E
        → Option (Host E)
    unfolding set_up fused_stage copy_back for_uint32
    run_single_stage num_features num_points num_clusters max_iterations initializer host b = do
      ready ← set_up num_features num_points num_clusters initializer host b
      done ← for_uint32 max_iterations 0 max_iterations fused_stage ready
      copy_back host done

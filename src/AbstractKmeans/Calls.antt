-- ===== src/AbstractKmeans/Calls.antt =====
-- Calls of a driver by `operator()`.
use native.Mathlib.Nat.{mul-div_cancel}
use cl_kmeans.Prelude.{
  ℕ, ◌*◌, ◌/◌, ◌^◌, ◌<◌, List, some, length, ◌≢◌, ◌≡◌, ◌∙◌, refl, ap, beq_ne, arith,
}
use cl_kmeans.ThreeStage.BufferMap.{Elements}
use cl_kmeans.ThreeStage.Run.{Host}
use cl_kmeans.ThreeStage.Lloyd.{Working}
use cl_kmeans.ThreeStage.OneQueue.{KeepsCentroids}
use cl_kmeans.SingleStage.BufferManager.{BufferManager}
use cl_kmeans.SingleStage.Run.{FusedKernels, run_single_stage}
use cl_kmeans.SingleStage.Stages.{KeepsLengths, fused_rounds}
use cl_kmeans.SingleStage.SameResult.{first, run_single_stage-fused_rounds}
use cl_kmeans.AbstractKmeans.State.{AbstractKmeans, operator_call, run_on_members}

module _ (E : Elements) (G : FusedKernels E) (keeps : KeepsLengths E G)
    (uninitialised_length : (n : ℕ) → length (E.uninitialised n) ≡ n) where
  open E use {Point, Label, Mass}

  -- For the single-stage driver, with kernels, an initializer and new vectors as in
  -- run_single_stage-fused_rounds, a positive number of features, c * num_features values of
  -- centroids, a label for each num_features values of points, c masses and max_iterations below
  -- 2^32: operator() works out the numbers of points and clusters and returns, and the host's
  -- centroids, labels and masses are then those of max_iterations rounds on one set of vectors;
  -- the points and the initializer are as given.
  pub operator_call-run_single_stage :
      (n f c : ℕ) (points centroids : List Point) (masses : List Mass) (labels : List Label)
      (k : AbstractKmeans E) (b : BufferManager E)
      → n < 2 ^ 32
      → KeepsCentroids k.centroids_initializer
      → f ≢ 0
      → length centroids ≡ c * f
      → length labels ≡ length points / f
      → length masses ≡ c
      → operator_call E
          (run_on_members E
            (λ F N C m initializer host. run_single_stage E G F N C m initializer host b))
          n
          f
          points
          centroids
          masses
          labels
          k
        ≡ (let host : Host E = record {
          host_points = points;
          host_centroids = centroids;
          host_labels = labels;
          host_masses = masses;
        } in
            let v : Working E = fused_rounds E G n points (
              first E G keeps uninitialised_length k.centroids_initializer
                (length points / f)
                c
                b.labels
                host) in
            some (record {
              max_iterations = some n;
              num_features = f;
              num_points = length points / f;
              num_clusters = c;
              host_points = some points;
              host_centroids = some v.centroids;
              host_masses = some v.masses;
              host_labels = some v.labels;
              centroids_initializer = k.centroids_initializer;
            }))
  unfolding operator_call run_on_members
  operator_call-run_single_stage n f c points centroids masses labels k b bound hi pos hc hl hm =
      let clusters : length centroids / f ≡ c =
        ap (λ x. x / f) hc ∙ mul-div_cancel c (omega (arith, pos)) in
      rw
        (
          beq_ne pos,
          clusters,
          run_single_stage-fused_rounds E G keeps uninitialised_length f (length points / f) c n
              k.centroids_initializer
              (record {
                host_points = points;
                host_centroids = centroids;
                host_labels = labels;
                host_masses = masses;
              })
              b bound hi hc hl hm,
        )
        refl

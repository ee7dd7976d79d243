-- ===== src/AbstractKmeans/Tests.antt =====
-- Instances of the theorems on calls of a driver.
use cl_kmeans.Prelude.{[], ◌∷◌, some, ◌≡◌, refl, length-replicate, arith, Gives}
use cl_kmeans.ThreeStage.Sample.{numbers, first_points, first_points-KeepsCentroids, clustered}
use cl_kmeans.SingleStage.Run.{run_single_stage}
use cl_kmeans.SingleStage.Stages.{fused_step, fused_rounds}
use cl_kmeans.SingleStage.Sample.{fused_kernels, fused_kernels-KeepsLengths, left}
use cl_kmeans.AbstractKmeans.State.{new_kmeans, operator_call, run_on_members}
use cl_kmeans.AbstractKmeans.Calls.{operator_call-run_single_stage}
use cl_kmeans.AbstractKmeans.Setters.{points, features, set_all, InStep, set_all-new_kmeans}

-- Six values of two features, then nine of three.
set_all-new_kmeans_example : Gives (InStep numbers (1 ∷ 2 ∷ 3 ∷ 4 ∷ 5 ∷ 6 ∷ 7 ∷ 8 ∷ 9 ∷ []) 3) (
    set_all numbers
      (points (1 ∷ 2 ∷ 3 ∷ 4 ∷ 5 ∷ 6 ∷ [])
        ∷ features 2
        ∷ points (1 ∷ 2 ∷ 3 ∷ 4 ∷ 5 ∷ 6 ∷ 7 ∷ 8 ∷ 9 ∷ [])
        ∷ features 3
        ∷ [])
      (new_kmeans numbers))
set_all-new_kmeans_example =
    set_all-new_kmeans numbers (1 ∷ 2 ∷ 3 ∷ 4 ∷ 5 ∷ 6 ∷ [])
      (features 2 ∷ points (1 ∷ 2 ∷ 3 ∷ 4 ∷ 5 ∷ 6 ∷ 7 ∷ 8 ∷ 9 ∷ []) ∷ features 3 ∷ [])
      ((λ h. absurd (omega (arith, h))), ((λ h. absurd (omega (arith, h))), tt))

operator_call-run_single_stage_example :
    operator_call numbers
      (run_on_members numbers (λ F N C m initializer host.
        run_single_stage numbers fused_kernels F N C m initializer host left))
      3
      1
      (1 ∷ 3 ∷ 11 ∷ 13 ∷ [])
      (0 ∷ 4 ∷ [])
      (0 ∷ 0 ∷ [])
      (0 ∷ 0 ∷ 0 ∷ 0 ∷ [])
      (record (new_kmeans numbers) { centroids_initializer = some first_points })
    ≡ some (record {
      max_iterations = some 3;
      num_features = 1;
      num_points = 4;
      num_clusters = 2;
      host_points = some clustered.host_points;
      host_centroids = some clustered.host_centroids;
      host_masses = some clustered.host_masses;
      host_labels = some clustered.host_labels;
      centroids_initializer = some first_points;
    })
unfolding fused_rounds fused_step
operator_call-run_single_stage_example =
    operator_call-run_single_stage numbers fused_kernels fused_kernels-KeepsLengths
      (λ n. length-replicate n 99) 3 1 2 (1 ∷ 3 ∷ 11 ∷ 13 ∷ []) (0 ∷ 4 ∷ []) (0 ∷ 0 ∷ [])
      (0 ∷ 0 ∷ 0 ∷ 0 ∷ [])
      (record (new_kmeans numbers) { centroids_initializer = some first_points }) left (omega arith)
      first_points-KeepsCentroids (λ h. absurd (omega (arith, h))) refl refl refl

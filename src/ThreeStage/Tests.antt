-- ===== src/ThreeStage/Tests.antt =====
-- Instances of the theorems on the three-stage driver: four points of one feature, two clusters.
use cl_kmeans.Prelude.{◌≡◌, refl, some, length-replicate, arith}
use cl_kmeans.ThreeStage.Run.{run_three_stage}
use cl_kmeans.ThreeStage.Lloyd.{lloyd, lloyd_step}
use cl_kmeans.ThreeStage.OneQueue.{run_three_stage-lloyd}
use cl_kmeans.ThreeStage.Sample.{
  numbers, kernels, kernels-KeepsLengths, host, buffers, first_points, first_points-KeepsCentroids,
  clustered,
}

run_three_stage-lloyd_example :
    run_three_stage numbers kernels (λ p. 5) 1 4 2 3 (some first_points) host buffers
    ≡ some clustered
unfolding lloyd lloyd_step
run_three_stage-lloyd_example =
    run_three_stage-lloyd numbers kernels kernels-KeepsLengths (λ n. length-replicate n 99) (λ p. 5)
      1 4 2 3 (some first_points) host buffers (λ p q. refl) (omega arith)
      first_points-KeepsCentroids refl refl refl

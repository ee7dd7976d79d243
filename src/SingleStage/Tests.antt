-- ===== src/SingleStage/Tests.antt =====
-- Instances of the theorems on the single-stage driver.
use cl_kmeans.Prelude.{none, some, ◌≡◌, refl, length-replicate, arith}
use cl_kmeans.ThreeStage.OneQueue.{KeepsCentroids}
use cl_kmeans.ThreeStage.Sample.{numbers, host, clustered}
use cl_kmeans.SingleStage.Run.{run_single_stage}
use cl_kmeans.SingleStage.Stages.{fused_step, fused_rounds}
use cl_kmeans.SingleStage.SameResult.{run_single_stage-fused_rounds}
use cl_kmeans.SingleStage.Sample.{fused_kernels, fused_kernels-KeepsLengths, left}

run_single_stage-fused_rounds_example :
    run_single_stage numbers fused_kernels 1 4 2 3 none host left ≡ some clustered
unfolding fused_rounds fused_step KeepsCentroids
run_single_stage-fused_rounds_example =
    run_single_stage-fused_rounds numbers fused_kernels fused_kernels-KeepsLengths
      (λ n. length-replicate n 99) 1 4 2 3 none host left (omega arith) (λ p c. refl) refl refl refl

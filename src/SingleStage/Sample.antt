-- ===== src/SingleStage/Sample.antt =====
-- A fused kernel on natural numbers, and what an earlier run left.
use cl_kmeans.Prelude.{[], ◌∷◌, none, some}
use cl_kmeans.ThreeStage.Sample.{
  numbers, label_all, add_sums, divide_all, kernels, kernels-KeepsLengths,
}
use cl_kmeans.SingleStage.BufferManager.{BufferManager}
use cl_kmeans.SingleStage.Run.{FusedKernels}
use cl_kmeans.SingleStage.Stages.{KeepsLengths}

abbrev pub fused_kernels : FusedKernels numbers
fused_kernels = record {
  fused = λ p c c' l m.
      let labels = label_all p c l in
      (add_sums 0 labels p c', labels, kernels.mass_update labels m);
  divide = divide_all;
}

pub fused_kernels-KeepsLengths : KeepsLengths numbers fused_kernels
fused_kernels-KeepsLengths = record {
  fused = λ p c c' l m. (
    kernels-KeepsLengths.centroid_update p c' (label_all p c l) m,
    kernels-KeepsLengths.labeling p c l,
    kernels-KeepsLengths.mass_update (label_all p c l) m,
  );
  divide = kernels-KeepsLengths.divide;
}

-- No vectors but the labels of an earlier run.
abbrev pub left : BufferManager numbers
left = record {
  num_features = 0;
  num_points = 0;
  num_clusters = 0;
  points = none;
  centroids = none;
  new_centroids = none;
  labels = some (1 ∷ 1 ∷ 0 ∷ 0 ∷ []);
  masses = none;
}

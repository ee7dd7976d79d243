-- ===== src/Driver/Calls.antt =====
-- The functions that one iteration of the buffered three-stage driver calls.
use native.Mathlib.Nat.{mul-le-mul_left, mul_assoc}
use cl_kmeans.Prelude.{
  ℕ, zero, suc, ◌+◌, ◌*◌, ◌/◌, ◌^◌, ◌≤◌, ◌<◌, false, List, [], ◌∷◌, some, ◌≡◌, ◌≢◌, refl, ◌∙◌, ap,
  sym, arith, ◌==◌, if◌then◌else◌,
}
use cl_kmeans.Scheduler.State.{BufferCache, unary, binary}
use cl_kmeans.Scheduler.Runnables.{num_steps}
use cl_kmeans.Scheduler.Parts.{part_length, IsCut}
use cl_kmeans.Scheduler.Contract.{Contract}
use cl_kmeans.Scheduler.Activation.{Fits}
use cl_kmeans.Scheduler.Launches.{Call, Ready, Job}
use cl_kmeans.Scheduler.Rounds.{expected}
use cl_kmeans.Driver.Buffered.{buffer_size, labeling, mass_update, centroid_update, Settings}
use cl_kmeans.Driver.Sizes.{num_steps-scaled, part_length-scaled}

-- The calls for the parts from `index` on, where part `index` has `length_of index` bytes of labels,
-- from `step * index` on.
unfoldable pub part_calls :
    (num_features step : ℕ) → (length_of : ℕ → ℕ) → (index m : ℕ) → List Call
part_calls num_features step length_of index zero = []
part_calls num_features step length_of index (suc m) =
    (
      labeling,
      num_features * (step * index) ∷ step * index ∷ [],
      num_features * length_of index ∷ length_of index ∷ [],
    )
    ∷ (mass_update, step * index ∷ [], length_of index ∷ [])
    ∷ (
      centroid_update,
      num_features * (step * index) ∷ step * index ∷ [],
      num_features * length_of index ∷ length_of index ∷ [],
    )
    ∷ part_calls num_features step length_of (suc index) m

-- The driver's two objects, whose labels are cut into `n` parts: each buffer holds the features of
-- as many points as labels.
pub record Sized (s : Settings) (extent : ℕ → ℕ × ℕ) (num_labels n : ℕ) : Type 0 where
  pub apart : s.points_handle ≢ s.labels_handle
  pub some_feature : 0 < s.num_features
  pub divided : s.num_features * (buffer_size / s.num_features) ≡ buffer_size
  pub some_label : 0 < num_labels
  pub labels : (extent s.labels_handle).1 ≡ 4 * num_labels
  pub points : (extent s.points_handle).1 ≡ s.num_features * (4 * num_labels)
  pub narrow : s.num_features * (4 * num_labels) + buffer_size ≤ 2 ^ 64
  pub parts : num_steps (4 * num_labels) (buffer_size / s.num_features) ≡ some n
  pub few : n < 2 ^ 32

module _ (s : Settings) (extent : ℕ → ℕ × ℕ) (num_labels n : ℕ)
    (sized : Sized s extent num_labels n) where
  abbrev pub step : ℕ
  step = buffer_size / s.num_features

  abbrev pub step_of : ℕ → ℕ
  step_of oid = if oid == s.points_handle then buffer_size else step

  abbrev pub jobs : (d : ℕ) → List Job
  jobs d =
      (labeling, binary s.points_handle s.labels_handle buffer_size step, some d)
      ∷ (mass_update, unary s.labels_handle step, some (d + 1))
      ∷ (centroid_update, binary s.points_handle s.labels_handle buffer_size step, some (d + 2))
      ∷ []

  abbrev pub calls : List Call
  calls = part_calls s.num_features step (part_length (4 * num_labels) step) 0 n

  step_positive : 0 < step
  step_positive = grind (arith, sized.divided)

  step_of-points : step_of s.points_handle ≡ buffer_size
  step_of-points = ground arith

  step_of-labels : step_of s.labels_handle ≡ step
  step_of-labels =
      let different : (s.labels_handle == s.points_handle) ≡ false = ground (arith, sized.apart) in
      rw different refl

  labels_length :
      (index : ℕ)
      → part_length (extent s.labels_handle).1 (step_of s.labels_handle) index
        ≡ part_length (4 * num_labels) step index
  labels_length index =
      ap (λ z. part_length z (step_of s.labels_handle) index) sized.labels
      ∙ ap (λ z. part_length (4 * num_labels) z index) step_of-labels

  points_length :
      (index : ℕ)
      → part_length (extent s.points_handle).1 (step_of s.points_handle) index
        ≡ s.num_features * part_length (4 * num_labels) step index
  points_length index =
      ap (λ z. part_length z (step_of s.points_handle) index) sized.points
      ∙ ap (λ z. part_length (s.num_features * (4 * num_labels)) z index)
          (step_of-points ∙ sym sized.divided)
      ∙ part_length-scaled s.num_features (4 * num_labels) step index sized.some_feature

  labels_begin : (index : ℕ) → step_of s.labels_handle * index ≡ step * index
  labels_begin index = ap (λ z. z * index) step_of-labels

  points_begin : (index : ℕ) → step_of s.points_handle * index ≡ s.num_features * (step * index)
  points_begin index =
      ap (λ z. z * index) (step_of-points ∙ sym sized.divided) ∙ mul_assoc s.num_features step index

  labels_cut : IsCut (extent s.labels_handle).1 step
  labels_cut = record {
    not_empty = omega (arith, sized.labels, sized.some_label);
    step_positive = step_positive;
    narrow = grind (
      arith,
      sized.labels,
      sized.narrow,
      sized.divided,
      mul-le-mul_left (4 * num_labels) sized.some_feature,
      mul-le-mul_left step sized.some_feature,
    );
  }

  points_cut : IsCut (extent s.points_handle).1 buffer_size
  points_cut = record {
    not_empty = grind (
      arith,
      sized.points,
      sized.some_label,
      mul-le-mul_left (4 * num_labels) sized.some_feature,
    );
    step_positive = omega arith;
    narrow = omega (arith, sized.points, sized.narrow);
  }

  points_parts : num_steps (extent s.points_handle).1 buffer_size ≡ some n
  points_parts =
      ap (λ z. num_steps z buffer_size) sized.points
      ∙ ap (num_steps (s.num_features * (4 * num_labels))) (sym sized.divided)
      ∙ num_steps-scaled s.num_features (4 * num_labels) step n sized.some_feature step_positive
          (omega (arith, sized.some_label)) (omega (arith, sized.narrow, sized.divided)) sized.parts

  module _ (B : BufferCache) (K : Contract B) where
    pub jobs_Ready : (d : ℕ) → Ready B K extent step_of n (jobs d)
    jobs_Ready d =
        ((_, refl), (points, labels), ((_, refl), labels, ((_, refl), (points, labels), tt)))
      where
        points : Fits B K extent step_of n s.points_handle buffer_size
        points = record { agrees = sym step_of-points; cut = points_cut; parts = points_parts }

        labels : Fits B K extent step_of n s.labels_handle step
        labels = record {
          agrees = sym step_of-labels;
          cut = labels_cut;
          parts = ap (λ z. num_steps z step) sized.labels ∙ sized.parts;
        }

    pub calls_lem :
        (d index m : ℕ)
        → expected B K extent step_of n (jobs d) (jobs_Ready d) index m
          ≡ part_calls s.num_features step (part_length (4 * num_labels) step) index m
    unfolding part_calls
    calls_lem d index zero = refl
    calls_lem d index (suc m) =
        rw
          (
            points_length index,
            labels_length index,
            points_begin index,
            labels_begin index,
            calls_lem d (suc index) m,
          )
          refl

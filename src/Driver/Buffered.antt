-- ===== src/Driver/Buffered.antt =====
-- The loop of `KmeansThreeStageBuffered::run` (kmeans_three_stage_buffered.hpp).
use cl_kmeans.Prelude.{
  ℕ, zero, suc, ◌+◌, ◌*◌, ◌/◌, ◌%◌, ◌^◌, ltb, List, [], ◌∷◌, ◌++◌, map, Option, none, some, ℤ, pos,
  negsuc, ◌==◌, if◌then◌else◌, ◌>>=◌,
}
use cl_kmeans.Cache.State.{Event}
use cl_kmeans.Scheduler.State.{BufferCache, Launch, Scheduler, Arguments, unary, binary}
use cl_kmeans.Scheduler.Run.{enqueue}
use cl_kmeans.Scheduler.Run
use cl_kmeans.Scheduler.Launches.{Call, call}

abbrev pub buffer_size : ℕ
buffer_size = 16 * 1024 * 1024

-- The numbers of the functions that the driver enqueues.
abbrev pub labeling : ℕ
labeling = 0

abbrev pub mass_update : ℕ
mass_update = 1

abbrev pub centroid_update : ℕ
centroid_update = 2

-- What is fixed before the loop.
pub record Settings : Type 0 where
  pub num_features : ℕ
  pub points_handle : ℕ
  pub labels_handle : ℕ
  pub max_iterations : ℕ

-- What the loop does on the device: it sets the masses or the new centroids to 0, calls the
-- functions, divides the new centroids by the masses, and swaps them with the old ones.
pub data Step : Type 0 where
  fills_masses : Step
  fills_centroids : Step
  processes : List Call → Step
  divides : Step
  swaps : Step

-- A failed assertion aborts the program.
pub data Ending (S : Type 0) : Type 0 where
  aborted : Ending S
  completed : S → Ending S

abbrev pub asserted : ℤ → {S : Type 0} → Option (Ending S) → Option (Ending S)
asserted (pos n) rest = if n == 1 then rest else some aborted
asserted (negsuc n) rest = some aborted

module _ (B : BufferCache) (kernel_event : List Launch → Launch → Event) where
  -- `datapoints` is the number of data points in the measurement.
  pub record Drive : Type 0 where
    pub scheduler : Scheduler
    pub cache : B.State
    pub datapoints : ℕ
    pub steps : List Step
    pub iterations : ℕ

  module _ (s : Settings) where
    abbrev pub label_step : ℕ
    label_step = buffer_size / s.num_features

    abbrev pub both : Arguments
    both = binary s.points_handle s.labels_handle buffer_size label_step

    -- After `scheduler.run`.
    unfoldable pub end_iteration : Drive → Run.Report B → Option (Ending Drive)
    end_iteration d report = asserted report.code (
        some (
          completed (record {
            scheduler = report.scheduler;
            cache = report.cache;
            datapoints = d.datapoints + 4;
            steps =
                d.steps
                ++ (fills_masses
                    ∷ fills_centroids
                    ∷ processes (map call report.launches)
                    ∷ divides
                    ∷ swaps
                    ∷ []);
            iterations = (d.iterations + 1) % 2 ^ 32;
          })))

    unfoldable pub enqueue_labeling : Scheduler → (datapoint : ℕ) → ℤ × Scheduler
    enqueue_labeling scheduler datapoint = enqueue scheduler labeling both datapoint

    unfoldable pub enqueue_mass_update : Scheduler → (datapoint : ℕ) → ℤ × Scheduler
    enqueue_mass_update scheduler datapoint =
        enqueue scheduler mass_update (unary s.labels_handle label_step) datapoint

    unfoldable pub enqueue_centroid_update : Scheduler → (datapoint : ℕ) → ℤ × Scheduler
    enqueue_centroid_update scheduler datapoint = enqueue scheduler centroid_update both datapoint

    -- The body of the loop. A division by no features is undefined.
    unfoldable pub iteration : Drive → Option (Ending Drive)
    iteration d =
        let (ret, s1) = enqueue_labeling d.scheduler d.datapoints in
        let (ret', s2) = enqueue_mass_update s1 (d.datapoints + 1) in
        let (ret'', s3) = enqueue_centroid_update s2 (d.datapoints + 2) in
        if s.num_features == 0
        then none
        else asserted ret (
            asserted ret' (
              asserted ret''
                (do report ← Run.run B kernel_event s3 d.cache; end_iteration d report)))

    -- The loop, for at most `fuel` iterations; `none` is also a loop that needs more. The counter is
    -- a `uint32_t`, and `max_iterations` a `size_t`.
    unfoldable pub iterate : (fuel : ℕ) → Drive → Option (Ending Drive)
    iterate zero d = if ltb d.iterations s.max_iterations then none else some (completed d)
    iterate (suc fuel) d =
        let rest = (do
          r ← iteration d
          elim r [ aborted ↦ some aborted | completed d' ↦ iterate fuel d' ]) in
        if ltb d.iterations s.max_iterations then rest else some (completed d)

    unfoldable pub main_loop : Scheduler → B.State → (datapoints : ℕ) → Option (Ending Drive)
    main_loop scheduler cache datapoints = iterate s.max_iterations (record {
      scheduler = scheduler;
      cache = cache;
      datapoints = datapoints;
      steps = [];
      iterations = 0;
    })

-- ===== src/Measurement/Files.antt =====
-- The rows of the three files of `write_csv`, and `get_execution_times_by_name`: measurement.hpp and
-- measurement.cpp.
use Prim.Native.String.{String}
use cl_kmeans.Prelude.{
  ℕ, zero, suc, ◌+◌, ◌-◌, ◌%◌, ◌^◌, Bool, List, [], ◌∷◌, ◌++◌, map, Option, some, ℤ, if◌then◌else◌,
  ◌>>=◌,
}
use cl_kmeans.Measurement.Points.{
  queued, submit, start, end, OpenCl, DataPoint, fields, num_events, get_value, get_event,
  get_event_queue_id,
}
use cl_kmeans.Measurement.Series.{Measurement, get_flattened_datapoints, get_datapoints_with_events}

-- What `<<` prints between two commas.
pub data Cell : Type 0 where
  text : String → Cell
  number : ℕ → Cell
  integer : ℤ → Cell
  blank : Cell

abbrev pub Row : Type 0
Row = List Cell

-- A loop that pushes a result for each element.
abbrev pub for_each {ℓ κ} : {A : Type ℓ} {B : Type κ} → (A → Option B) → List A → Option (List B)
for_each f [] = some []
for_each f (x ∷ xs) = do y ← f x; ys ← for_each f xs; some (y ∷ ys)

-- `for (i = index; i < index + n; ++i)` that pushes a result for each `i`.
abbrev pub for_indices {ℓ} : {B : Type ℓ} → (ℕ → Option B) → (index n : ℕ) → Option (List B)
for_indices f index zero = some []
for_indices f index (suc n) = do y ← f index; ys ← for_indices f (suc index) n; some (y ∷ ys)

abbrev pub concat {ℓ} : {A : Type ℓ} → List (List A) → List A
concat [] = []
concat (xs ∷ xss) = xs ++ concat xss

unfoldable pub experiment_rows : (experiment_id : String) → Measurement → List Row
experiment_rows experiment_id m =
    (text "ExperimentID" ∷ text "ParameterName" ∷ text "Value" ∷ [])
    ∷ map (λ p. text experiment_id ∷ text p.0 ∷ text p.1 ∷ []) m.parameters

abbrev pub iteration_cell : DataPoint → Option Cell
iteration_cell dp =
    if (fields dp).iterative then (do i ← (fields dp).iteration; some (integer i)) else some blank

unfoldable pub measurement_row :
    (cl : OpenCl) → (experiment_id : String) → Measurement → DataPoint → Option Row
measurement_row cl experiment_id m dp = do
  run ← m.run
  iteration ← iteration_cell dp
  value ← get_value cl dp
  some (text experiment_id ∷ integer run ∷ text (fields dp).name ∷ iteration ∷ number value ∷ [])

unfoldable pub measurement_rows :
    (cl : OpenCl) → (experiment_id : String) → Measurement → Option (List Row)
measurement_rows cl experiment_id m = do
  points ← get_flattened_datapoints cl m.data_points
  rows ← for_each (measurement_row cl experiment_id m) points
  some (
      (text "ExperimentID" ∷ text "Run" ∷ text "TypeName" ∷ text "Iteration" ∷ text "Value" ∷ [])
      ∷ rows)

unfoldable pub event_row :
    (cl : OpenCl) → (experiment_id : String) → Measurement → DataPoint → ℕ → Option Row
event_row cl experiment_id m dp i = do
  run ← m.run
  iteration ← iteration_cell dp
  queue_id ← get_event_queue_id cl dp i
  queued_at ← get_event cl queued dp i
  submit_at ← get_event cl submit dp i
  start_at ← get_event cl start dp i
  end_at ← get_event cl end dp i
  some (
      text experiment_id
      ∷ integer run
      ∷ text (fields dp).name
      ∷ iteration
      ∷ number queue_id
      ∷ number queued_at
      ∷ number submit_at
      ∷ number start_at
      ∷ number end_at
      ∷ [])

unfoldable pub event_rows :
    (cl : OpenCl) → (experiment_id : String) → Measurement → Option (List Row)
event_rows cl experiment_id m = do
  points ← get_datapoints_with_events m.data_points
  rows ← for_each (λ dp. for_indices (event_row cl experiment_id m dp) 0 (num_events dp)) points
  some (
      (text "ExperimentID"
        ∷ text "Run"
        ∷ text "TypeName"
        ∷ text "Iteration"
        ∷ text "CommandQueueID"
        ∷ text "Queued"
        ∷ text "Submit"
        ∷ text "Start"
        ∷ text "End"
        ∷ [])
      ∷ concat rows)

-- The contents of the three files.
unfoldable pub write_csv :
    (cl : OpenCl) → (experiment_id : String) → Measurement → Option (List Row × List Row × List Row)
write_csv cl experiment_id m = do
  measurements ← measurement_rows cl experiment_id m
  events ← event_rows cl experiment_id m
  some (experiment_rows experiment_id m, measurements, events)

-- One entry of `get_execution_times_by_name`, `cast` being the conversion of nanoseconds to the unit.
unfoldable pub execution_time : (cl : OpenCl) → (cast : ℕ → ℕ) → DataPoint → ℕ → Option (String × ℕ)
execution_time cl cast dp i = do
  end_at ← get_event cl end dp i
  start_at ← get_event cl start dp i
  some ((fields dp).name, cast ((end_at + 2 ^ 64 - start_at) % 2 ^ 64))

-- `matches` is the test of a name by the regular expression.
unfoldable pub get_execution_times_by_name :
    (cl : OpenCl)
    → (cast : ℕ → ℕ) → (matches : String → Bool) → Measurement
    → Option (List (String × ℕ))
get_execution_times_by_name cl cast matches m = do
  datapoints ← get_datapoints_with_events m.data_points
  times ←
      for_each
        (λ dp.
          let times_of = for_indices (execution_time cl cast dp) 0 (num_events dp) in
          if matches (fields dp).name then times_of else some [])
        datapoints
  some (concat times)

-- ===== src/Measurement/Series.antt =====
-- The class `Measurement` of measurement.hpp and measurement.cpp: the data points, the parameters,
-- and the rows of the three files that `write_csv` writes.
use Prim.Native.String.{String, ◌++◌ as ◌<>◌}
use cl_kmeans.Prelude.{
  ℕ, zero, suc, ◌+◌, Bool, List, [], ◌∷◌, ◌++◌, Option, none, some, ℤ, ltb, if◌then◌else◌, ◌>>=◌,
}
use cl_kmeans.Measurement.Points.{
  OpenCl, Fields, DataPoint, data_point, Children, nil, cons, children, new_point, new_iterative,
  set_name, add_value, num_events, add_children,
}

-- The run is unset until `set_run`. The parameters are those of the map in the order of its keys.
pub record Measurement : Type 0 where
  pub run : Option ℤ
  pub data_points : List DataPoint
  pub parameters : List (String × String)

abbrev pub set_run : Measurement → ℤ → Measurement
set_run m run = record m { run = some run }

-- With what the caller makes of the point through the reference.
abbrev pub add_datapoint : Measurement → (DataPoint → DataPoint) → Measurement
add_datapoint m make = record m { data_points = m.data_points ++ make new_point ∷ [] }

abbrev pub add_iterative_datapoint : Measurement → ℤ → (DataPoint → DataPoint) → Measurement
add_iterative_datapoint m i make = record m {
  data_points = m.data_points ++ make (new_iterative i) ∷ [];
}

-- `parameters_[name] = value`, for the order of the keys.
unfoldable pub insert :
    (less : String → String → Bool)
    → List (String × String)
    → String
    → String
    → List (String × String)
insert less [] name value = (name, value) ∷ []
insert less (p ∷ ps) name value =
    let rest = insert less ps name value in
    if less name p.0
    then (name, value) ∷ p ∷ ps
    else if less p.0 name
    then p ∷ rest
    else (p.0, value) ∷ ps

unfoldable pub set_parameter :
    (less : String → String → Bool) → Measurement → String → String → Measurement
set_parameter less m name value = record m { parameters = insert less m.parameters name value }

-- The constructor; `run_date` is its date and time as `get_datetime` prints it.
unfoldable pub measurement : (less : String → String → Bool) → (run_date : String) → Measurement
measurement less run_date =
    set_parameter less (record { run = none; data_points = []; parameters = [] }) "TimeStamp"
      run_date

abbrev pub same_iteration : Fields → Option DataPoint
same_iteration f =
    if f.iterative then (do i ← f.iteration; some (new_iterative i)) else some new_point

-- The points that `get_flattened_datapoints` puts before a point: one for its children, if any.
unfoldable pub sub_points : (cl : OpenCl) → DataPoint → Option (List DataPoint)
sub_points cl (data_point f nil) = some []
sub_points cl (data_point f (cons c cs)) = do
  cp ← same_iteration f
  child_values ← add_children cl (cons c cs) 0
  some (add_value (set_name cp (f.name <> "#Sub")) child_values ∷ [])

unfoldable pub get_flattened_datapoints : (cl : OpenCl) → List DataPoint → Option (List DataPoint)
get_flattened_datapoints cl [] = some []
get_flattened_datapoints cl (dp ∷ dps) = do
  subpoints ← sub_points cl dp
  rest ← get_flattened_datapoints cl dps
  some (subpoints ++ dp ∷ rest)

-- `stack.push_front` of each child in turn.
unfoldable pub push_children : Children → List DataPoint → List DataPoint
push_children nil stack = stack
push_children (cons c cs) stack = push_children cs (c ∷ stack)

unfoldable mutual
  pub size : DataPoint → ℕ
  size (data_point f cs) = suc (sizes cs)

  pub sizes : Children → ℕ
  sizes nil = 0
  sizes (cons c cs) = size c + sizes cs

unfoldable pub stack_size : List DataPoint → ℕ
stack_size [] = 0
stack_size (p ∷ ps) = size p + stack_size ps

-- The loop of `get_datapoints_with_events`, of at most `fuel` tests of its condition.
unfoldable pub drain : (fuel : ℕ) → (stack event_points : List DataPoint) → Option (List DataPoint)
drain zero stack event_points = none
drain (suc fuel) [] event_points = some event_points
drain (suc fuel) (dp ∷ stack) event_points =
    drain fuel (push_children (children dp) stack)
      (if ltb 0 (num_events dp) then event_points ++ dp ∷ [] else event_points)

unfoldable pub get_datapoints_with_events : List DataPoint → Option (List DataPoint)
get_datapoints_with_events dps = drain (suc (stack_size dps)) dps []

-- ===== src/Measurement/Tests.antt =====
-- Data points of a small run, and instances of the theorems on measurements.
use Prim.Native.String.{String, len}
use cl_kmeans.Prelude.{
  Gives, ℕ, ◌+◌, ◌*◌, ◌%◌, ◌^◌, Bool, true, false, [], ◌∷◌, some, pos, ◌≡◌, refl, arith, ltb, ◌>>=◌,
}
use cl_kmeans.Measurement.Points.{
  OpenCl, Stage, queued, submit, start, end, DataPoint, new_iterative, set_name, add_event,
  add_value, create_child, get_value, add_durations, add_values, num_events, get_event,
}
use cl_kmeans.Measurement.Series.{
  Measurement, add_datapoint, set_parameter, get_datapoints_with_events, drain, stack_size, size,
  push_children, get_flattened_datapoints,
}
use cl_kmeans.Measurement.Visits.{visit_all, eventful, get_datapoints_with_events_lem}
use cl_kmeans.Measurement.Totals.{points, own, durations, sum, total, get_value-total}
use cl_kmeans.Measurement.Flattened.{Flattened, get_flattened_datapoints-Flattened}
use cl_kmeans.Measurement.Files.{get_execution_times_by_name, execution_time}
use cl_kmeans.Measurement.Times.{times_of, get_execution_times_by_name-times_of}
use cl_kmeans.Measurement.Parameters.{StrictWeak, Ordered, same, lookup, set_parameter_lem}

-- Command `e` starts at 100 * e and runs for e nanoseconds.
abbrev opencl : OpenCl
opencl = record {
  wait = λ e. true;
  status = λ e. pos 0;
  duration = λ e. e;
  profiling_info = profile;
  command_queue = λ e. 1;
}
  where
    profile : Stage → ℕ → ℕ
    profile queued e = 100 * e
    profile submit e = 100 * e
    profile start e = 100 * e
    profile end e = 100 * e + e

-- A point with two events, a child with an event and a child with values.
abbrev tree : DataPoint
tree =
    create_child
      (create_child (add_event (add_event (set_name (new_iterative (pos 3)) "total") 5) 6)
        (λ c. add_event (set_name c "kernel") 7))
      (λ c. add_value (add_value (set_name c "copy") 10) 20)

abbrev series : Measurement
series =
    add_datapoint
      (add_datapoint
        (record { run = some (pos 1); data_points = []; parameters = ("k", "10") ∷ [] })
        (λ p. tree))
      (λ p. add_event (set_name p "last") 8)

get_value-total_example :
    get_value opencl tree ≡ (do t ← total opencl (points tree); some (t % 2 ^ 64))
get_value-total_example = get_value-total opencl tree

tree-value : get_value opencl tree ≡ some 48
unfolding get_value add_durations add_values
tree-value = refl

get_flattened_datapoints-Flattened_example :
    Gives (Flattened opencl series.data_points) (get_flattened_datapoints opencl series.data_points)
unfolding total own durations points sum
get_flattened_datapoints-Flattened_example =
    get_flattened_datapoints-Flattened opencl series.data_points ((37, refl), (_, refl), tt)

get_datapoints_with_events_lem_example :
    get_datapoints_with_events series.data_points ≡ some (eventful (visit_all series.data_points))
get_datapoints_with_events_lem_example = get_datapoints_with_events_lem series.data_points

abbrev anything : String → Bool
anything s = true

get_execution_times_by_name-times_of_example :
    get_execution_times_by_name opencl (λ t. t) anything series
    ≡ some (times_of opencl (λ t. t) anything (eventful (visit_all series.data_points)))
get_execution_times_by_name-times_of_example =
    get_execution_times_by_name-times_of opencl (λ t. t) (λ e. refl) anything series

series-times :
    get_execution_times_by_name opencl (λ t. t) anything series
    ≡ some (("total", 5) ∷ ("total", 6) ∷ ("kernel", 7) ∷ ("last", 8) ∷ [])
unfolding get_execution_times_by_name get_datapoints_with_events drain stack_size size push_children
    num_events execution_time get_event
series-times = refl

abbrev shorter : String → String → Bool
shorter a b = ltb (len a) (len b)

shorter-StrictWeak : StrictWeak shorter
shorter-StrictWeak = record {
  irreflexive = λ a. ground arith;
  transitive = λ a b c h k. ground (arith, h, k);
  incomparable = λ a b c h k. (ground (arith, h, k), ground (arith, h, k));
}

set_parameter_lem_example :
    Ordered shorter (set_parameter shorter series "file" "a.csv").parameters
    × (lookup shorter (set_parameter shorter series "file" "a.csv").parameters "file"
        ≡ some "a.csv")
    × ((other : String)
        → same shorter "file" other ≡ false
        → lookup shorter (set_parameter shorter series "file" "a.csv").parameters other
          ≡ lookup shorter series.parameters other)
    × ((set_parameter shorter series "file" "a.csv").data_points ≡ series.data_points)
set_parameter_lem_example =
    set_parameter_lem shorter shorter-StrictWeak series "file" "a.csv" (tt, tt)

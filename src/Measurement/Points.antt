-- ===== src/Measurement/Points.antt =====
-- Data points: the class `DataPoint` of measurement.hpp and measurement.cpp.
use Prim.Native.String.{String}
use cl_kmeans.Prelude.{
  ℕ, ◌+◌, ◌%◌, ◌^◌, Bool, true, false, not, ◌&&◌, ◌||◌, List, [], ◌∷◌, ◌++◌, Option, none, some, ℤ,
  pos, negsuc, leb, ◌==◌, if◌then◌else◌, ◌>>=◌, length, get_elem?,
}

-- The columns of OpenCL's profile of a command.
pub data Stage : Type 0 where
  queued submit start end : Stage

-- What OpenCL answers about an event, which is known by a number. `wait` says whether waiting for
-- it ends without an exception.
pub record OpenCl : Type 0 where
  pub wait : ℕ → Bool
  pub status : ℕ → ℤ
  pub duration : ℕ → ℕ
  pub profiling_info : Stage → ℕ → ℕ
  pub command_queue : ℕ → ℕ

-- The fields of a data point but its children. The iteration is unset where the point is not
-- iterative.
pub record Fields : Type 0 where
  pub name : String
  pub iterative : Bool
  pub iteration : Option ℤ
  pub has_event : Bool
  pub events : List ℕ
  pub values : List ℕ

mutual
  pub data DataPoint : Type 0 where
    data_point : Fields → Children → DataPoint

  pub data Children : Type 0 where
    nil : Children
    cons : DataPoint → Children → Children

abbrev pub fields : DataPoint → Fields
fields (data_point f cs) = f

abbrev pub children : DataPoint → Children
children (data_point f cs) = cs

-- The constructors.
abbrev pub new_point : DataPoint
new_point =
    data_point
      (record {
        name = "";
        iterative = false;
        iteration = none;
        has_event = false;
        events = [];
        values = [];
      })
      nil

abbrev pub new_iterative : ℤ → DataPoint
new_iterative i =
    data_point
      (record {
        name = "";
        iterative = true;
        iteration = some i;
        has_event = false;
        events = [];
        values = [];
      })
      nil

abbrev pub set_name : DataPoint → String → DataPoint
set_name (data_point f cs) name = data_point (record f { name = name }) cs

-- With the event that the caller assigns to the reference.
abbrev pub add_event : DataPoint → ℕ → DataPoint
add_event (data_point f cs) e =
    data_point (record f { has_event = true; events = f.events ++ e ∷ [] }) cs

-- With the value that the caller assigns to the reference.
abbrev pub add_value : DataPoint → ℕ → DataPoint
add_value (data_point f cs) v = data_point (record f { values = f.values ++ v ∷ [] }) cs

abbrev pub push_child : Children → DataPoint → Children
push_child nil p = cons p nil
push_child (cons c cs) p = cons c (push_child cs p)

-- With what the caller makes of the child through the reference.
abbrev pub create_child : DataPoint → (DataPoint → DataPoint) → DataPoint
create_child (data_point f cs) make = data_point f (push_child cs (make new_point))

abbrev pub is_empty {ℓ} : {A : Type ℓ} → List A → Bool
is_empty [] = true
is_empty (x ∷ xs) = false

unfoldable pub num_events : DataPoint → ℕ
num_events p = if not (fields p).has_event then 0 else length (fields p).events

-- Sums of unsigned 64-bit numbers.
abbrev pub add64 : ℕ → ℕ → ℕ
add64 a b = (a + b) % 2 ^ 64

-- The status of a command that has not ended: queued, submitted or running.
abbrev pub is_pending : ℤ → Bool
is_pending (pos n) = (n == 3) || (n == 2) || (n == 1)
is_pending (negsuc n) = false

abbrev pub is_error : ℤ → Bool
is_error (pos n) = false
is_error (negsuc n) = true

-- Where waiting for an event throws an exception, or its status is an error, there is no result.
module _ (cl : OpenCl) where
  unfoldable pub add_durations : List ℕ → ℕ → Option ℕ
  add_durations [] value = some value
  add_durations (e ∷ es) value =
      let rest = add_durations es (add64 value (cl.duration e)) in if cl.wait e then rest else none

  unfoldable pub add_values : List ℕ → ℕ → ℕ
  add_values [] value = value
  add_values (v ∷ vs) value = add_values vs (add64 value v)

  unfoldable mutual
    pub get_value : DataPoint → Option ℕ
    get_value (data_point f cs) = do
      value ←
          (if f.has_event && not (is_empty f.events)
            then add_durations f.events 0
            else some (add_values f.values 0))
      add_children cs value

    pub add_children : Children → ℕ → Option ℕ
    add_children nil value = some value
    add_children (cons c cs) value = do v ← get_value c; add_children cs (add64 value v)

  -- The four functions `get_event_queued`, `get_event_submit`, `get_event_start` and
  -- `get_event_end`, which differ in the column.
  unfoldable pub get_event : Stage → DataPoint → ℕ → Option ℕ
  get_event stage p i =
      if not (fields p).has_event || leb (length (fields p).events) i then some 0 else do
        e ← get_elem? (fields p).events i
        (if is_pending (cl.status e)
            then (if cl.wait e then some (cl.profiling_info stage e) else none)
            else (if is_error (cl.status e) then none else some (cl.profiling_info stage e)))

  unfoldable pub get_event_queue_id : DataPoint → ℕ → Option ℕ
  get_event_queue_id p i =
      if not (fields p).has_event || leb (length (fields p).events) i
      then some 0
      else do e ← get_elem? (fields p).events i; some (cl.command_queue e)

-- ===== src/Measurement/Times.antt =====
-- `get_execution_times_by_name` for commands that have ended: one time for each event.
use Prim.Native.String.{String}
use cl_kmeans.Prelude.{
  ℕ, zero, suc, ◌+◌, ◌-◌, ◌%◌, ◌^◌, Bool, true, false, List, [], ◌∷◌, ◌++◌, map, Option, some, pos,
  ◌≡◌, inl, inr, refl, ◌∙◌, ap, arith, if◌then◌else◌, get_elem?-lt, leb, ltb, Bool-cases, length,
  get_elem?,
}
use cl_kmeans.Measurement.Points.{
  Stage, start, end, OpenCl, DataPoint, fields, num_events, get_event,
}
use cl_kmeans.Measurement.Series.{Measurement}
use cl_kmeans.Measurement.Visits.{visit_all, eventful, get_datapoints_with_events_lem}
use cl_kmeans.Measurement.Files.{
  for_each, for_indices, concat, execution_time, get_execution_times_by_name,
}

-- Every command has ended without an error.
abbrev pub Ended : OpenCl → Type 0
Ended cl = (e : ℕ) → cl.status e ≡ pos 0

-- A loop over the indices of a list, where its body computes a function of the element.
for_indices-map {ℓ κ} :
    {A : Type ℓ} {B : Type κ} (f : ℕ → Option B) (g : A → B) (xs : List A) (k : ℕ)
    → ((i : ℕ) (x : A) → get_elem? xs i ≡ some x → f (i + k) ≡ some (g x))
    → for_indices f k (length xs) ≡ some (map g xs)
for_indices-map f g [] k h = refl
for_indices-map f g (x ∷ xs) k h =
    let first : f k ≡ some (g x) = ap f (omega arith) ∙ h zero x refl in
    rw (first, for_indices-map f g xs (suc k) (λ i y e. ap f (omega arith) ∙ h (suc i) y e)) refl

module _ (cl : OpenCl) (cast : ℕ → ℕ) where
  -- The time that a command ran, with the name of its data point.
  pub time_of : String → ℕ → String × ℕ
  time_of name e =
      (name, cast ((cl.profiling_info end e + 2 ^ 64 - cl.profiling_info start e) % 2 ^ 64))

  -- The times of the events of those points whose names match.
  pub times_of : (matches : String → Bool) → List DataPoint → List (String × ℕ)
  times_of matches [] = []
  times_of matches (p ∷ ps) =
      let rest = times_of matches ps in
      if matches (fields p).name
      then map (time_of (fields p).name) (fields p).events ++ rest
      else rest

  module _ (ended : Ended cl) where
    get_event_ended :
        (stage : Stage) (p : DataPoint) (i e : ℕ)
        → (fields p).has_event ≡ true
        → get_elem? (fields p).events i ≡ some e
        → get_event cl stage p i ≡ some (cl.profiling_info stage e)
    unfolding get_event
    get_event_ended stage p i e h found =
        let inside : leb (length (fields p).events) i ≡ false =
          ground (arith, get_elem?-lt (fields p).events i found) in
        rw (h, inside, found, ended e) refl

    execution_times :
        (p : DataPoint)
        → (fields p).has_event ≡ true
        → for_indices (execution_time cl cast p) 0 (num_events p)
          ≡ some (map (time_of (fields p).name) (fields p).events)
    unfolding execution_time num_events time_of
    execution_times p h = rw h (
        for_indices-map (execution_time cl cast p) (time_of (fields p).name) (fields p).events 0
          (λ i e found.
            let at : get_elem? (fields p).events (i + 0) ≡ some e =
              ap (get_elem? (fields p).events) (omega arith) ∙ found in
            rw (get_event_ended end p (i + 0) e h at, get_event_ended start p (i + 0) e h at) refl))

    module _ (matches : String → Bool) where
      -- The times of one point.
      abbrev of_point : DataPoint → Option (List (String × ℕ))
      of_point dp =
          let times = for_indices (execution_time cl cast dp) 0 (num_events dp) in
          if matches (fields dp).name then times else some []

      of_point_lem :
          (p : DataPoint)
          → (fields p).has_event ≡ true
          → of_point p
            ≡ some (
                if matches (fields p).name
                then map (time_of (fields p).name) (fields p).events
                else [])
      of_point_lem p h = elim (Bool-cases (matches (fields p).name)) [
        | inl b ↦ rw b (execution_times p h)
        | inr b ↦ rw b refl
      ]

      for_each_lem :
          (ps : List DataPoint)
          → (xss : List (List (String × ℕ))) × (for_each of_point (eventful ps) ≡ some xss)
            × (concat xss ≡ times_of matches (eventful ps))
      unfolding times_of eventful num_events
      for_each_lem [] = ([], refl, refl)
      for_each_lem (p ∷ ps) =
          let (xss, found, total) = for_each_lem ps in
          elim (Bool-cases (ltb 0 (num_events p))) [
            | inl b ↦ (
              (if matches (fields p).name
                    then map (time_of (fields p).name) (fields p).events
                    else [])
                  ∷ xss,
              rw b (rw (of_point_lem p (ground (arith, b)), found) refl),
              rw b (ground (arith, total)),
            )
            | inr b ↦ (xss, rw b found, rw b total)
          ]

      -- Where every command has ended without an error, there is one time for each event of the
      -- points with events whose names match, in the order in which the points are visited: the
      -- difference of its end and its start, in 64 bits, in the unit that is asked for.
      pub get_execution_times_by_name-times_of :
          (m : Measurement)
          → get_execution_times_by_name cl cast matches m
            ≡ some (times_of matches (eventful (visit_all m.data_points)))
      unfolding get_execution_times_by_name
      get_execution_times_by_name-times_of m =
          let (xss, found, total) = for_each_lem (visit_all m.data_points) in
          rw (get_datapoints_with_events_lem m.data_points) (rw found (ap some total))

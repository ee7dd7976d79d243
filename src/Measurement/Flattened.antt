-- ===== src/Measurement/Flattened.antt =====
-- `get_flattened_datapoints`: the points that it puts before those with children.
use Prim.Native.String.{◌++◌ as ◌<>◌}
use cl_kmeans.Prelude.{
  ℕ, ◌+◌, ◌%◌, ◌^◌, List, [], ◌∷◌, ◌++◌, some, ◌≡◌, refl, ◌∙◌, ap, ◌>>=◌, Gives, Gives-bind,
}
use cl_kmeans.Measurement.Points.{
  OpenCl, Fields, DataPoint, data_point, Children, nil, cons, get_value, add_children, set_name,
  add_value,
}
use cl_kmeans.Measurement.Series.{sub_points, same_iteration, get_flattened_datapoints}
use cl_kmeans.Measurement.Totals.{
  points_below, own, total, onto, add_children-onto, sub_points-get_value,
}

module _ (cl : OpenCl) where
  -- No wait for an event below a point throws, and an iterative point with children has its
  -- iteration.
  abbrev pub IsQuiet : List DataPoint → Type 0
  IsQuiet [] = Unit
  IsQuiet (data_point f nil ∷ dps) = IsQuiet dps
  IsQuiet (data_point f (cons c cs) ∷ dps) =
      ((n : ℕ) × (total cl (points_below (cons c cs)) ≡ some n))
      × ((cp : DataPoint) × (same_iteration f ≡ some cp))
      × IsQuiet dps

  -- The point `q` makes up for what is below a point.
  abbrev pub MakesUp : Fields → Children → DataPoint → Type 0
  MakesUp f cs q =
      get_value cl (data_point f cs)
      ≡ (do o ← own cl f; s ← get_value cl q; some ((o + s) % 2 ^ 64))

  -- The points in order, with one point right before each that has children.
  abbrev pub Flattened : (dps qs : List DataPoint) → Type 0
  Flattened [] qs = qs ≡ []
  Flattened (data_point f nil ∷ dps) qs =
      (rest : List DataPoint) × (qs ≡ data_point f nil ∷ rest) × Flattened dps rest
  Flattened (data_point f (cons c cs) ∷ dps) qs =
      (q : DataPoint) × (rest : List DataPoint) × (qs ≡ q ∷ data_point f (cons c cs) ∷ rest)
      × MakesUp f (cons c cs) q
      × Flattened dps rest

  -- Where no wait for an event below one of the points throws an exception, and the iterative ones
  -- with children have their iteration: get_flattened_datapoints returns the points in order, and
  -- right before each point with children one more. The value of that one makes up, with what the
  -- point measured itself, the value of the point, modulo 2^64.
  pub get_flattened_datapoints-Flattened :
      (dps : List DataPoint) → IsQuiet dps → Gives (Flattened dps) (get_flattened_datapoints cl dps)
  unfolding get_flattened_datapoints sub_points
  get_flattened_datapoints-Flattened [] quiet = refl
  get_flattened_datapoints-Flattened (data_point f nil ∷ dps) quiet =
      Gives-bind _ (Flattened dps) (get_flattened_datapoints cl dps) _
        (get_flattened_datapoints-Flattened dps quiet) (λ rest h. (rest, refl, h))
  get_flattened_datapoints-Flattened (data_point f (cons c cs) ∷ dps) ((n, e), (cp, made), quiet) =
      let P = Flattened (data_point f (cons c cs) ∷ dps) in
      let v : ℕ = (0 + n) % 2 ^ 64 in
      let summed : add_children cl (cons c cs) 0 ≡ some v =
        add_children-onto cl (cons c cs) 0 ∙ ap (onto 0) e in
      let q = add_value (set_name cp (f.name <> "#Sub")) v in
      let one : sub_points cl (data_point f (cons c cs)) ≡ some (q ∷ []) = rw (made, summed) refl in
      let (q', same, worth) = sub_points-get_value cl f c cs one in
      rw (made, summed)
        (Gives-bind P (Flattened dps) (get_flattened_datapoints cl dps) _
          (get_flattened_datapoints-Flattened dps quiet)
          (λ rest h. (q', rest, (λ j. same j ++ data_point f (cons c cs) ∷ rest), worth, h)))

-- ===== src/Measurement/Totals.antt =====
-- `get_value`: the sum over the tree below a data point.
use Prim.Native.String.{String, ◌++◌ as ◌<>◌}
use cl_kmeans.Prelude.{
  ℕ, ◌+◌, ◌%◌, ◌^◌, ◌<◌, not, ◌&&◌, List, [], ◌∷◌, ◌++◌, Option, none, some, ◌≡◌, inl, inr, refl,
  ◌∙◌, ap, sym, arith, if◌then◌else◌, ◌>>=◌, Option-cases, Bool-cases, >>=-eq-some, ◌⊎◌, ℤ,
}
use cl_kmeans.Measurement.Points.{
  OpenCl, Fields, DataPoint, data_point, Children, nil, cons, is_empty, add64, add_durations,
  add_values, get_value, add_children, set_name, add_value, new_point, new_iterative,
}
use cl_kmeans.Measurement.Series.{sub_points, same_iteration}

-- A point before those below it.
unfoldable mutual
  pub points : DataPoint → List Fields
  points (data_point f cs) = f ∷ points_below cs

  pub points_below : Children → List Fields
  points_below nil = []
  points_below (cons c cs) = points c ++ points_below cs

unfoldable pub sum : List ℕ → ℕ
sum [] = 0
sum (v ∷ vs) = v + sum vs

module _ (cl : OpenCl) where
  -- The durations of events that can be waited for.
  unfoldable pub durations : List ℕ → Option ℕ
  durations [] = some 0
  durations (e ∷ es) =
      let rest = durations es in if cl.wait e then (do t ← rest; some (cl.duration e + t)) else none

  -- What a point measured itself: the durations of its events, if any, or else its values.
  unfoldable pub own : Fields → Option ℕ
  own f = if f.has_event && not (is_empty f.events) then durations f.events else some (sum f.values)

  unfoldable pub total : List Fields → Option ℕ
  total [] = some 0
  total (f ∷ fs) = do a ← own f; b ← total fs; some (a + b)

-- A sum on top of `v`, in 64 bits.
abbrev pub onto : ℕ → Option ℕ → Option ℕ
onto v o = do t ← o; some ((v + t) % 2 ^ 64)

add64-mod : (v w : ℕ) → add64 (v % 2 ^ 64) w ≡ (v + w) % 2 ^ 64
add64-mod v w = omega arith

add64-mod_both : (v w : ℕ) → add64 (v % 2 ^ 64) (w % 2 ^ 64) ≡ (v + w) % 2 ^ 64
add64-mod_both v w = omega arith

onto-add : (v w : ℕ) (o : Option ℕ) → onto (v + w) o ≡ onto v (do t ← o; some (w + t))
onto-add v w none = refl
onto-add v w (some t) = ap some (ap (λ n. n % 2 ^ 64) (omega arith))

onto-lt : (w : ℕ) (o : Option ℕ) {v : ℕ} → onto w o ≡ some v → v < 2 ^ 64
onto-lt w none h = absurd (cc)
onto-lt w (some t) h = ground (arith, h)

onto-split :
    (o o' : Option ℕ) (v : ℕ)
    → onto 0 o' ≡ some v
    → onto 0 (do a ← o; b ← o'; some (a + b)) ≡ (do a ← o; some ((a + v) % 2 ^ 64))
onto-split none o' v h = refl
onto-split (some a) none v h = absurd (cc)
onto-split (some a) (some b) v h = ground (arith, h)

onto_zero : (o : Option ℕ) → onto 0 o ≡ (do t ← o; some (t % 2 ^ 64))
onto_zero none = refl
onto_zero (some n) = ap some (ap (λ n. n % 2 ^ 64) (omega arith))

-- A step that continues from a sum.
onto-bind :
    (v : ℕ) (o o' : Option ℕ) (k : ℕ → Option ℕ)
    → ((w : ℕ) → k (w % 2 ^ 64) ≡ onto (v + w) o')
    → (onto 0 o >>= k) ≡ onto v (do a ← o; b ← o'; some (a + b))
onto-bind v none o' k h = refl
onto-bind v (some w) o' k h = ap k (ap (λ n. n % 2 ^ 64) (omega arith)) ∙ h w ∙ onto-add v w o'

plus_zero : (o : Option ℕ) → o ≡ (do b ← o; some (0 + b))
plus_zero none = refl
plus_zero (some n) = ap some (omega arith)

plus_assoc :
    (o p q : Option ℕ)
    → (do a ← o; b ← (do x ← p; y ← q; some (x + y)); some (a + b))
      ≡ (do a ← (do x ← o; y ← p; some (x + y)); b ← q; some (a + b))
plus_assoc none p q = refl
plus_assoc (some a) none q = refl
plus_assoc (some a) (some b) none = refl
plus_assoc (some a) (some b) (some c) = ap some (omega arith)

same_iteration_lem :
    (f : Fields) {cp : DataPoint}
    → same_iteration f ≡ some cp
    → (cp ≡ new_point) ⊎ ((i : ℤ) × (cp ≡ new_iterative i))
same_iteration_lem f e = elim (Bool-cases f.iterative) [
  | inl b ↦ elim (Option-cases f.iteration) [
    | inl n ↦ absurd (ground (arith, e, b, n))
    | inr (i, n) ↦ inr (i, ground (arith, e, b, n))
  ]
  | inr b ↦ inl (ground (arith, e, b))
]

module _ (cl : OpenCl) where
  add_values_lem : (vs : List ℕ) (v : ℕ) → add_values cl vs (v % 2 ^ 64) ≡ (v + sum vs) % 2 ^ 64
  unfolding add_values sum
  add_values_lem [] v = ap (λ n. n % 2 ^ 64) (omega arith)
  add_values_lem (w ∷ vs) v =
      rw (add64-mod v w) (add_values_lem vs (v + w) ∙ ap (λ n. n % 2 ^ 64) (omega arith))

  add_durations_lem :
      (es : List ℕ) (v : ℕ) → add_durations cl es (v % 2 ^ 64) ≡ onto v (durations cl es)
  unfolding add_durations durations
  add_durations_lem [] v = ap some (ap (λ n. n % 2 ^ 64) (omega arith))
  add_durations_lem (e ∷ es) v = elim (Bool-cases (cl.wait e)) [
    | inl h ↦ rw h (
        rw (add64-mod v (cl.duration e))
          (add_durations_lem es (v + cl.duration e) ∙ onto-add v (cl.duration e) (durations cl es)))
    | inr h ↦ rw h refl
  ]

  total-append :
      (fs gs : List Fields)
      → total cl (fs ++ gs) ≡ (do a ← total cl fs; b ← total cl gs; some (a + b))
  unfolding total
  total-append [] gs = plus_zero (total cl gs)
  total-append (f ∷ fs) gs =
      rw (total-append fs gs) (plus_assoc (own cl f) (total cl fs) (total cl gs))

  own_lem :
      (f : Fields)
      → (if f.has_event && not (is_empty f.events)
          then add_durations cl f.events 0
          else some (add_values cl f.values 0))
        ≡ onto 0 (own cl f)
  unfolding own
  own_lem f = elim (Bool-cases (f.has_event && not (is_empty f.events))) [
    | inl h ↦ rw h (add_durations_lem f.events 0)
    | inr h ↦ rw h (ap some (add_values_lem f.values 0))
  ]

  mutual
    unfolding get_value total points

    get_value-onto : (p : DataPoint) → get_value cl p ≡ onto 0 (total cl (points p))
    get_value-onto (data_point f cs) = rw (own_lem f) (
        onto-bind 0 (own cl f) (total cl (points_below cs)) (add_children cl cs) (λ w.
          add_children-onto cs w ∙ ap (λ n. onto n (total cl (points_below cs))) (omega arith)))

    pub add_children-onto :
        (cs : Children) (v : ℕ)
        → add_children cl cs (v % 2 ^ 64) ≡ onto v (total cl (points_below cs))
    add_children-onto nil v = ap some (ap (λ n. n % 2 ^ 64) (omega arith))
    add_children-onto (cons c cs) v =
        rw (get_value-onto c, total-append (points c) (points_below cs))
          (onto-bind v (total cl (points c)) (total cl (points_below cs)) _
            (λ w. rw (add64-mod_both v w) (add_children-onto cs (v + w))))

  -- The value of a data point is the sum, modulo 2^64, of what it and all the points below it
  -- measured: the durations of the events of a point that has some, or else its values. Where
  -- waiting for one of these events throws an exception, there is no value.
  pub get_value-total :
      (p : DataPoint) → get_value cl p ≡ (do t ← total cl (points p); some (t % 2 ^ 64))
  get_value-total p = get_value-onto p ∙ onto_zero (total cl (points p))

  -- A point that `same_iteration` makes, with one value below 2^64.
  get_value-one :
      (f : Fields) {cp : DataPoint} (name : String) (v : ℕ)
      → same_iteration f ≡ some cp
      → v < 2 ^ 64
      → get_value cl (add_value (set_name cp name) v) ≡ some v
  unfolding get_value add_values
  get_value-one f {cp = cp} name v e narrow = elim (same_iteration_lem f e) [
    | inl n ↦ rw n (ap some (omega (arith, narrow)))
    | inr (i, n) ↦ rw n (ap some (omega (arith, narrow)))
  ]

  own_and_below :
      (f : Fields) (cs : Children) (cp : DataPoint) (name : String) (v : ℕ)
      → same_iteration f ≡ some cp
      → add_children cl cs 0 ≡ some v
      → get_value cl (data_point f cs) ≡ (do
        o ← own cl f
        s ← get_value cl (add_value (set_name cp name) v)
        some ((o + s) % 2 ^ 64))
  unfolding total points own
  own_and_below f cs cp name v made sum_of =
      let summed : onto 0 (total cl (points_below cs)) ≡ some v =
        sym (add_children-onto cs 0) ∙ sum_of in
      rw (get_value-one f name v made (onto-lt 0 (total cl (points_below cs)) summed)) (
        get_value-onto (data_point f cs)
        ∙ onto-split (own cl f) (total cl (points_below cs)) v summed)

  -- What `sub_points` returns for a point with children is one point, and its value makes up, with
  -- what the point measured itself, the value of the point, modulo 2^64.
  pub sub_points-get_value :
      (f : Fields) (c : DataPoint) (cs : Children) {qs : List DataPoint}
      → sub_points cl (data_point f (cons c cs)) ≡ some qs
      → (q : DataPoint) × (qs ≡ q ∷ [])
        × (get_value cl (data_point f (cons c cs))
            ≡ (do o ← own cl f; s ← get_value cl q; some ((o + s) % 2 ^ 64)))
  unfolding sub_points
  sub_points-get_value f c cs h =
      let (cp, made, h₁) = >>=-eq-some (same_iteration f) _ h in
      let (v, sum_of, h₂) = >>=-eq-some (add_children cl (cons c cs) 0) _ h₁ in
      (
        add_value (set_name cp (f.name <> "#Sub")) v,
        cc,
        own_and_below f (cons c cs) cp (f.name <> "#Sub") v made sum_of,
      )

-- ===== src/Kmeans/Labels.antt =====
-- The label of a point in `KmeansNaive`: the centroid that is nearest to it.
use cl_kmeans.Prelude.{
  ℕ, suc, ◌%◌, ◌^◌, ◌≤◌, ◌<◌, true, false, Option, none, some, ◌≡◌, ◌⊎◌, inl, inr, refl, ◌∙◌, ap,
  sym, subst, arith, ◌==◌, Bool-cases, if◌then◌else◌, Gives, Gives-known, Gives-loop,
}
use cl_kmeans.Kmeans.Matrix.{Matrix, rows, cols, at, IsShaped, at_lem}
use cl_kmeans.Kmeans.Naive.{Arithmetic, add_square, distance_to, Nearest, compare_centroid, nearest}

-- What holds of `<` on numbers of floating point, also of those that are not a number.
pub record Laws (R : Arithmetic) : Type 0 where
  pub irreflexive : (a : R.Point) → R.less a a ≡ false
  pub transitive : (a b c : R.Point) → R.less a b ≡ true → R.less b c ≡ true → R.less a c ≡ true

true_ne_false : true ≡ false → ⊥
true_ne_false e = cc

module _ (R : Arithmetic) (laws : Laws R) (w : ℕ) (points centroids : Matrix R.Point)
    (points_shaped : IsShaped points) (centroids_shaped : IsShaped centroids)
    (enough : cols points ≤ cols centroids) (p : ℕ) (in_points : p < rows points) where
  abbrev DistanceIs : ℕ → R.Point → Type 0
  DistanceIs c d = distance_to R points w p c centroids ≡ some d

  add_square_lem :
      (c d : ℕ) (distance : R.Point)
      → c < rows centroids
      → d < cols points
      → Gives (λ _. Unit) (add_square R points w p c centroids d distance)
  unfolding add_square
  add_square_lem c d distance l k =
      let (x, e) = at_lem points p d points_shaped in_points k in
      let (y, e') = at_lem centroids c d centroids_shaped l (omega (arith, k, enough)) in
      Gives-known (λ _. Unit) (at points p d) _ e
        (Gives-known (λ _. Unit) (at centroids c d) _ e' tt)

  distance_to_lem : (c : ℕ) → c < rows centroids → (d : R.Point) × DistanceIs c d
  unfolding distance_to
  distance_to_lem c l = value (distance_to R points w p c centroids) (
      Gives-loop (λ _ _. Unit) (cols points) (add_square R points w p c centroids) R.zero_point
        (λ d distance k _. add_square_lem c d distance l k) tt)
    where
      value : (o : Option R.Point) → Gives (λ _. Unit) o → (d : R.Point) × (o ≡ some d)
      value none h = absurd h
      value (some d) h = (d, refl)

  -- `n` is right for the centroids before `k`: none of them is nearer, and it is the first one at
  -- its distance, or there is none nearer than the greatest number.
  pub record IsNearest (k : ℕ) (n : Nearest R points w) : Type 0 where
    pub least : (c : ℕ) (d : R.Point) → c < k → DistanceIs c d → R.less d n.min_distance ≡ false
    pub reached :
        ((n.min_distance ≡ R.max_point) × (n.min_centroid ≡ 0))
        ⊎ ((c : ℕ) × (c < k)
            × (n.min_centroid ≡ c % 2 ^ w)
            × DistanceIs c n.min_distance
            × ((c' : ℕ) → c' < c → ¬ DistanceIs c' n.min_distance))

  same_distance : (c c' : ℕ) (d d' : R.Point) → c ≡ c' → DistanceIs c d → DistanceIs c' d' → d ≡ d'
  same_distance c c' d d' same e e' =
      let both : some d ≡ some d' =
        sym e ∙ ap (λ z. distance_to R points w p z centroids) same ∙ e' in
      cc

  nearer :
      (k : ℕ) (n : Nearest R points w) (d : R.Point)
      → IsNearest k n
      → DistanceIs k d
      → R.less d n.min_distance ≡ true
      → IsNearest (suc k) (record { min_distance = d; min_centroid = k % 2 ^ w })
  nearer k n d h e less = record {
    least = λ c d' l e'. elim (Bool-cases (R.less d' d)) [
      | inr far ↦ far
      | inl near ↦ elim (Bool-cases (c == k)) [
        | inl same ↦ absurd (
            true_ne_false (
              sym near
              ∙ ap (λ z. R.less z d) (same_distance c k d' d (ground arith) e' e)
              ∙ laws.irreflexive d))
        | inr apart ↦ absurd (
            true_ne_false (
              sym (laws.transitive d' d n.min_distance near less) ∙ h.least c d' (ground arith) e'))
      ]
    ];
    reached =
        inr (k, omega arith, refl, e, λ c' l e'. true_ne_false (sym less ∙ h.least c' d l e'));
  }

  not_nearer :
      (k : ℕ) (n : Nearest R points w) (d : R.Point)
      → IsNearest k n
      → DistanceIs k d
      → R.less d n.min_distance ≡ false
      → IsNearest (suc k) n
  not_nearer k n d h e less = record {
    least = λ c d' l e'. elim (Bool-cases (c == k)) [
      | inl same ↦
          ap (λ z. R.less z n.min_distance) (same_distance c k d' d (ground arith) e' e) ∙ less
      | inr apart ↦ h.least c d' (ground arith) e'
    ];
    reached = elim h.reached [
      | inl r ↦ inl r
      | inr (c, l, e1, e2, first) ↦ inr (c, omega (arith, l), e1, e2, first)
    ];
  }

  compare_centroid_lem :
      (k : ℕ) (n : Nearest R points w)
      → k < rows centroids
      → IsNearest k n
      → Gives (IsNearest (suc k)) (compare_centroid R points w p centroids k n)
  unfolding compare_centroid
  compare_centroid_lem k n l h =
      let (d, e) = distance_to_lem k l in
      Gives-known (IsNearest (suc k)) (distance_to R points w p k centroids) _ e
        (elim (Bool-cases (R.less d n.min_distance)) [
          | inl near ↦
              subst
                (λ b.
                  IsNearest (suc k)
                    (if b then record { min_distance = d; min_centroid = k % 2 ^ w } else n))
                (sym near) (nearer k n d h e near)
          | inr far ↦
              subst
                (λ b.
                  IsNearest (suc k)
                    (if b then record { min_distance = d; min_centroid = k % 2 ^ w } else n))
                (sym far) (not_nearer k n d h e far)
        ])

  -- For an irreflexive and transitive comparison, and for centroids of at least the points'
  -- dimensions, phase 1 finds a label for each point. No centroid's distance is less than the one
  -- it keeps, which is that of the centroid with this label modulo 2 ^ w, the first one at that
  -- distance; or it keeps the greatest number and the label 0.
  pub nearest-IsNearest : Gives (IsNearest (rows centroids)) (nearest R points w p centroids)
  unfolding nearest
  nearest-IsNearest =
      Gives-loop IsNearest (rows centroids) (compare_centroid R points w p centroids) _
        (λ k n l h. compare_centroid_lem k n l h)
        (record { least = λ c d l e. absurd (omega arith); reached = inl (refl, refl) })

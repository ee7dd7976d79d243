-- ===== src/Kmeans/Initializer.antt =====
-- `KmeansInitializer` (kmeans_initializer.cpp): the first centroids.
use native.Mathlib.Nat.{mod-lt}
use cl_kmeans.Prelude.{
  ℕ, suc, ◌%◌, ◌≤◌, ◌<◌, Option, none, ◌≡◌, ◌≢◌, ◌⊎◌, inl, inr, refl, ◌∙◌, sym, subst, arith, ◌==◌,
  Bool-cases, if◌then◌else◌, ◌>>=◌, for_range, Gives-loop, Gives, Gives-known, Gives-if, Gives-map,
}
use cl_kmeans.Kmeans.Order.{Columns, Rows, split-Columns, split-Rows}
use cl_kmeans.Kmeans.Matrix.{Matrix, rows, cols, at, assign, IsShaped, Assigned, assign_lem, at_lem}

module _ {T : Type 0} (points : Matrix T) where
  -- `centroids(c, d) = points(p, d)`
  unfoldable pub copy : (p c d : ℕ) → Matrix T → Option (Matrix T)
  copy p c d centroids = do v ← at points p d; assign centroids c d v

  -- A remainder by 0 is undefined.
  unfoldable pub first_x_row : (d c : ℕ) → Matrix T → Option (Matrix T)
  unfolding copy
  first_x_row d c centroids =
      if rows points == 0 then none else copy (c % rows points) c d centroids

  unfoldable pub first_x_column : (d : ℕ) → Matrix T → Option (Matrix T)
  unfolding first_x_row for_range
  first_x_column d centroids = for_range 0 (rows centroids) (first_x_row d) centroids

  unfoldable pub first_x : Matrix T → Option (Matrix T)
  unfolding first_x_column for_range
  first_x centroids = for_range 0 (cols centroids) first_x_column centroids

  -- `random c` is the number that `std::random_device` gives for cluster `c`.
  unfoldable pub forgy_row : (random : ℕ → ℕ) → (c : ℕ) → Matrix T → Option (Matrix T)
  unfolding copy for_range
  forgy_row random c centroids =
      if rows points == 0
      then none
      else for_range 0 (cols centroids) (copy (random c % rows points) c) centroids

  unfoldable pub forgy : (random : ℕ → ℕ) → Matrix T → Option (Matrix T)
  unfolding forgy_row for_range
  forgy random centroids = for_range 0 (rows centroids) (forgy_row random) centroids

  module _ (centroids : Matrix T) (points_shaped : IsShaped points) where
    -- Centroids of the size of those at the begin.
    pub record Sized (m : Matrix T) : Type 0 where
      pub shaped : IsShaped m
      pub x_dim : rows m ≡ rows centroids
      pub y_dim : cols m ≡ cols centroids

    -- For each cluster and dimension that `Done` tells, the value of the point `of` the cluster.
    pub record Filled (of : ℕ → ℕ) (Done : ℕ → ℕ → Type 0) (m : Matrix T) : Type 0 where
      pub sized : Sized m
      pub filled :
          (c d : ℕ)
          → c < rows centroids
          → d < cols centroids
          → Done c d
          → at m c d ≡ at points (of c) d

    copy_lem :
        (of : ℕ → ℕ) (Done Done' : ℕ → ℕ → Type 0) (c d : ℕ) (m : Matrix T)
        → of c < rows points
        → d < cols points
        → c < rows centroids
        → d < cols centroids
        → ((c' d' : ℕ) → Done' c' d' → ((c ≡ c') × (d ≡ d')) ⊎ (((c ≢ c') ⊎ (d ≢ d')) × Done c' d'))
        → Filled of Done m
        → Gives (Filled of Done') (copy (of c) c d m)
    unfolding copy
    copy_lem of Done Done' c d m p q l k split f =
        let (v, e) = at_lem points (of c) d points_shaped p q in
        Gives-known (Filled of Done') (at points (of c) d) _ e (
          Gives-map (Assigned m c d v) (Filled of Done')
            (λ m' a. record {
              sized = record {
                shaped = a.shaped;
                x_dim = a.x_dim ∙ f.sized.x_dim;
                y_dim = a.y_dim ∙ f.sized.y_dim;
              };
              filled = λ c' d' l' k' done. elim (split c' d' done) [
                | inl (same, same') ↦
                    subst (λ z. at m' z d' ≡ at points (of z) d') same
                      (subst (λ w. at m' c w ≡ at points (of c) w) same' (a.here ∙ sym e))
                | inr (apart, before) ↦
                    a.others c' d' (omega (arith, f.sized.x_dim, l'))
                      (omega (arith, f.sized.y_dim, k')) apart
                    ∙ f.filled c' d' l' k' before
              ];
            })
            (assign m c d v)
            (assign_lem m c d v f.sized.shaped (omega (arith, f.sized.x_dim, l))
              (omega (arith, f.sized.y_dim, k))))

    -- A weaker claim on what is filled.
    Filled-mono :
        (of : ℕ → ℕ) (Done Done' : ℕ → ℕ → Type 0) (m : Matrix T)
        → ((c d : ℕ) → c < rows centroids → d < cols centroids → Done' c d → Done c d)
        → Filled of Done m
        → Filled of Done' m
    Filled-mono of Done Done' m g f = record {
      sized = f.sized;
      filled = λ c d l k done. f.filled c d l k (g c d l k done);
    }

    module _ (enough : cols centroids ≤ cols points) (some_point : 0 < rows points) where
      abbrev turn : ℕ → ℕ
      turn c = c % rows points

      turn_lem : (c : ℕ) → turn c < rows points
      turn_lem c = omega (arith, mod-lt c some_point)

      first_x_row_lem :
          (d c : ℕ) (m : Matrix T)
          → c < rows centroids
          → d < cols centroids
          → Filled turn (Columns d c) m
          → Gives (Filled turn (Columns d (suc c))) (first_x_row d c m)
      unfolding first_x_row
      first_x_row_lem d c m l k f =
          Gives-if (Filled turn (Columns d (suc c))) (rows points == 0) _ _
            (λ e. absurd (ground arith))
            (λ _.
              copy_lem turn (Columns d c) (Columns d (suc c)) c d m (turn_lem c) (omega arith) l k
                (split-Columns d c) f)

      first_x_column_lem :
          (d : ℕ) (m : Matrix T)
          → d < cols centroids
          → Filled turn (Columns d 0) m
          → Gives (Filled turn (Columns (suc d) 0)) (first_x_column d m)
      unfolding first_x_column
      first_x_column_lem d m k f =
          Gives-map (Filled turn (Columns d (rows m))) (Filled turn (Columns (suc d) 0))
            (λ m'. Filled-mono turn (Columns d (rows m)) (Columns (suc d) 0) m' whole)
            (for_range 0 (rows m) (first_x_row d) m)
            (Gives-loop (λ c. Filled turn (Columns d c)) (rows m) (first_x_row d) m
              (λ c t l g. first_x_row_lem d c t (omega (arith, f.sized.x_dim, l)) k g) f)
        where
          whole :
              (c' d' : ℕ)
              → c' < rows centroids
              → d' < cols centroids
              → Columns (suc d) 0 c' d'
              → Columns d (rows m) c' d'
          whole c' d' l' k' (inl h) = elim (Bool-cases (d' == d)) [
            | inl e ↦ inr (ground arith, omega (arith, f.sized.x_dim, l'))
            | inr e ↦ inl (ground arith)
          ]
          whole c' d' l' k' (inr (e, h)) = absurd (omega arith)

      -- With at least one point, of at least the centroids' dimensions, `first_x` returns and keeps
      -- the size of the centroids. The centroid of cluster `c` is point `c` modulo their number.
      pub first_x-fills :
          IsShaped centroids
          → Gives
              (λ m.
                IsShaped m
                × (rows m ≡ rows centroids)
                × (cols m ≡ cols centroids)
                × ((c d : ℕ)
                    → c < rows centroids
                    → d < cols centroids
                    → at m c d ≡ at points (c % rows points) d))
              (first_x centroids)
      unfolding first_x
      first_x-fills shaped =
          Gives-map (Filled turn (Columns (cols centroids) 0)) _
            (λ m f.
              (f.sized.shaped, f.sized.x_dim, f.sized.y_dim, λ c d l k. f.filled c d l k (inl k)))
            (for_range 0 (cols centroids) first_x_column centroids)
            (Gives-loop (λ d. Filled turn (Columns d 0)) (cols centroids) first_x_column centroids
              (λ d t k f. first_x_column_lem d t k f)
              (record {
                sized = record { shaped = shaped; x_dim = refl; y_dim = refl };
                filled = λ c d l k h. absurd (nothing c d h);
              }))
        where
          nothing : (c d : ℕ) → Columns 0 0 c d → ⊥
          nothing c d (inl h) = omega arith
          nothing c d (inr (_, h)) = omega arith

      module _ (random : ℕ → ℕ) where
        abbrev drawn : ℕ → ℕ
        drawn c = random c % rows points

        drawn_lem : (c : ℕ) → drawn c < rows points
        drawn_lem c = omega (arith, mod-lt (random c) some_point)

        forgy_row_lem :
            (c : ℕ) (m : Matrix T)
            → c < rows centroids
            → Filled drawn (Rows c 0) m
            → Gives (Filled drawn (Rows (suc c) 0)) (forgy_row random c m)
        unfolding forgy_row
        forgy_row_lem c m l f =
            Gives-if (Filled drawn (Rows (suc c) 0)) (rows points == 0) _ _
              (λ e. absurd (ground arith))
              (λ _.
                Gives-map (Filled drawn (Rows c (cols m))) (Filled drawn (Rows (suc c) 0))
                  (λ m'. Filled-mono drawn (Rows c (cols m)) (Rows (suc c) 0) m' whole)
                  (for_range 0 (cols m) (copy (drawn c) c) m)
                  (Gives-loop (λ d. Filled drawn (Rows c d)) (cols m) (copy (drawn c) c) m
                    (λ d t k g.
                      let inside : d < cols centroids = omega (arith, f.sized.y_dim, k) in
                      copy_lem drawn (Rows c d) (Rows c (suc d)) c d t (drawn_lem c)
                        (omega (arith, inside)) l inside (split-Rows c d) g)
                    f))
          where
            whole :
                (c' d' : ℕ)
                → c' < rows centroids
                → d' < cols centroids
                → Rows (suc c) 0 c' d'
                → Rows c (cols m) c' d'
            whole c' d' l' k' (inl h) = elim (Bool-cases (c' == c)) [
              | inl e ↦ inr (ground arith, omega (arith, f.sized.y_dim, k'))
              | inr e ↦ inl (ground arith)
            ]
            whole c' d' l' k' (inr (e, h)) = absurd (omega arith)

        -- With at least one point, of at least the centroids' dimensions, `forgy` returns and keeps
        -- the size of the centroids. The centroid of cluster `c` is the point that was drawn for it.
        pub forgy-fills :
            IsShaped centroids → Gives (Filled drawn (λ _ _. Unit)) (forgy random centroids)
        unfolding forgy
        forgy-fills shaped =
            Gives-map (Filled drawn (Rows (rows centroids) 0)) (Filled drawn (λ _ _. Unit))
              (λ m.
                Filled-mono drawn (Rows (rows centroids) 0) (λ _ _. Unit) m (λ c d l k _. inl l))
              (for_range 0 (rows centroids) (forgy_row random) centroids)
              (Gives-loop (λ c. Filled drawn (Rows c 0)) (rows centroids) (forgy_row random)
                centroids (λ c t l f. forgy_row_lem c t l f)
                (record {
                  sized = record { shaped = shaped; x_dim = refl; y_dim = refl };
                  filled = λ c d l k h. absurd (nothing c d h);
                }))
          where
            nothing : (c d : ℕ) → Rows 0 0 c d → ⊥
            nothing c d (inl h) = omega arith
            nothing c d (inr (_, h)) = omega arith

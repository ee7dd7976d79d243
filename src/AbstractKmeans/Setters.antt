-- ===== src/AbstractKmeans/Setters.antt =====
-- The order in which the points and the number of features are set.
use cl_kmeans.Prelude.{
  ℕ, false, ◌/◌, List, [], ◌∷◌, Option, some, length, ◌≢◌, ◌≡◌, ◌∙◌, refl, sym, ap, beq_ne, ◌==◌,
  ◌>>=◌, Gives,
}
use cl_kmeans.ThreeStage.BufferMap.{Elements}
use cl_kmeans.AbstractKmeans.State.{AbstractKmeans, new_kmeans, set_points, set_features}

module _ (E : Elements) where
  open E use {Point}

  pub data Setter : Type 0 where
    points : List Point → Setter
    features : ℕ → Setter

  unfoldable pub set_all : List Setter → AbstractKmeans E → Option (AbstractKmeans E)
  unfolding set_points set_features
  set_all [] k = some k
  set_all (points p ∷ calls) k = set_all calls (set_points E p k)
  set_all (features f ∷ calls) k = do k' ← set_features E f k; set_all calls k'

  -- The points and the number of features that were set last.
  abbrev pub last_points : List Setter → List Point → List Point
  last_points [] p = p
  last_points (points q ∷ calls) p = last_points calls q
  last_points (features f ∷ calls) p = last_points calls p

  abbrev pub last_features : List Setter → ℕ → ℕ
  last_features [] f = f
  last_features (points q ∷ calls) f = last_features calls f
  last_features (features g ∷ calls) f = last_features calls g

  abbrev pub NoZero : List Setter → Type 0
  NoZero [] = Unit
  NoZero (points q ∷ calls) = NoZero calls
  NoZero (features f ∷ calls) = (f ≢ 0) × NoZero calls

  -- The members that the setters keep in step.
  pub record InStep (p : List Point) (f : ℕ) (k : AbstractKmeans E) : Type 0 where
    pub host_points : k.host_points ≡ some p
    pub num_features : k.num_features ≡ f
    pub num_points : f ≢ 0 → k.num_points ≡ length p / f

  set_points-InStep :
      (p q : List Point) (f : ℕ) (k : AbstractKmeans E)
      → InStep p f k
      → InStep q f (set_points E q k)
  unfolding set_points
  set_points-InStep p q f k h = record {
    host_points = refl;
    num_features = h.num_features;
    num_points = λ pos.
        let some_feature : (k.num_features == 0) ≡ false =
          beq_ne (λ e. pos (sym h.num_features ∙ e)) in
        rw some_feature (ap (λ z. length q / z) h.num_features);
  }

  set_all-InStep :
      (calls : List Setter) (p : List Point) (f : ℕ) (k : AbstractKmeans E)
      → NoZero calls
      → InStep p f k
      → Gives (InStep (last_points calls p) (last_features calls f)) (set_all calls k)
  unfolding set_all set_features
  set_all-InStep [] p f k z h = h
  set_all-InStep (points q ∷ calls) p f k z h =
      set_all-InStep calls q f (set_points E q k) z (set_points-InStep p q f k h)
  set_all-InStep (features g ∷ calls) p f k z h =
      let positive : (g == 0) ≡ false = beq_ne z.0 in
      rw (h.host_points, positive)
        (set_all-InStep calls p g
          (record k { host_points = some p; num_features = g; num_points = length p / g }) z.1
          (record { host_points = refl; num_features = refl; num_points = λ _. refl }))

  -- For every history of set_points and set_features on a new object that starts with set_points
  -- and sets no number of features to 0: each call returns, host_points are the last points that
  -- were set and num_features the last number of features, and, where one was set, num_points is
  -- the size of these points divided by that number, whichever of the two was set last.
  pub set_all-new_kmeans :
      (p : List Point) (calls : List Setter)
      → NoZero calls
      → Gives
          (InStep (last_points calls p) (last_features calls 0))
          (set_all (points p ∷ calls) (new_kmeans E))
  unfolding set_all set_points
  set_all-new_kmeans p calls z =
      set_all-InStep calls p 0 (set_points E p (new_kmeans E)) z
        (record { host_points = refl; num_features = refl; num_points = λ pos. absurd (pos refl) })

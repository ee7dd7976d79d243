-- ===== src/ThreeStage/Lloyd.antt =====
-- Lloyd's algorithm with the kernels of the three-stage driver, on one set of vectors.
use cl_kmeans.Prelude.{ℕ, zero, suc, ◌*◌, List, [], ◌∷◌, map, length, ◌≡◌, ◌∙◌, refl, ap}
use cl_kmeans.ThreeStage.BufferMap.{Elements}
use cl_kmeans.ThreeStage.Run.{Kernels, Host}

-- The kernels keep the lengths of what they write.
pub record KeepsLengths (E : Elements) (K : Kernels E) : Type 0 where
  pub labeling : (p c : List E.Point) (l : List E.Label) → length (K.labeling p c l) ≡ length l
  pub mass_update : (l : List E.Label) (m : List E.Mass) → length (K.mass_update l m) ≡ length m
  pub centroid_update :
      (p c : List E.Point) (l : List E.Label) (m : List E.Mass)
      → length (K.centroid_update p c l m) ≡ length c
  pub divide : (c : List E.Point) (m : List E.Mass) → length (K.divide c m) ≡ length c

pub length-fill : {A B : Type 0} (z : B) (xs : List A) → length (map (λ _. z) xs) ≡ length xs
length-fill z [] = refl
length-fill z (x ∷ xs) = ap suc (length-fill z xs)

module _ (E : Elements) where
  open E use {Point, Label, Mass, zero_point, zero_mass}

  pub record Working : Type 0 where
    pub centroids : List Point
    pub labels : List Label
    pub masses : List Mass

  pub record Sized (F N C : ℕ) (v : Working) : Type 0 where
    pub centroids : length v.centroids ≡ C * F
    pub labels : length v.labels ≡ N
    pub masses : length v.masses ≡ C

  -- What a driver leaves on the host.
  abbrev pub answer : Host E → Working → Host E
  answer host v = record host {
    host_centroids = v.centroids;
    host_labels = v.labels;
    host_masses = v.masses;
  }

  module _ (K : Kernels E) where
    unfoldable pub lloyd_step : (points : List Point) → Working → Working
    lloyd_step points v =
        let labels = K.labeling points v.centroids v.labels in
        let masses = K.mass_update labels (map (λ _. zero_mass) v.masses) in
        record {
          centroids =
              K.divide (K.centroid_update points (map (λ _. zero_point) v.centroids) labels masses)
                masses;
          labels = labels;
          masses = masses;
        }

    unfoldable pub lloyd : (rounds : ℕ) → (points : List Point) → Working → Working
    lloyd zero points v = v
    lloyd (suc n) points v = lloyd_step points (lloyd n points v)

    module _ (keeps : KeepsLengths E K) (F N C : ℕ) (points : List Point) where
      lloyd_step-Sized : (v : Working) → Sized F N C v → Sized F N C (lloyd_step points v)
      unfolding lloyd_step
      lloyd_step-Sized v h = record {
        centroids =
            keeps.divide _ _
            ∙ keeps.centroid_update _ _ _ _
            ∙ length-fill zero_point v.centroids
            ∙ h.centroids;
        labels = keeps.labeling _ _ _ ∙ h.labels;
        masses = keeps.mass_update _ _ ∙ length-fill zero_mass v.masses ∙ h.masses;
      }

      pub lloyd-Sized : (n : ℕ) (v : Working) → Sized F N C v → Sized F N C (lloyd n points v)
      unfolding lloyd
      lloyd-Sized zero v h = h
      lloyd-Sized (suc n) v h = lloyd_step-Sized _ (lloyd-Sized n v h)

-- ===== src/SingleStage/Stages.antt =====
-- The loop of the single-stage driver against rounds on one set of vectors.
use cl_kmeans.Prelude.{
  ℕ, zero, suc, ◌*◌, List, [], ◌∷◌, Option, none, some, map, length, ◌==◌, ==_iff, Bool-cases, inl,
  inr, ◌≡◌, ◌∙◌, refl, sym, ap, subst, for_range, Gives, Gives-eq, Gives-loop, arith,
}
use cl_kmeans.ThreeStage.BufferMap.{Elements}
use cl_kmeans.ThreeStage.Run.{Host}
use cl_kmeans.ThreeStage.Copies.{copy_values_all}
use cl_kmeans.ThreeStage.Lloyd.{length-fill, Working, Sized, answer}
use cl_kmeans.SingleStage.BufferManager.{
  reused, BufferManager, get_centroids, get_labels, get_masses,
}
use cl_kmeans.SingleStage.Run.{FusedKernels, fused_stage, copy_back}

-- The kernels keep the lengths of what they write.
pub record KeepsLengths (E : Elements) (G : FusedKernels E) : Type 0 where
  pub fused :
      (p c c' : List E.Point) (l : List E.Label) (m : List E.Mass)
      → (length (G.fused p c c' l m).0 ≡ length c')
        × (length (G.fused p c c' l m).1 ≡ length l)
        × (length (G.fused p c c' l m).2 ≡ length m)
  pub divide : (c : List E.Point) (m : List E.Mass) → length (G.divide c m) ≡ length c

module _ {T : Type 0} where
  pub length-reused :
      (n : ℕ) (fresh : List T) (o : Option (List T))
      → length fresh ≡ n
      → length (reused n fresh o) ≡ n
  length-reused n fresh none h = h
  length-reused n fresh (some v) h = elim (Bool-cases (length v == n)) [
    | inl b ↦ rw b ((==_iff (length v) n).0 b)
    | inr b ↦ rw b h
  ]

  -- Lists of one length are filled alike.
  fill_alike : (z : T) (x y : List T) → length x ≡ length y → map (λ _. z) x ≡ map (λ _. z) y
  fill_alike z [] [] h = refl
  fill_alike z [] (b ∷ y) h = absurd (omega (arith, h))
  fill_alike z (a ∷ x) [] h = absurd (omega (arith, h))
  fill_alike z (a ∷ x) (b ∷ y) h = ap (◌∷◌ z) (fill_alike z x y (omega (arith, h)))

module _ (E : Elements) (G : FusedKernels E) where
  open E use {Point, Label, Mass, zero_point, zero_mass}

  -- A round on one set of vectors: the fused kernel adds to centroids and masses of zeros.
  unfoldable pub fused_step : (points : List Point) → Working E → Working E
  fused_step points v =
      let (sums, labels, masses) =
        G.fused points v.centroids (map (λ _. zero_point) v.centroids) v.labels
          (map (λ _. zero_mass) v.masses) in
      record { centroids = G.divide sums masses; labels = labels; masses = masses }

  unfoldable pub fused_rounds : (n : ℕ) → (points : List Point) → Working E → Working E
  fused_rounds zero points v = v
  fused_rounds (suc n) points v = fused_step points (fused_rounds n points v)

module _ (E : Elements) (G : FusedKernels E) (keeps : KeepsLengths E G) where
  open E use {Point, Label, Mass, zero_point, zero_label, zero_mass, uninitialised}

  module _ (F N C : ℕ) (points : List Point) where
    abbrev pub held : (spare : List Point) → Working E → BufferManager E
    held spare v = record {
      num_features = F;
      num_points = N;
      num_clusters = C;
      points = some points;
      centroids = some v.centroids;
      new_centroids = some spare;
      labels = some v.labels;
      masses = some v.masses;
    }

    fused_stage_lem :
        (i : ℕ) (spare : List Point) (v : Working E)
        → length spare ≡ length v.centroids
        → fused_stage E G i (held spare v) ≡ some (held v.centroids (fused_step E G points v))
    unfolding fused_stage fused_step
    fused_stage_lem i spare v h = rw (fill_alike zero_point spare v.centroids h) refl

    fused_step-Sized : (v : Working E) → Sized E F N C v → Sized E F N C (fused_step E G points v)
    unfolding fused_step
    fused_step-Sized v h =
        let kept =
          keeps.fused points v.centroids (map (λ _. zero_point) v.centroids) v.labels
            (map (λ _. zero_mass) v.masses) in
        record {
          centroids = keeps.divide _ _ ∙ kept.0 ∙ length-fill zero_point v.centroids ∙ h.centroids;
          labels = kept.1 ∙ h.labels;
          masses = kept.2 ∙ length-fill zero_mass v.masses ∙ h.masses;
        }

    pub fused_rounds-Sized :
        (n : ℕ) (v : Working E) → Sized E F N C v → Sized E F N C (fused_rounds E G n points v)
    unfolding fused_rounds
    fused_rounds-Sized zero v h = h
    fused_rounds-Sized (suc n) v h = fused_step-Sized _ (fused_rounds-Sized n v h)

    pub loop-held :
        (n : ℕ) (spare : List Point) (v : Working E)
        → Sized E F N C v
        → length spare ≡ C * F
        → Gives
            (λ b.
              (s : List Point) × (length s ≡ C * F) × (b ≡ held s (fused_rounds E G n points v)))
            (for_range 0 n (fused_stage E G) (held spare v))
    unfolding fused_rounds
    loop-held n spare v h k =
        let Kept : ℕ → BufferManager E → Type 0 = λ i b.
          (s : List Point) × (length s ≡ C * F) × (b ≡ held s (fused_rounds E G i points v)) in
        Gives-loop Kept n (fused_stage E G) (held spare v)
          (λ i b _ (s, ls, e).
            let w : Sized E F N C (fused_rounds E G i points v) = fused_rounds-Sized i v h in
            subst (λ b. Gives (Kept (suc i)) (fused_stage E G i b)) (sym e)
              (Gives-eq (Kept (suc i))
                (fused_stage_lem i s (fused_rounds E G i points v) (ls ∙ sym w.centroids))
                ((fused_rounds E G i points v).centroids, w.centroids, refl)))
          (spare, k, refl)

    pub copy_back_lem :
        (host : Host E) (s : List Point) (v : Working E)
        → Sized E F N C v
        → length host.host_centroids ≡ C * F
        → length host.host_labels ≡ N
        → length host.host_masses ≡ C
        → copy_back E G host (held s v) ≡ some (answer E host v)
    unfolding copy_back get_centroids get_labels get_masses
    copy_back_lem host s v h hc hl hm =
        rw
          (
            copy_values_all (C * F) v.centroids host.host_centroids h.centroids hc,
            copy_values_all N v.labels host.host_labels h.labels hl,
            copy_values_all C v.masses host.host_masses h.masses hm,
          )
          refl

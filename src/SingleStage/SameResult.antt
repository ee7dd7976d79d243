-- ===== src/SingleStage/SameResult.antt =====
-- `KmeansSingleStage::run` against rounds on one set of vectors.
use cl_kmeans.Prelude.{
  ℕ, ◌*◌, ◌^◌, ◌<◌, List, Option, none, some, length, replicate, length-replicate, ◌≡◌, ◌∙◌, refl,
  sym, subst, arith, ◌>>=◌, for_range, for_uint32-for_range, Gives, Gives-bind, Gives-eq,
  Gives-result,
}
use cl_kmeans.ThreeStage.BufferMap.{Elements}
use cl_kmeans.ThreeStage.Run.{Host}
use cl_kmeans.ThreeStage.Copies.{copy_values_all}
use cl_kmeans.ThreeStage.Lloyd.{Working, Sized, answer}
use cl_kmeans.ThreeStage.OneQueue.{first_centroids, KeepsCentroids}
use cl_kmeans.SingleStage.BufferManager.{
  reused, BufferManager, set_parameters, set_points_buffer, set_centroids_buffer,
  set_new_centroids_buffer, set_labels_buffer, set_masses_buffer,
}
use cl_kmeans.SingleStage.Run.{
  FusedKernels, fused_stage, initialize_centroids, set_up, copy_back, run_single_stage,
}
use cl_kmeans.SingleStage.Stages.{
  KeepsLengths, length-reused, fused_rounds, held, fused_rounds-Sized, loop-held, copy_back_lem,
}

module _ (E : Elements) (G : FusedKernels E) (keeps : KeepsLengths E G)
    (uninitialised_length : (n : ℕ) → length (E.uninitialised n) ≡ n) where
  open E use {Point, Label, Mass, zero_point, zero_label, zero_mass, uninitialised}

  -- What the loop starts from, where `old` is the vector of labels that an earlier run left.
  abbrev pub first :
      Option (List Point → List Point → List Point)
      → (N C : ℕ) → Option (List Label)
      → Host E
      → Working E
  first initializer N C old host = record {
    centroids = first_centroids initializer host.host_points host.host_centroids;
    labels = reused N (replicate N zero_label) old;
    masses = replicate C zero_mass;
  }

  set_up_lem :
      (F N C : ℕ) (initializer : Option (List Point → List Point → List Point)) (host : Host E)
      (b : BufferManager E)
      → set_up E G F N C initializer host b
        ≡ some (
            held E G keeps F N C host.host_points
              (replicate (C * F) zero_point)
              (first initializer N C b.labels host))
  unfolding set_up set_parameters set_points_buffer set_centroids_buffer set_new_centroids_buffer
      set_labels_buffer set_masses_buffer initialize_centroids
  set_up_lem F N C initializer host b =
      let pts = host.host_points in
      let cents = host.host_centroids in
      let old_length : length (reused (length pts) (uninitialised (length pts)) b.points)
          ≡ length pts =
        length-reused _ _ b.points (uninitialised_length _) in
      rw
        (
          copy_values_all (length pts) pts _ refl old_length,
          copy_values_all (length cents) cents _ refl (uninitialised_length _),
        )
        (elim initializer
          as (λ o.
            initialize_centroids E G o (
              held E G keeps F N C pts (replicate (C * F) zero_point)
                (first none N C b.labels host))
            ≡ some (
                held E G keeps F N C pts (replicate (C * F) zero_point)
                  (first o N C b.labels host))) [ none ↦ refl | some f ↦ refl ])

  -- For kernels that keep the lengths of what they write, an initializer that keeps the number of
  -- the centroids, new vectors of the length asked for, host vectors of num_clusters *
  -- num_features centroids, num_points labels and num_clusters masses, and max_iterations below
  -- 2^32: run of the single-stage driver, which swaps two vectors of centroids, gives the
  -- centroids, labels and masses of max_iterations rounds on one set of vectors, from the
  -- initializer's centroids if there is one and the host's otherwise. In a round the fused kernel
  -- works on the old centroids and labels and on new centroids and masses of zeros, and the
  -- new centroids are divided by the masses. The labels start from those that an earlier run left,
  -- if there are num_points of them, and from zeros otherwise.
  pub run_single_stage-fused_rounds :
      (F N C max_iterations : ℕ) (initializer : Option (List Point → List Point → List Point))
      (host : Host E) (b : BufferManager E)
      → max_iterations < 2 ^ 32
      → KeepsCentroids initializer
      → length host.host_centroids ≡ C * F
      → length host.host_labels ≡ N
      → length host.host_masses ≡ C
      → run_single_stage E G F N C max_iterations initializer host b
        ≡ some (
            answer E host (
              fused_rounds E G max_iterations host.host_points
                (first initializer N C b.labels host)))
  unfolding run_single_stage KeepsCentroids
  run_single_stage-fused_rounds F N C n initializer host b bound hi hc hl hm =
      let v = first initializer N C b.labels host in
      let pts = host.host_points in
      let spare = replicate (C * F) zero_point in
      let sized : Sized E F N C v = record {
        centroids = hi _ _ ∙ hc;
        labels = length-reused N _ b.labels (length-replicate N zero_label);
        masses = length-replicate C zero_mass;
      } in
      let P : Host E → Type 0 = λ r. r ≡ answer E host (fused_rounds E G n pts v) in
      let run : Option (Host E) = (do
        done ← for_range 0 n (fused_stage E G) (held E G keeps F N C pts spare v)
        copy_back E G host done) in
      let counted =
        for_uint32-for_range n 0 n (fused_stage E G) (held E G keeps F N C pts spare v)
          (omega arith) bound in
      rw (set_up_lem F N C initializer host b, counted)
        (Gives-result run (
          Gives-bind P _ (for_range 0 n (fused_stage E G) (held E G keeps F N C pts spare v)) _
            (loop-held E G keeps F N C pts n spare v sized (length-replicate (C * F) zero_point))
            (λ t (s, _, e).
              subst (λ t. Gives P (copy_back E G host t)) (sym e)
                (Gives-eq P
                  (copy_back_lem E G keeps F N C pts host s _
                    (fused_rounds-Sized E G keeps F N C pts n v sized) hc hl hm)
                  refl))))

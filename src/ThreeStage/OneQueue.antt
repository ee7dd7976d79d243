-- ===== src/ThreeStage/OneQueue.antt =====
-- `KmeansThreeStage::run` with one queue for its phases.
use cl_kmeans.Prelude.{
  ℕ, ◌*◌, ◌^◌, ◌<◌, true, List, Option, none, some, map, length, replicate, length-replicate, ◌≡◌,
  ◌∙◌, refl, sym, ap, subst, arith, beq_eq, if◌then◌else◌, ◌>>=◌, for_range, for_uint32-for_range,
  Gives, Gives-bind, Gives-eq, Gives-loop, Gives-result,
}
use cl_kmeans.ThreeStage.BufferMap.{
  Phase, ll, mu, cu, same_phase, Elements, BufferMap, queues_map, point_refs, label_refs, mass_refs,
  copy_values, set_queues, set_parameters, set_points_buffer, set_centroids_buffer,
  set_labels_buffer, set_masses_buffer, get_centroids, get_labels, get_masses, sync_centroids,
  sync_labels, sync_masses,
}
use cl_kmeans.ThreeStage.Run.{
  Kernels, Host, label_stage, fill_stage, mass_stage, centroid_stage, three_stages,
  initialize_centroids, set_up, copy_back, run_three_stage,
}
use cl_kmeans.ThreeStage.Copies.{copy_values_all}
use cl_kmeans.ThreeStage.Lloyd.{
  KeepsLengths, Working, Sized, answer, lloyd_step, lloyd, lloyd-Sized,
}

module _ {T : Type 0} where
  -- The centroids that the loop starts from.
  abbrev pub first_centroids :
      Option (List T → List T → List T) → (points centroids : List T) → List T
  first_centroids none points centroids = centroids
  first_centroids (some initializer) points centroids = initializer points centroids

-- An initializer keeps the number of the centroids.
unfoldable pub KeepsCentroids : {T : Type 0} → Option (List T → List T → List T) → Type 0
KeepsCentroids {T = T} initializer =
    (p c : List T) → length (first_centroids initializer p c) ≡ length c

module _ (E : Elements) (K : Kernels E) (F N C : ℕ) where
  open E use {Point, Label, Mass, zero_point, zero_label, zero_mass, uninitialised}

  one_map :
      (queue : Phase → ℕ) → ((p q : Phase) → queue p ≡ queue q) → queues_map E queue ≡ (λ p q. true)
  unfolding queues_map
  one_map queue h = λ j p q. same p q j
    where
      same : (p q : Phase) → queues_map E queue p q ≡ true
      same ll ll = refl
      same ll mu = beq_eq (h ll mu)
      same ll cu = beq_eq (h ll cu)
      same mu ll = beq_eq (h mu ll)
      same mu mu = refl
      same mu cu = beq_eq (h mu cu)
      same cu ll = beq_eq (h cu ll)
      same cu mu = beq_eq (h cu mu)
      same cu cu = refl

  -- The state of the vectors of one queue: each phase finds the same.
  abbrev state :
      (p c : Phase → List Point) (l : Phase → List Label) (m : Phase → List Mass) → BufferMap E
  state p c l m = record {
    num_features = F;
    num_points = N;
    num_clusters = C;
    device_map = λ p q. true;
    points = record { refs = point_refs E true; cells = p };
    centroids = record { refs = point_refs E true; cells = c };
    labels = record { refs = label_refs E (λ p q. true); cells = l };
    masses = record { refs = mass_refs E (λ p q. true); cells = m };
  }

  module _ (points : List Point) where
    record Holds (v : Working E) (s : BufferMap E) : Type 0 where
      p : Phase → List Point
      c : Phase → List Point
      l : Phase → List Label
      m : Phase → List Mass
      is : s ≡ state p c l m
      first_points : p ll ≡ points
      centroids : c ll ≡ v.centroids
      labels : l ll ≡ v.labels
      masses : m mu ≡ v.masses

    three_stages-Holds :
        (i : ℕ) (v : Working E) (s : BufferMap E)
        → Holds v s
        → Gives (Holds (lloyd_step E K points v)) (three_stages E K i s)
    unfolding three_stages lloyd_step sync_centroids sync_labels sync_masses label_stage fill_stage
        mass_stage centroid_stage
    three_stages-Holds i v s h =
        subst (λ s. Gives (Holds (lloyd_step E K points v)) (three_stages E K i s)) (sym h.is)
          (record {
            p = h.p;
            c = _;
            l = _;
            m = _;
            is = refl;
            first_points = h.first_points;
            centroids = λ j.
                let labels = K.labeling (h.first_points j) (h.centroids j) (h.labels j) in
                let masses = K.mass_update labels (map (λ _. zero_mass) (h.masses j)) in
                K.divide
                  (K.centroid_update (h.first_points j) (map (λ _. zero_point) (h.centroids j))
                    labels masses)
                  masses;
            labels = λ j. K.labeling (h.first_points j) (h.centroids j) (h.labels j);
            masses = λ j.
                K.mass_update (K.labeling (h.first_points j) (h.centroids j) (h.labels j))
                  (map (λ _. zero_mass) (h.masses j));
          })

    loop-Holds :
        (n : ℕ) (v : Working E) (s : BufferMap E)
        → Holds v s
        → Gives (Holds (lloyd E K n points v)) (for_range 0 n (three_stages E K) s)
    unfolding lloyd
    loop-Holds n v s h =
        Gives-loop (λ i t. Holds (lloyd E K i points v) t) n (three_stages E K) s
          (λ i t _ k. three_stages-Holds i (lloyd E K i points v) t k) h

    copy_back_lem :
        (host : Host E) (v : Working E) (s : BufferMap E)
        → Sized E F N C v
        → Sized E F N C (record {
          centroids = host.host_centroids;
          labels = host.host_labels;
          masses = host.host_masses;
        })
        → Holds v s
        → copy_back E K host s ≡ some (answer E host v)
    unfolding copy_back get_centroids get_labels get_masses
    copy_back_lem host v s z h k =
        subst (λ s. copy_back E K host s ≡ some (answer E host v)) (sym k.is)
          (rw
            (
              copy_values_all (C * F) (k.c ll) host.host_centroids
                  (ap length k.centroids ∙ z.centroids) h.centroids,
              copy_values_all N (k.l ll) host.host_labels (ap length k.labels ∙ z.labels) h.labels,
              copy_values_all C (k.m mu) host.host_masses (ap length k.masses ∙ z.masses) h.masses,
            )
            (λ j. some (record host {
              host_centroids = k.centroids j;
              host_labels = k.labels j;
              host_masses = k.masses j;
            })))

module _ (E : Elements) (K : Kernels E) (keeps : KeepsLengths E K)
    (uninitialised_length : (n : ℕ) → length (E.uninitialised n) ≡ n) where
  open E use {Point, Label, Mass, zero_label, zero_mass, uninitialised}

  -- What the loop starts from.
  abbrev pub first : Option (List Point → List Point → List Point) → (N C : ℕ) → Host E → Working E
  first initializer N C host = record {
    centroids = first_centroids initializer host.host_points host.host_centroids;
    labels = replicate N zero_label;
    masses = replicate C zero_mass;
  }

  copied : (buf : List Point) → copy_values (length buf) buf (uninitialised (length buf)) ≡ some buf
  copied buf =
      copy_values_all (length buf) buf (uninitialised (length buf)) refl (uninitialised_length _)

  set_up-Holds :
      (queue : Phase → ℕ) (F N C : ℕ) (initializer : Option (List Point → List Point → List Point))
      (host : Host E) (b : BufferMap E)
      → ((p q : Phase) → queue p ≡ queue q)
      → Gives
          (Holds E K F N C host.host_points (first initializer N C host))
          (set_up E K queue F N C initializer host b)
  unfolding set_up set_queues set_parameters set_points_buffer set_centroids_buffer
      set_labels_buffer set_masses_buffer initialize_centroids
  set_up-Holds queue F N C initializer host b one =
      let sized : BufferMap E = record b { num_features = F; num_points = N; num_clusters = C } in
      let Q : Option (List Point → List Point → List Point) → BufferMap E → Type 0 =
        λ i. Holds E K F N C host.host_points (first i N C host) in
      subst
        (λ d. Gives (Q initializer) (do
          b₁ ← set_points_buffer E host.host_points (record sized { device_map = d })
          b₂ ← set_centroids_buffer E host.host_centroids b₁
          initialize_centroids E K initializer (set_masses_buffer E (set_labels_buffer E b₂))))
        (sym (one_map E K F N C queue one))
        (rw (copied host.host_points, copied host.host_centroids)
          (elim initializer
            as (λ i. Gives (Q i) (
              initialize_centroids E K i (
                state E K F N C
                  (λ q.
                    if same_phase q ll
                    then host.host_points
                    else uninitialised (length host.host_points))
                  (λ q.
                    if same_phase q ll
                    then host.host_centroids
                    else uninitialised (length host.host_centroids))
                  (λ q. replicate N zero_label) (λ q. replicate C zero_mass)))) [
                    | none ↦ record {
                      p = _;
                      c = _;
                      l = _;
                      m = _;
                      is = refl;
                      first_points = refl;
                      centroids = refl;
                      labels = refl;
                      masses = refl;
                    }
                    | some f ↦ record {
                      p = _;
                      c = _;
                      l = _;
                      m = _;
                      is = refl;
                      first_points = refl;
                      centroids = refl;
                      labels = refl;
                      masses = refl;
                    }
                  ]))

  -- For kernels that keep the lengths of what they write, an initializer that keeps the number of
  -- the centroids, new vectors of the length asked for, host vectors of num_clusters *
  -- num_features centroids, num_points labels and num_clusters masses, and max_iterations below
  -- 2^32: run of the three-stage driver with one queue for all phases gives the centroids, labels
  -- and masses of max_iterations rounds of Lloyd's algorithm on one set of vectors, from the
  -- initializer's centroids if there is one and the host's otherwise.
  pub run_three_stage-lloyd :
      (queue : Phase → ℕ) (F N C max_iterations : ℕ)
      (initializer : Option (List Point → List Point → List Point)) (host : Host E)
      (b : BufferMap E)
      → ((p q : Phase) → queue p ≡ queue q)
      → max_iterations < 2 ^ 32
      → KeepsCentroids initializer
      → length host.host_centroids ≡ C * F
      → length host.host_labels ≡ N
      → length host.host_masses ≡ C
      → run_three_stage E K queue F N C max_iterations initializer host b
        ≡ some
            (answer E host (lloyd E K max_iterations host.host_points (first initializer N C host)))
  unfolding run_three_stage KeepsCentroids
  run_three_stage-lloyd queue F N C n initializer host b one bound hi hc hl hm =
      let v = first initializer N C host in
      let points = host.host_points in
      let P : Host E → Type 0 = λ r. r ≡ answer E host (lloyd E K n points v) in
      let sized : Sized E F N C v = record {
        centroids = hi _ _ ∙ hc;
        labels = length-replicate N zero_label;
        masses = length-replicate C zero_mass;
      } in
      Gives-result _ (
        Gives-bind P (Holds E K F N C points v) (set_up E K queue F N C initializer host b) _
          (set_up-Holds queue F N C initializer host b one)
          (λ s h. rw (for_uint32-for_range n 0 n (three_stages E K) s (omega arith) bound) (
            Gives-bind P (Holds E K F N C points (lloyd E K n points v))
              (for_range 0 n (three_stages E K) s) _ (loop-Holds E K F N C points n v s h)
              (λ t k.
                Gives-eq P
                  (copy_back_lem E K F N C points host (lloyd E K n points v) t
                    (lloyd-Sized E K keeps F N C points n v sized)
                    (record { centroids = hc; labels = hl; masses = hm }) k)
                  refl))))

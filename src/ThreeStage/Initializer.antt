-- ===== src/ThreeStage/Initializer.antt =====
-- The centroids of the initializer, where labeling and centroid update have different queues.
use cl_kmeans.Prelude.{ℕ, false, List, length, replicate, ◌≡◌, if◌then◌else◌, ◌>>=◌}
use cl_kmeans.ThreeStage.BufferMap.{
  Phase, ll, cu, same_phase, Elements, BufferMap, queues_map, point_refs, label_refs, mass_refs,
}
use cl_kmeans.ThreeStage.Run.{Kernels, Host}

module _ (E : Elements) (K : Kernels E) where
  open E use {Point, Label, Mass, zero_label, zero_mass, uninitialised}

  -- With two vectors of centroids.
  abbrev with_centroids : BufferMap E → (Phase → List Point) → BufferMap E
  with_centroids s c = record s { centroids = record { refs = point_refs E false; cells = c } }

  abbrev first_put : (Phase → List Point) → List Point → Phase → List Point
  first_put c y q = if same_phase q ll then y else c q

module _ (E : Elements) (K : Kernels E)
    (uninitialised_length : (n : ℕ) → length (E.uninitialised n) ≡ n) where
  open E use {Point, Label, Mass, zero_label, zero_mass, uninitialised}

  abbrev twice : List Point → Phase → List Point
  twice buf q =
      if same_phase q cu then buf else (if same_phase q ll then buf else uninitialised (length buf))

  abbrev ready : (queue : Phase → ℕ) → (F N C : ℕ) → Host E → BufferMap E
  ready queue F N C host = record {
    num_features = F;
    num_points = N;
    num_clusters = C;
    device_map = queues_map E queue;
    points = record { refs = point_refs E false; cells = twice host.host_points };
    centroids = record { refs = point_refs E false; cells = twice host.host_centroids };
    labels = record {
      refs = label_refs E (queues_map E queue);
      cells = λ q. replicate N zero_label;
    };
    masses = record { refs = mass_refs E (queues_map E queue); cells = λ q. replicate C zero_mass };
  }

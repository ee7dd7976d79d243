-- ===== src/ThreeStage/BufferMap.antt =====
-- `KmeansThreeStage::BufferMap` (kmeans_three_stage.hpp): the vectors of the three phases, some of
-- which are one and the same.
use cl_kmeans.Prelude.{
  ℕ, zero, suc, ◌*◌, Bool, true, false, not, ◌&&◌, List, [], ◌∷◌, Option, none, some, leb, ◌==◌,
  length, replicate, if◌then◌else◌, ◌>>=◌,
}

pub data Phase : Type 0 where
  ll : Phase
  mu : Phase
  cu : Phase

abbrev pub same_phase : Phase → Phase → Bool
same_phase ll ll = true
same_phase mu mu = true
same_phase cu cu = true
same_phase _ _ = false

-- The vectors of the phases: each phase has a null pointer, or the vector that was allocated for
-- the phase `refs` names.
pub record Vectors (T : Type 0) : Type 0 where
  pub refs : Phase → Option Phase
  pub cells : Phase → List T

module _ {T : Type 0} where
  abbrev pub get_vector : Vectors T → Phase → Option (List T)
  get_vector v p = do o ← v.refs p; some (v.cells o)

  abbrev pub set_vector : Vectors T → Phase → List T → Option (Vectors T)
  set_vector v p x = do
    o ← v.refs p
    some (record v { cells = λ q. if same_phase q o then x else v.cells q })

  abbrev pub overwrite : (n : ℕ) → (src dst : List T) → List T
  overwrite zero src dst = dst
  overwrite (suc n) [] dst = dst
  overwrite (suc n) (x ∷ src) [] = []
  overwrite (suc n) (x ∷ src) (y ∷ dst) = x ∷ overwrite n src dst

  -- A copy of the first `n` values.
  unfoldable pub copy_values : (n : ℕ) → (src dst : List T) → Option (List T)
  copy_values n src dst =
      if leb n (length src) && leb n (length dst) then some (overwrite n src dst) else none

  -- Between the vectors of two phases.
  abbrev pub copy_vector : (n : ℕ) → (src dst : Phase) → Vectors T → Option (Vectors T)
  copy_vector n src dst v = do
    from ← get_vector v src
    to ← get_vector v dst
    to' ← copy_values n from to
    set_vector v dst to'

  -- From a vector of the host.
  abbrev pub copy_host : (src : List T) → (dst : Phase) → Vectors T → Option (Vectors T)
  copy_host src dst v = do
    to ← get_vector v dst
    to' ← copy_values (length src) src to
    set_vector v dst to'

-- The values of the program; what OpenCL and its library do: the memory that a new vector finds,
-- whether the device of a phase's queue is a CPU, whether a wait for a future without an event returns, and
-- what `assign` with a buffer on mapped memory leaves in a vector of labels.
pub record Elements : Type 1 where
  pub Point : Type 0
  pub Label : Type 0
  pub Mass : Type 0
  pub zero_point : Point
  pub zero_label : Label
  pub zero_mass : Mass
  pub uninitialised : (n : ℕ) → List Point
  pub cpu : Phase → Bool
  pub wait_unassigned : Bool
  pub assign_mapped : (src dst : List Label) → Option (List Label)

module _ (E : Elements) where
  open E use {
    Point, Label, Mass, zero_label, zero_mass, uninitialised, cpu, wait_unassigned, assign_mapped,
  }

  pub record BufferMap : Type 0 where
    pub num_features : ℕ
    pub num_points : ℕ
    pub num_clusters : ℕ
    pub device_map : Phase → Phase → Bool
    pub points : Vectors Point
    pub centroids : Vectors Point
    pub labels : Vectors Label
    pub masses : Vectors Mass

  -- By the numbers of the queues.
  unfoldable pub queues_map : (queue : Phase → ℕ) → Phase → Phase → Bool
  queues_map queue ll ll = true
  queues_map queue ll mu = queue ll == queue mu
  queues_map queue ll cu = queue ll == queue cu
  queues_map queue mu ll = queue mu == queue ll
  queues_map queue mu mu = true
  queues_map queue mu cu = queue mu == queue cu
  queues_map queue cu ll = queue cu == queue ll
  queues_map queue cu mu = queue cu == queue mu
  queues_map queue cu cu = true

  unfoldable pub set_queues : (queue : Phase → ℕ) → BufferMap → BufferMap
  unfolding queues_map
  set_queues queue b = record b { device_map = queues_map queue }

  unfoldable pub set_parameters : (num_features num_points num_clusters : ℕ) → BufferMap → BufferMap
  set_parameters num_features num_points num_clusters b = record b {
    num_features = num_features;
    num_points = num_points;
    num_clusters = num_clusters;
  }

  -- The points and the centroids: of `ll`, none of `mu`, and of `cu`.
  abbrev pub point_refs : (shared : Bool) → Phase → Option Phase
  point_refs shared ll = some ll
  point_refs shared mu = none
  point_refs shared cu = if shared then some ll else some cu

  unfoldable pub set_points_buffer : (buf : List Point) → BufferMap → Option BufferMap
  set_points_buffer buf b = do
    let v : Vectors Point = record {
      refs = point_refs (b.device_map ll cu);
      cells = λ p. uninitialised (length buf);
    }
    v' ← copy_host buf ll v
    v'' ← if not (b.device_map ll cu) then copy_host buf cu v' else some v'
    some (record b { points = v'' })

  unfoldable pub set_centroids_buffer : (buf : List Point) → BufferMap → Option BufferMap
  set_centroids_buffer buf b = do
    let v : Vectors Point = record {
      refs = point_refs (b.device_map cu ll);
      cells = λ p. uninitialised (length buf);
    }
    v' ← copy_host buf ll v
    v'' ← if not (b.device_map ll cu) then copy_host buf cu v' else some v'
    some (record b { centroids = v'' })

  abbrev pub label_ref_mu : (device_map : Phase → Phase → Bool) → Option Phase
  label_ref_mu device_map = if device_map mu ll then some ll else some mu

  abbrev pub label_refs : (device_map : Phase → Phase → Bool) → Phase → Option Phase
  label_refs device_map ll = some ll
  label_refs device_map mu = label_ref_mu device_map
  label_refs device_map cu =
      if device_map cu ll
      then some ll
      else if device_map cu mu
      then label_ref_mu device_map
      else some cu

  unfoldable pub set_labels_buffer : BufferMap → BufferMap
  set_labels_buffer b = record b {
    labels = record {
      refs = label_refs b.device_map;
      cells = λ p. replicate b.num_points zero_label;
    };
  }

  abbrev pub mass_refs : (device_map : Phase → Phase → Bool) → Phase → Option Phase
  mass_refs device_map ll = none
  mass_refs device_map mu = some mu
  mass_refs device_map cu = if device_map cu mu then some mu else some cu

  unfoldable pub set_masses_buffer : BufferMap → BufferMap
  set_masses_buffer b = record b {
    masses = record {
      refs = mass_refs b.device_map;
      cells = λ p. replicate b.num_clusters zero_mass;
    };
  }

  -- The branch for a CPU copies from the mapped vector, which is the same.
  unfoldable pub sync_centroids : BufferMap → Option BufferMap
  sync_centroids b = do
    v ←
        if not (b.device_map cu ll)
        then copy_vector (b.num_clusters * b.num_features) cu ll b.centroids
        else some b.centroids
    some (record b { centroids = v })

  -- A copy of all labels.
  abbrev pub copy_labels : (dst : Phase) → Vectors Label → Option (Vectors Label)
  copy_labels dst v = do from ← get_vector v ll; copy_vector (length from) ll dst v

  -- Where the device of the second phase is a CPU.
  abbrev pub assign_labels : Vectors Label → Option (Vectors Label)
  assign_labels v = do
    from ← get_vector v ll
    to ← get_vector v mu
    to' ← assign_mapped from to
    set_vector v mu to'

  -- For the last phase, a copy of the labels; for a CPU it is one to the mapped vector, and for
  -- another device the source then waits for a future to which nothing was assigned.
  abbrev pub last_labels : Vectors Label → Option (Vectors Label)
  last_labels v = do
    v' ← copy_labels cu v
    if cpu cu then some v' else (if wait_unassigned then some v' else none)

  unfoldable pub sync_labels : BufferMap → Option BufferMap
  sync_labels b = do
    v ←
        if not (b.device_map ll mu)
        then (if cpu mu then assign_labels b.labels else copy_labels mu b.labels)
        else some b.labels
    v' ← if not (b.device_map ll cu) && not (b.device_map mu cu) then last_labels v else some v
    some (record b { labels = v' })

  unfoldable pub sync_masses : BufferMap → Option BufferMap
  sync_masses b = do
    v ←
        if not (b.device_map mu cu)
        then copy_vector b.num_clusters mu cu b.masses
        else some b.masses
    some (record b { masses = v })

  -- To the host, which has room for them.
  unfoldable pub get_centroids : (buf : List Point) → BufferMap → Option (List Point)
  get_centroids buf b = do
    from ← get_vector b.centroids cu
    copy_values (b.num_clusters * b.num_features) from buf

  unfoldable pub get_labels : (buf : List Label) → BufferMap → Option (List Label)
  get_labels buf b = do from ← get_vector b.labels ll; copy_values b.num_points from buf

  unfoldable pub get_masses : (buf : List Mass) → BufferMap → Option (List Mass)
  get_masses buf b = do from ← get_vector b.masses mu; copy_values b.num_clusters from buf

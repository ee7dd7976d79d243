-- ===== src/Device/Masses.antt =====
-- The mass updates count the points of each cluster.
use cl_kmeans.Prelude.{
  ℕ, ◌+◌, ◌-◌, ◌%◌, ◌^◌, ◌<◌, ◌≤◌, List, Bool, ◌≡◌, ==_iff, ◌∙◌, ap, arith, ltb, ◌==◌, true, false,
  if◌then◌else◌, Gives, Gives-map,
}
use cl_kmeans.Device.Buffers.{Buffer, times}
use cl_kmeans.Device.Histogram.{Sizes, group_start_offset, block_size, count_rounds}
use cl_kmeans.Device.Owners.{how_many, count_eq, Divides}
use cl_kmeans.Device.Turns.{count_rounds_lem}
use cl_kmeans.Device.Strides.{
  Fits, global_owner, global_stride-Divides, local_owner, local_stride-Divides, local_few,
}
use cl_kmeans.Device.MassUpdate.{Range, loop_for, mass_update_global_atomic}

module _ (z : Sizes) (n : ℕ) (f : Fits z n) where
  abbrev pub owner_for : (cpu : Bool) → ℕ → ℕ
  owner_for cpu = if cpu then local_owner z n f else global_owner z

  pub loop_for-Divides : (cpu : Bool) → Divides (loop_for cpu z n) n z.global_size (owner_for cpu)
  loop_for-Divides true =
      let same : n % 2 ^ 32 ≡ n = omega (arith, f.narrow) in rw same (local_stride-Divides z n f)
  loop_for-Divides false =
      let same : n % 2 ^ 32 ≡ n = omega (arith, f.narrow) in
      rw same (
        global_stride-Divides z n (omega (arith, local_few z n f, f.some_local))
          (omega (arith, f.narrow)))

  pub loop_for_stop :
      (cpu : Bool) (i : ℕ) → (loop_for cpu z n).stop i ≤ (loop_for cpu z n).start i + n
  loop_for_stop true i =
      let same : n % 2 ^ 32 ≡ n = omega (arith, f.narrow) in
      rw same (within (group_start_offset z n i) (block_size z n) (i % z.local_size))
    where
      within : (o b r : ℕ) → o + (if ltb n (o + b) then n - o else b) ≤ o + r + n
      within o b r = ground arith
  loop_for_stop false i =
      let same : n % 2 ^ 32 ≡ n = omega (arith, f.narrow) in rw same (omega arith)

-- The rounds of the work-items: as many of each as there are points at least.
pub record AreTurns (z : Sizes) (n : ℕ) (turns : List ℕ) : Type 0 where
  pub known : (i : ℕ) → z.global_size ≤ i → times i turns ≡ 0
  pub enough : (i : ℕ) → i < z.global_size → n ≤ times i turns

-- How many of the first `n` labels are `c`.
abbrev pub mass_of : (n : ℕ) → (labels : ℕ → ℕ) → (c : ℕ) → ℕ
mass_of n labels c = how_many n (λ q. labels q == c)

-- The ranges are as long as the numbers of points and of clusters, and inside of their vectors;
-- the labels are clusters, and the numbers have 32 bits.
pub record Given (z : Sizes) (n clusters : ℕ) (labels masses : Range ℕ) : Type 0 where
  pub fits : Fits z n
  pub points : labels.length ≡ n
  pub clusters_length : masses.length ≡ clusters
  pub labels_room : n ≤ labels.vector.size
  pub masses_room : clusters ≤ masses.vector.size
  pub known : (q : ℕ) → q < n → labels.vector.cell q < clusters
  pub words : (c : ℕ) → c < clusters → masses.vector.cell c < 2 ^ 32

-- Each mass is larger by the number of points of its cluster, modulo 2^32.
abbrev pub Updated : (n clusters : ℕ) → (labels masses : ℕ → ℕ) → Buffer ℕ → Type 0
Updated n clusters labels masses b =
    (c : ℕ) → c < clusters → b.cell c ≡ (masses c + mass_of n labels c) % 2 ^ 32

module _ (z : Sizes) (n clusters : ℕ) (labels masses : Range ℕ)
    (g : Given z n clusters labels masses) where
  -- For labels of known clusters on ranges of the lengths that the call is given, whole work-
  -- groups and 32-bit sizes: whatever the order of the rounds, as long as each work-item has as
  -- many as there are points, and for either stride, the call ends with no failed assertion and no
  -- access out of bounds, and each mass is larger by the number of points of its cluster, modulo
  -- 2^32.
  pub mass_update_global_atomic-Updated :
      (cpu : Bool) (turns : List ℕ)
      → AreTurns z n turns
      → Gives
          (Updated n clusters labels.vector.cell masses.vector.cell)
          (mass_update_global_atomic cpu z turns n clusters labels masses)
  unfolding mass_update_global_atomic
  mass_update_global_atomic-Updated cpu turns t =
      let p : (labels.length == n) ≡ true = (==_iff _ _).1 g.points in
      let c : (masses.length == clusters) ≡ true = (==_iff _ _).1 g.clusters_length in
      let D = loop_for-Divides z n g.fits cpu in
      rw (p, c)
        (Gives-map _ (Updated n clusters labels.vector.cell masses.vector.cell)
          (λ b h c l.
            h.1 c (g.words c l)
            ∙ ap (λ k. (masses.vector.cell c + k) % 2 ^ 32)
                (count_eq n (λ q. 0 + labels.vector.cell q == c) (λ q. labels.vector.cell q == c)
                  (λ q m. from_zero (labels.vector.cell q) c)))
          (count_rounds labels.vector (loop_for cpu z n) (λ i. 0) turns masses.vector)
          (count_rounds_lem labels.vector (loop_for cpu z n) (λ i. 0) (owner_for z n g.fits cpu) n
            z.global_size D masses.vector g.labels_room
            (λ q l. omega (arith, g.known q l, g.masses_room)) turns t.known
            (λ i l. omega (arith, loop_for_stop z n g.fits cpu i, t.enough i l))))
    where
      from_zero : (a b : ℕ) → (0 + a == b) ≡ (a == b)
      from_zero a b = ground arith

-- ===== src/Device/PartMasses.antt =====
-- `MassUpdatePartGlobal`: the bins of the groups, their sum, and the masses.
use cl_kmeans.Prelude.{
  ℕ, suc, ◌+◌, ◌-◌, ◌*◌, ◌/◌, ◌%◌, ◌^◌, ◌<◌, ◌≤◌, List, Bool, some, ◌≡◌, ◌≢◌, ==_iff, ◌∙◌, sym,
  subst, ap, arith, ◌==◌, ◌&&◌, true, false, beq_ne, ◌>>=◌, ℕ_discrete, Gives, Gives-map,
  Gives-bind,
}
use native.Mathlib.Nat.{mod-eq_of_lt, mul-add-div_right, div-eq_of_lt}
use cl_kmeans.Device.Buffers.{Buffer, run_items, IsOrder}
use cl_kmeans.Device.Histogram.{
  Sizes, num_groups, group_offset, histogram_part_global, count_rounds, clear_item,
}
use cl_kmeans.Device.Owners.{how_many, count_eq}
use cl_kmeans.Device.Turns.{count_rounds_lem}
use cl_kmeans.Device.Strides.{Fits, group_few}
use cl_kmeans.Device.Cleared.{clear-zeros}
use cl_kmeans.Device.Totals.{uint32-IsOrderless, group_sum}
use cl_kmeans.Device.MatrixOp.{matrix_lem}
use cl_kmeans.Device.Sums.{row_sum, sum_to_eq}
use cl_kmeans.Device.Reduce.{enqueues, reduce}
use cl_kmeans.Device.Rounds.{IsFair}
use cl_kmeans.Device.Rows.{lt_two_pow}
use cl_kmeans.Device.Reduction.{Divides256, reduce-row_sum}
use cl_kmeans.Device.MassUpdate.{
  Range, uint32, matrix, loop_for, Run, grown, mass_update_part_global,
}
use cl_kmeans.Device.Masses.{
  owner_for, loop_for-Divides, loop_for_stop, AreTurns, mass_of, Given, Updated,
}

-- The bin of label `c` in group `h` is at `h * K + c` only.
bin_iff : (K h c g t : ℕ) → c < K → t < K → (h * K + c == g * K + t) ≡ ((h == g) && (c == t))
bin_iff K h c g t l k = elim (ℕ_discrete h g) [
  | yes e ↦ let same : h * K ≡ g * K = ap (λ (x : ℕ). x * K) e in ground (arith, same, e)
  | no e ↦
      let other : h * K + c ≢ g * K + t =
        λ m. e (quotient h c l ∙ ap (λ x. x / K) m ∙ quotient' g t k) in
      ground (arith, e, other)
]
  where
    quotient' : (a r : ℕ) → r < K → (a * K + r) / K ≡ a
    quotient' a r m =
        mul-add-div_right (omega (arith, m)) a r ∙ ap (λ x. a + x) (div-eq_of_lt m) ∙ omega arith

    quotient : (a r : ℕ) → r < K → a ≡ (a * K + r) / K
    quotient a r m = sym (quotient' a r m)

module _ (z : Sizes) (n K : ℕ) (f : Fits z n) (narrow : K * num_groups z + z.local_size < 2 ^ 32)
    (cpu : Bool) (labels : Buffer ℕ) (room : n ≤ labels.size)
    (known : (q : ℕ) → q < n → labels.cell q < K) where
  abbrev pub group_of : (q : ℕ) → ℕ
  group_of q = owner_for z n f cpu q / z.local_size

  pub group_of_few : (q : ℕ) → q < n → group_of q < num_groups z
  group_of_few q l =
      group_few z n f (owner_for z n f cpu q) ((loop_for-Divides z n f cpu).owned q l)

  row_room : (g m : ℕ) → g < m → g * K + K ≤ K * m
  row_room g m l = grind (arith, l)

  -- Where the bins of the points are.
  offset_lem : (q : ℕ) → q < n → group_offset z K (owner_for z n f cpu q) ≡ group_of q * K
  offset_lem q l =
      let most = row_room (group_of q) (num_groups z) (group_of_few q l) in
      mod-eq_of_lt (omega (arith, most, narrow, f.some_local))

  -- What the first kernel leaves in the bins of each group.
  abbrev pub Parts : (size : ℕ) → Buffer ℕ → Type 0
  Parts size b =
      (b.size ≡ size)
      × ((g c : ℕ)
          → g < num_groups z
          → c < K
          → b.cell (g * K + c)
            ≡ how_many n (λ q. (group_of q == g) && (labels.cell q == c)) % 2 ^ 32)

  pub histogram_part_global-Parts :
      (items turns : List ℕ) (b : Buffer ℕ)
      → IsOrder z.global_size items
      → AreTurns z n turns
      → K * num_groups z ≤ b.size
      → Gives (Parts b.size) (histogram_part_global z labels (loop_for cpu z n) K items turns b)
  unfolding histogram_part_global
  histogram_part_global-Parts items turns b o t s =
      Gives-bind (Parts b.size) _ (run_items (clear_item z K) items b) _
        (clear-zeros z n K f narrow items b o s)
        (λ b' (e, zeros).
          Gives-map _ (Parts b.size)
            (λ b'' (e'', cells). (
              e'' ∙ e,
              λ g c l k.
                  (let zero_bin = zeros g c l k in
                    cells (g * K + c) (omega (arith, zero_bin))
                    ∙ from_zero zero_bin (
                        count_eq n _ (λ q. (group_of q == g) && (labels.cell q == c))
                          (λ q m.
                            ap (λ o. o + labels.cell q == g * K + c) (offset_lem q m)
                            ∙ bin_iff K (group_of q) (labels.cell q) g c (known q m) k))),
            ))
            (count_rounds labels (loop_for cpu z n) (group_offset z K) turns b')
            (count_rounds_lem labels (loop_for cpu z n) (group_offset z K) (owner_for z n f cpu) n
              z.global_size (loop_for-Divides z n f cpu) b' room
              (λ q l.
                let most = row_room (group_of q) (num_groups z) (group_of_few q l) in
                let bin = offset_lem q l in omega (arith, bin, known q l, most, e, s))
              turns t.known (λ i l. omega (arith, loop_for_stop z n f cpu i, t.enough i l))))
    where
      from_zero : {x k k' : ℕ} → x ≡ 0 → k ≡ k' → (x + k) % 2 ^ 32 ≡ k' % 2 ^ 32
      from_zero h e = omega (arith, h, e)

-- What the device does in a call: every work-item runs.
pub record IsRun (z : Sizes) (n : ℕ) (device : Run) : Type 0 where
  pub items : IsOrder z.global_size device.items
  pub turns : AreTurns z n device.turns
  pub schedule : IsFair device.schedule

two_le : (k : ℕ) → 2 ≤ 2 ^ suc k
two_le k = let more = lt_two_pow (suc k) in omega (arith, more)

module _ (z : Sizes) (n K k : ℕ) (labels masses : Range ℕ) (g : Given z n K labels masses)
    (device : Run) (fair : IsRun z n device) (some_cluster : 0 < K) (divides : Divides256 K)
    (groups : num_groups z ≡ 2 ^ suc k)
    (narrow : 2 * (K * num_groups z) + z.local_size < 2 ^ 32) where
  -- The vector of the groups' masses is large enough after it has grown.
  grown_room :
      (tmp : Buffer ℕ) → K * num_groups z ≤ (grown device.fresh (K * num_groups z) tmp).size
  grown_room tmp = ground arith

  -- The sums of the groups' bins are the counts.
  sums_lem :
      (cpu : Bool) (size : ℕ) (b b' : Buffer ℕ)
      → Parts z n K g.fits (omega (arith, narrow)) cpu labels.vector g.labels_room g.known size b
      → ((r : ℕ) → r < K → b'.cell r ≡ row_sum uint32 K (num_groups z) b.cell r)
      → (c : ℕ) → c < K
      → b'.cell c ≡ mass_of n labels.vector.cell c % 2 ^ 32
  sums_lem cpu size b b' (e, parts) sums c l =
      let some_group = g.fits.some_group in
      sums c l
      ∙ sum_to_eq uint32 (num_groups z - 1) _
          (λ h. how_many n (λ q. (group q == h) && (labels.vector.cell q == c)) % 2 ^ 32)
          (λ h m. parts h c (omega (arith, m, some_group)) l)
      ∙ group_sum (num_groups z - 1) n group (λ q. labels.vector.cell q == c)
          (λ q m. let few = group_few' q m in omega (arith, few))
    where
      group : ℕ → ℕ
      group = group_of z n K g.fits (omega (arith, narrow)) cpu labels.vector g.labels_room g.known

      group_few' : (q : ℕ) → q < n → owner_for z n g.fits cpu q / z.local_size < num_groups z
      group_few' =
          group_of_few z n K g.fits (omega (arith, narrow)) cpu labels.vector g.labels_room g.known

  sum_groups :
      (b : Buffer ℕ)
      → K * num_groups z ≤ b.size
      → Gives
          (λ b'.
            (b'.size ≡ b.size)
            × ((r : ℕ) → r < K → b'.cell r ≡ row_sum uint32 K (num_groups z) b.cell r))
          (reduce uint32 device.schedule device.before (num_groups z) K (K * num_groups z) b)
  sum_groups b room =
      let size : K * num_groups z ≡ 2 ^ suc k * K = rw groups (grind arith) in
      subst
        (λ s.
          Gives
            (λ b'.
              (b'.size ≡ b.size)
              × ((r : ℕ) → r < K → b'.cell r ≡ row_sum uint32 K (num_groups z) b.cell r))
            (reduce uint32 device.schedule device.before (num_groups z) K s b))
        (sym size)
        (subst
          (λ m.
            Gives
              (λ b'.
                (b'.size ≡ b.size) × ((r : ℕ) → r < K → b'.cell r ≡ row_sum uint32 K m b.cell r))
              (reduce uint32 device.schedule device.before m K (2 ^ suc k * K) b))
          (sym groups)
          (reduce-row_sum uint32 uint32-IsOrderless device.schedule fair.schedule device.before
            (suc k) K b some_cluster (omega (arith, size, room)) (omega (arith, size, narrow))
            divides))

  abbrev Result : Buffer ℕ × Buffer ℕ → Type 0
  Result r = Updated n K labels.vector.cell masses.vector.cell r.1

  -- With two groups or more, the reduction enqueues a kernel.
  some_event : enqueues K (K * num_groups z) ≡ true
  unfolding enqueues
  some_event =
      let more : K + K ≤ K * num_groups z = grind (arith, groups, two_le k, some_cluster) in
      let differ : (K * num_groups z == K) ≡ false =
        beq_ne (λ e. omega (arith, e, more, some_cluster)) in
      rw differ (ground arith)

  -- The end of the call, where the bins hold the counts of the groups.
  add_lem :
      (cpu : Bool) (size : ℕ) (b b' : Buffer ℕ)
      → K ≤ size
      → b'.size ≡ b.size
      → Parts z n K g.fits (omega (arith, narrow)) cpu labels.vector g.labels_room g.known size b
      → ((r : ℕ) → r < K → b'.cell r ≡ row_sum uint32 K (num_groups z) b.cell r)
      → Gives Result (do
        sum ← matrix uint32.add device.schedule 1 K masses (record { vector = b'; length = K })
        some (b', sum))
  add_lem cpu size b b' room same parts sums =
      Gives-bind Result _
        (matrix uint32.add device.schedule 1 K masses (record { vector = b'; length = K }))
        (λ sum. some (b', sum))
        (matrix_lem uint32.add device.schedule fair.schedule 1 K masses
          (record { vector = b'; length = K }) (omega (arith, g.clusters_length)) (omega arith)
          (omega (arith, g.masses_room)) (omega (arith, same, parts.0, room)))
        (λ b'' (e, added) c l.
          added c (omega (arith, l))
          ∙ sum_word (masses.vector.cell c) _ (sums_lem cpu size b b' parts sums c l))
    where
      sum_word : (a y : ℕ) {x : ℕ} → x ≡ y % 2 ^ 32 → (a + x) % 2 ^ 32 ≡ (a + y) % 2 ^ 32
      sum_word a y h = omega (arith, h)

  -- For labels of known clusters on ranges of the lengths that the call is given, whole work-
  -- groups whose number is a power of two and at least 2, a positive number of clusters that
  -- divides 256 or is even and at least 256, and 32-bit sizes: whatever the order in which the
  -- work-items run, whatever new memory holds, and for either stride, the call ends with no failed
  -- assertion and no access out of bounds, and each mass is larger by the number of points of its
  -- cluster, modulo 2^32.
  pub mass_update_part_global-Updated :
      (cpu : Bool) (tmp_masses : Buffer ℕ)
      → Gives
          (λ r. Updated n K labels.vector.cell masses.vector.cell r.1)
          (mass_update_part_global device cpu z n K labels masses tmp_masses)
  unfolding mass_update_part_global
  mass_update_part_global-Updated cpu tmp =
      let p : (labels.length == n) ≡ true = (==_iff _ _).1 g.points in
      let c : (masses.length == K) ≡ true = (==_iff _ _).1 g.clusters_length in
      let some_bins : K ≤ K * num_groups z = bins_lem (num_groups z) g.fits.some_group in
      let same : K % 2 ^ 32 ≡ K = omega (arith, some_bins, narrow) in
      let narrow' : K * num_groups z + z.local_size < 2 ^ 32 = omega (arith, narrow) in
      let room = grown_room tmp in
      let event : enqueues K (K * num_groups z) ≡ true = some_event in
      rw (p, c)
        (Gives-bind Result
          (Parts z n K g.fits narrow' cpu labels.vector g.labels_room g.known
            (grown device.fresh (K * num_groups z) tmp).size)
          (histogram_part_global z labels.vector (loop_for cpu z n) (K % 2 ^ 32) device.items
            device.turns (grown device.fresh (K * num_groups z) tmp))
          _
          (subst
            (λ m.
              Gives
                (Parts z n K g.fits narrow' cpu labels.vector g.labels_room g.known
                  (grown device.fresh (K * num_groups z) tmp).size)
                (histogram_part_global z labels.vector (loop_for cpu z n) m device.items
                  device.turns (grown device.fresh (K * num_groups z) tmp)))
            (sym same)
            (histogram_part_global-Parts z n K g.fits narrow' cpu labels.vector g.labels_room
              g.known device.items device.turns (grown device.fresh (K * num_groups z) tmp)
              fair.items fair.turns room))
          (λ b parts.
            Gives-bind Result _
              (reduce uint32 device.schedule device.before (num_groups z) K (K * num_groups z) b) _
              (sum_groups b (omega (arith, parts.0, room)))
              (λ b' (e, sums). rw event (
                add_lem cpu (grown device.fresh (K * num_groups z) tmp).size b b'
                  (omega (arith, room, some_bins)) e parts sums))))
    where
      bins_lem : (m : ℕ) → 0 < m → K ≤ K * m
      bins_lem m l = grind (arith, l)

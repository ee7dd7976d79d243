-- ===== src/Device/MassUpdate.antt =====
-- `MassUpdateGlobalAtomic`, `MassUpdatePartGlobal` and the method `matrix` of `MatrixBinaryOp`
-- (cl_kernels/mass_update_global_atomic.hpp, mass_update_part_global.hpp, matrix_binary_op.hpp and
-- matrix_binary_op.cl), on 32-bit labels and masses.
use cl_kmeans.Prelude.{
  ℕ, ◌+◌, ◌*◌, ◌%◌, ◌^◌, List, Bool, Option, some, ltb, ◌==◌, if◌then◌else◌, ◌>>=◌,
}
use cl_kmeans.Device.Buffers.{Buffer, load_at, store_at, assert_that, run_items}
use cl_kmeans.Device.Sums.{Addition}
use cl_kmeans.Device.Reduce.{Schedule, enqueues, reduce}
use cl_kmeans.Device.Histogram.{
  Sizes, Loop, num_groups, global_stride, local_stride, histogram_global, histogram_part_global,
}

-- A range of a vector on the device, from its begin.
pub record Range (T : Type 0) : Type 0 where
  pub vector : Buffer T
  pub length : ℕ

-- `+` on `uint32_t`.
abbrev pub uint32 : Addition ℕ
uint32 = record { nothing = 0; add = λ a b. (a + b) % 2 ^ 32 }

module _ {T : Type 0} (op : T → T → T) where
  unfoldable pub matrix_item : (snd_matrix : Buffer T) → (m_ind : ℕ) → Buffer T → Option (Buffer T)
  matrix_item snd_matrix m_ind fst_matrix = do
    snd ← load_at snd_matrix m_ind
    fst ← load_at fst_matrix m_ind
    store_at fst_matrix m_ind (op fst snd)

  unfoldable pub matrix :
      Schedule → (num_cols num_rows : ℕ) → (fst_matrix snd_matrix : Range T) → Option (Buffer T)
  unfolding matrix_item run_items
  matrix schedule num_cols num_rows fst_matrix snd_matrix =
      assert_that (fst_matrix.length == num_cols * num_rows) (
        assert_that (snd_matrix.length == num_cols * num_rows) (
          run_items (matrix_item snd_matrix.vector) (schedule.items (num_rows * num_cols))
            fst_matrix.vector))

-- The loop of the kernel that is chosen for a CPU or an accelerator, or else for a GPU.
abbrev pub loop_for : (cpu : Bool) → Sizes → (num_points : ℕ) → Loop
loop_for cpu z num_points =
    if cpu then local_stride z (num_points % 2 ^ 32) else global_stride z (num_points % 2 ^ 32)

-- `turns` is the order of the rounds of the kernel's work-items.
unfoldable pub mass_update_global_atomic :
    (cpu : Bool)
    → Sizes
    → (turns : List ℕ) → (num_points num_clusters : ℕ) → (labels masses : Range ℕ)
    → Option (Buffer ℕ)
unfolding histogram_global
mass_update_global_atomic cpu z turns num_points num_clusters labels masses =
    assert_that (labels.length == num_points) (
      assert_that (masses.length == num_clusters)
        (histogram_global labels.vector (loop_for cpu z num_points) turns masses.vector))

-- What the device does on its own, in a call of `MassUpdatePartGlobal`: the order of the items of
-- the histogram before the barrier and of its rounds, the values that new memory holds, and the
-- order of the items of the other kernels.
pub record Run : Type 0 where
  pub items : List ℕ
  pub turns : List ℕ
  pub fresh : ℕ → ℕ
  pub before : ℕ → ℕ
  pub schedule : Schedule

-- The vector of `buffer_size` values at least.
abbrev pub grown : (fresh : ℕ → ℕ) (buffer_size : ℕ) → Buffer ℕ → Buffer ℕ
grown fresh buffer_size tmp_masses =
    if ltb tmp_masses.size buffer_size
    then record { size = buffer_size; cell = fresh }
    else tmp_masses

-- The results are `tmp_masses` and the masses. To insert an event that was never assigned into the
-- wait list of the last kernel is taken as a failure.
unfoldable pub mass_update_part_global :
    Run
    → (cpu : Bool) → Sizes
    → (num_points num_clusters : ℕ) → (labels masses : Range ℕ) → (tmp_masses : Buffer ℕ)
    → Option (Buffer ℕ × Buffer ℕ)
unfolding histogram_part_global enqueues reduce matrix
mass_update_part_global device cpu z num_points num_clusters labels masses tmp_masses =
    assert_that (labels.length == num_points) (
      assert_that (masses.length == num_clusters) (do
        let buffer_size = num_clusters * num_groups z
        counted ←
            histogram_part_global z labels.vector (loop_for cpu z num_points)
              (num_clusters % 2 ^ 32) device.items device.turns
              (grown device.fresh buffer_size tmp_masses)
        reduced ←
            reduce uint32 device.schedule device.before (num_groups z) num_clusters buffer_size
              counted
        assert_that (enqueues num_clusters buffer_size) (do
          sum ←
              matrix uint32.add device.schedule 1 num_clusters masses
                (record { vector = reduced; length = num_clusters })
          some (reduced, sum))))

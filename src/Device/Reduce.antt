-- ===== src/Device/Reduce.antt =====
-- `ReduceVectorParcol` (cl_kernels/reduce_vector_parcol.hpp) and its kernels
-- (cl_kernels/reduce_vector_parcol.cl).
use cl_kmeans.Prelude.{
  ℕ, zero, suc, ◌+◌, ◌*◌, ◌/◌, ◌%◌, ◌^◌, List, Option, none, some, ltb, leb, ◌==◌, ◌&&◌,
  if◌then◌else◌, ◌>>=◌, Bool, not, ◌||◌,
}
use cl_kmeans.Device.Buffers.{Buffer, load_at, store_at, assert_that, run_items}
use cl_kmeans.Device.Sums.{Addition}

-- The order of the work-items: of a kernel with `n` of them, and of a work-group with `n` of them
-- between two barriers, in the round where `remaining` values are left. No number comes twice.
pub record Schedule : Type 0 where
  pub items : (n : ℕ) → List ℕ
  pub local_items : (n remaining : ℕ) → List ℕ

-- Whether `operator()` enqueues a kernel. It returns an event that was never assigned otherwise.
unfoldable pub enqueues : (result_rows data_size : ℕ) → Bool
enqueues result_rows data_size =
    (ltb result_rows data_size && ltb (2 * 256) data_size) || not (data_size == result_rows)

abbrev pub workgroup_size : ℕ
workgroup_size = 256

-- `async_work_group_copy` of the first `n` values.
abbrev pub copy_first : {T : Type 0} (n : ℕ) (from to : Buffer T) → Option (Buffer T)
copy_first n from to =
    if leb n from.size && leb n to.size
    then some (record to { cell = λ i. if ltb i n then from.cell i else to.cell i })
    else none

module _ {T : Type 0} (A : Addition T) where
  -- The loop of a work-item, of at most `fuel` tests of its condition.
  unfoldable pub sum_stride : (fuel N stride i : ℕ) → Buffer T → T → Option T
  sum_stride zero N stride i values sum = none
  sum_stride (suc fuel) N stride i values sum =
      let rest = (do
        x ← load_at values i
        sum_stride fuel N stride ((i + stride) % 2 ^ 32) values (A.add sum x)) in
      if ltb i N then rest else some sum

  unfoldable pub compact_item : (N global_size global_id : ℕ) → Buffer T → Option (Buffer T)
  unfolding sum_stride
  compact_item N global_size global_id values = do
    sum ← sum_stride (suc N) N global_size global_id values A.nothing
    store_at values global_id sum

  unfoldable pub inner_item : (remaining local_id : ℕ) → Buffer T → Option (Buffer T)
  inner_item remaining local_id values =
      if ltb local_id remaining
      then (do
        x ← load_at values local_id
        y ← load_at values (remaining + local_id)
        store_at values local_id (A.add x y))
      else some values

  module _ (schedule : Schedule) where
    unfoldable pub reduce_vector_parcol_compact : (N global_size : ℕ) → Buffer T → Option (Buffer T)
    unfolding compact_item run_items
    reduce_vector_parcol_compact N global_size values =
        run_items (compact_item N global_size) (schedule.items global_size) values

    -- The loop between the copies, of at most `fuel` tests of its condition.
    unfoldable pub inner_rounds :
        (fuel num_rows local_size remaining : ℕ) → Buffer T → Option (Buffer T)
    unfolding inner_item run_items
    inner_rounds zero num_rows local_size remaining values = none
    inner_rounds (suc fuel) num_rows local_size remaining values =
        let rest = (do
          values' ←
              run_items (inner_item remaining) (schedule.local_items local_size remaining) values
          inner_rounds fuel num_rows local_size (remaining / 2) values') in
        if leb num_rows remaining then rest else some values

    -- One work-group, with what its local memory held before.
    unfoldable pub reduce_vector_parcol_inner :
        (before : ℕ → T) (num_rows local_size : ℕ) → Buffer T → Option (Buffer T)
    unfolding inner_rounds
    reduce_vector_parcol_inner before num_rows local_size values = do
      local ←
          copy_first (2 * local_size) values (record { size = 2 * workgroup_size; cell = before })
      local' ← inner_rounds (suc local_size) num_rows local_size local_size local
      copy_first num_rows local' values

    -- The loop of `operator()`, of at most `fuel` tests of its condition.
    unfoldable pub compact_rounds :
        (fuel result_rows data_size global_size : ℕ) → Buffer T → Option (ℕ × Buffer T)
    unfolding reduce_vector_parcol_compact
    compact_rounds zero result_rows data_size global_size values = none
    compact_rounds (suc fuel) result_rows data_size global_size values =
        let rest = assert_that (global_size * 2 == data_size) (
          assert_that (ltb 0 result_rows && (global_size % result_rows == 0)) (do
            values' ← reduce_vector_parcol_compact (data_size % 2 ^ 32) global_size values
            compact_rounds fuel result_rows (global_size / 2 * 2) (global_size / 2) values')) in
        if ltb result_rows data_size && ltb (2 * workgroup_size) data_size
        then rest
        else some (data_size, values)

    -- What follows the loop.
    unfoldable pub inner_round :
        (before : ℕ → T) (result_rows data_size : ℕ) → Buffer T → Option (Buffer T)
    unfolding reduce_vector_parcol_inner
    inner_round before result_rows data_size values =
        if data_size == result_rows
        then some values
        else assert_that (workgroup_size % result_rows == 0)
            (reduce_vector_parcol_inner before (result_rows % 2 ^ 32) (data_size / 2) values)

    -- `operator()`, where `data_size` is the distance of its iterators.
    unfoldable pub reduce :
        (before : ℕ → T) (num_cols result_rows data_size : ℕ) → Buffer T → Option (Buffer T)
    unfolding compact_rounds inner_round
    reduce before num_cols result_rows data_size values =
        assert_that (leb (num_cols * result_rows) data_size) (do
          r ← compact_rounds (suc data_size) result_rows data_size (data_size / 2) values
          inner_round before result_rows r.0 r.1)

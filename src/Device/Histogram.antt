-- ===== src/Device/Histogram.antt =====
-- The kernels that count labels: cl_kernels/histogram_global.cl and
-- cl_kernels/histogram_part_global.cl, on 32-bit labels and masses (`TYPE32`).
use cl_kmeans.Prelude.{
  ℕ, zero, suc, ◌+◌, ◌-◌, ◌*◌, ◌/◌, ◌%◌, ◌^◌, List, Option, none, some, ltb, if◌then◌else◌, ◌>>=◌,
}
use cl_kmeans.Device.Buffers.{Buffer, written, load_at, store_at, run_items}

-- The sizes that a kernel is enqueued with.
pub record Sizes : Type 0 where
  pub global_size : ℕ
  pub local_size : ℕ

abbrev pub num_groups : Sizes → ℕ
num_groups z = z.global_size / z.local_size

-- Of the work-item with the global id `i`.
abbrev pub group_id : Sizes → (i : ℕ) → ℕ
group_id z i = i / z.local_size

abbrev pub local_id : Sizes → (i : ℕ) → ℕ
local_id z i = i % z.local_size

-- The head of a work-item's loop: `for (p = start; p < stop; p += stride)`.
pub record Loop : Type 0 where
  pub start : ℕ → ℕ
  pub stop : ℕ → ℕ
  pub stride : ℕ

abbrev pub global_stride : Sizes → (NUM_ITEMS : ℕ) → Loop
global_stride z NUM_ITEMS = record { start = λ i. i; stop = λ i. NUM_ITEMS; stride = z.global_size }

abbrev pub block_size : Sizes → (NUM_ITEMS : ℕ) → ℕ
block_size z NUM_ITEMS = (NUM_ITEMS + num_groups z - 1) % 2 ^ 32 / num_groups z

abbrev pub group_start_offset : Sizes → (NUM_ITEMS i : ℕ) → ℕ
group_start_offset z NUM_ITEMS i = group_id z i * block_size z NUM_ITEMS % 2 ^ 32

abbrev pub real_block_size : Sizes → (NUM_ITEMS i : ℕ) → ℕ
real_block_size z NUM_ITEMS i =
    if ltb NUM_ITEMS (group_start_offset z NUM_ITEMS i + block_size z NUM_ITEMS)
    then NUM_ITEMS - group_start_offset z NUM_ITEMS i
    else block_size z NUM_ITEMS

-- With `LOCAL_STRIDE`.
abbrev pub local_stride : Sizes → (NUM_ITEMS : ℕ) → Loop
local_stride z NUM_ITEMS = record {
  start = λ i. group_start_offset z NUM_ITEMS i + local_id z i;
  stop = λ i. group_start_offset z NUM_ITEMS i + real_block_size z NUM_ITEMS i;
  stride = z.local_size;
}

unfoldable pub atomic_inc : (address : ℕ) → Buffer ℕ → Option (Buffer ℕ)
atomic_inc address b = do v ← load_at b address; store_at b address ((v + 1) % 2 ^ 32)

-- Where each work-item's `p` stands, and `g_out`.
pub record Counting : Type 0 where
  pub position : ℕ → ℕ
  pub g_out : Buffer ℕ

module _ (g_in : Buffer ℕ) (loop : Loop) (offset : ℕ → ℕ) where
  -- A round of the loop of work-item `i`, or nothing where it has ended. `offset` is where the
  -- bins of its group begin.
  unfoldable pub count_round : (i : ℕ) → Counting → Option Counting
  unfolding atomic_inc
  count_round i s =
      let round = (do
        bin ← load_at g_in (s.position i)
        g_out ← atomic_inc (offset i + bin) s.g_out
        some (record {
          position = written s.position i ((s.position i + loop.stride) % 2 ^ 32);
          g_out = g_out;
        })) in
      if ltb (s.position i) (loop.stop i) then round else some s

  -- The rounds of all work-items, in the order of `turns`, which names the item of each round.
  unfoldable pub count_rounds : (turns : List ℕ) → Buffer ℕ → Option (Buffer ℕ)
  unfolding count_round run_items
  count_rounds turns g_out = do
    s ← run_items count_round turns (record { position = loop.start; g_out = g_out })
    some s.g_out

unfoldable pub histogram_global :
    (g_in : Buffer ℕ) → Loop → (turns : List ℕ) → Buffer ℕ → Option (Buffer ℕ)
unfolding count_rounds
histogram_global g_in loop turns g_out = count_rounds g_in loop (λ i. 0) turns g_out

abbrev pub group_offset : Sizes → (NUM_BINS i : ℕ) → ℕ
group_offset z NUM_BINS i = group_id z i * NUM_BINS % 2 ^ 32

-- The loop that clears the bins, of at most `fuel` tests of its condition.
unfoldable pub clear_bins : (fuel NUM_BINS stride offset r : ℕ) → Buffer ℕ → Option (Buffer ℕ)
clear_bins zero NUM_BINS stride offset r g_out = none
clear_bins (suc fuel) NUM_BINS stride offset r g_out =
    let rest = (do
      g_out' ← store_at g_out (offset + r) 0
      clear_bins fuel NUM_BINS stride offset ((r + stride) % 2 ^ 32) g_out') in
    if ltb r NUM_BINS then rest else some g_out

unfoldable pub clear_item : Sizes → (NUM_BINS i : ℕ) → Buffer ℕ → Option (Buffer ℕ)
unfolding clear_bins
clear_item z NUM_BINS i g_out =
    clear_bins (suc NUM_BINS) NUM_BINS z.local_size (group_offset z NUM_BINS i) (local_id z i) g_out

-- `items` is the order of the work-items before the barrier. A group writes its own bins only, so
-- the groups are taken to pass the barrier together.
unfoldable pub histogram_part_global :
    Sizes
    → (g_in : Buffer ℕ) → Loop
    → (NUM_BINS : ℕ) → (items turns : List ℕ) → Buffer ℕ
    → Option (Buffer ℕ)
unfolding clear_item count_rounds run_items
histogram_part_global z g_in loop NUM_BINS items turns g_out = do
  cleared ← run_items (clear_item z NUM_BINS) items g_out
  count_rounds g_in loop (group_offset z NUM_BINS) turns cleared

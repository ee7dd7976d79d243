-- ===== src/Cache/Setup.antt =====
-- The constructor, `add_device`, `add_object`, `object` and `pool_size`.
use cl_kmeans.Prelude.{
  ℕ, suc, ◌+◌, ◌*◌, ◌/◌, ◌%◌, ◌^◌, Bool, List, [], ◌∷◌, ◌++◌, Option, none, some, ℤ, negsuc, length,
  get_elem?, replicate, leb, ◌==◌, ◌||◌, if◌then◌else◌,
}
use cl_kmeans.Cache.State.{
  success, failure, ObjectMode, read_write, Device, default_buffer, device_alloc, host_alloc, free,
  Slot, DeviceInfo, Cache,
}

-- `DoubleBuffering`
abbrev pub double_buffering : ℕ
double_buffering = 2

-- Object 0 is invalid; `emplace_back()` sets its mode to the first one.
unfoldable pub init : (before_objects : Option ObjectMode) → ℕ → Cache
init before_objects buffer_size = record {
  buffer_size = buffer_size;
  device_info = [];
  object_info = record { ptr = 0; size = 0; mode = read_write } ∷ [];
  before_objects = before_objects;
  io_thread = [];
  commands = [];
  fresh = 0;
}

abbrev pub empty_slot : Slot
empty_slot = record {
  status = free;
  count = 0;
  cached_object_id = negsuc 0;
  cached_buffer_id = 0;
  cached_ptr = 0;
  cached_content_length = 0;
  device_buffer = default_buffer;
  host_buffer = default_buffer;
  host_ptr = 0;
}

-- The address at which OpenCL maps a pinned buffer, by the buffer's handle.
module _ (enqueue_map_buffer : ℕ → ℕ) where
  -- The buffers of one slot, the device's under the handle `h` and the host's under `h'`.
  unfoldable pub allocate : (buffer_size h h' : ℕ) → Slot → Slot
  allocate buffer_size h h' s = record s {
    device_buffer = device_alloc h buffer_size;
    host_buffer = host_alloc h' buffer_size;
    host_ptr = enqueue_map_buffer h';
  }

  -- The buffers of all slots: the device's have the first `n` handles, the host's the next.
  unfoldable pub allocate_slots : (n buffer_size h : ℕ) → List Slot → List Slot
  unfolding allocate
  allocate_slots n buffer_size h [] = []
  allocate_slots n buffer_size h (s ∷ slots) =
      allocate buffer_size h (h + n) s ∷ allocate_slots n buffer_size (suc h) slots

  -- The slots of a new device. A CPU's have no buffers.
  unfoldable pub new_slots : Cache → Device → ℕ → List Slot
  unfolding allocate_slots
  new_slots c device n =
      if device.cpu
      then replicate n empty_slot
      else allocate_slots n c.buffer_size c.fresh (replicate n empty_slot)

  unfoldable pub add_device : Cache → Device → ℕ → ℤ × Cache
  unfolding new_slots
  add_device c device pool_size =
      if leb pool_size ((c.buffer_size * double_buffering) % 2 ^ 64) then (failure, c) else (
        success,
        record c {
          device_info = c.device_info ++ info ∷ [];
          fresh = if device.cpu then c.fresh else c.fresh + 2 * num_cache_slots;
        },
      )
    where
      num_cache_slots : ℕ
      num_cache_slots = pool_size / c.buffer_size

      info : DeviceInfo
      info = record {
        device = device;
        pool_size = pool_size;
        num_slots = num_cache_slots;
        slots = new_slots c device num_cache_slots;
      }

-- The new object's id, a `uint32_t`, and the cache.
unfoldable pub add_object : Cache → (data_object size : ℕ) → ObjectMode → ℕ × Cache
add_object c data_object size mode = (
  length c.object_info % 2 ^ 32,
  record c {
    object_info = c.object_info ++ record { ptr = data_object; size = size; mode = mode } ∷ [];
  },
)

-- The object's address and length; null and 0 where there is none.
unfoldable pub object : Cache → ℕ → ℕ × ℕ
object c oid = elim (oid == 0 || leb (length c.object_info) oid) [
  | Bool.true ↦ (0, 0)
  | Bool.false ↦ elim (get_elem? c.object_info oid) [
    | none ↦ (0, 0)
    | some obj ↦ (obj.ptr, obj.size)
  ]
]

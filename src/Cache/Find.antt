-- ===== src/Cache/Find.antt =====
-- The lookups: `find_device_id`, `find_buffer_id`, `find_cache_slot`, `assign_cache_slot` and
-- `pool_size`.
use cl_kmeans.Prelude.{
  ℕ, suc, ◌+◌, ◌*◌, ◌%◌, ◌^◌, Bool, true, false, List, [], ◌∷◌, Option, none, some, ℤ, pos, negsuc,
  length, get_elem?, ltb, leb, ◌==◌, ◌&&◌, ◌||◌, if◌then◌else◌, ◌>>=◌,
}
use cl_kmeans.Cache.State.{
  sub64, add64, add32, sub32, success, failure, not_cached, Device, free, read_lock, write_lock,
  SlotLockStatus, Slot, DeviceInfo, Cache, slot_at,
}
use cl_kmeans.Cache.Setup.{double_buffering}

-- The loop of `find_device_id` from index `did` on.
unfoldable pub find_device_from : ℕ → Device → List DeviceInfo → ℤ
find_device_from did device [] = failure
find_device_from did device (dev ∷ devs) =
    if dev.device.id == device.id then pos did else find_device_from (suc did) device devs

unfoldable pub find_device_id : Cache → Device → ℤ
unfolding find_device_from
find_device_id c device = find_device_from 0 device c.device_info

-- `-1` as a `size_t` where there is no such device.
unfoldable pub pool_size : Cache → Device → Option ℕ
unfolding find_device_id
pool_size c device = elim (find_device_id c device) [
  | negsuc _ ↦ some (sub64 0 1)
  | pos did ↦ do dev ← get_elem? c.device_info did; some dev.pool_size
]

-- The return code and the new value of `buffer_id`, which an error leaves alone.
unfoldable pub find_buffer_id : Cache → (device_id oid ptr buffer_id : ℕ) → ℤ × ℕ
find_buffer_id c device_id oid ptr buffer_id =
    if leb (length c.device_info) device_id
    then (failure, buffer_id)
    else (if oid == 0 || leb (length c.object_info) oid
        then (failure, buffer_id)
        else elim (get_elem? c.object_info oid) [
          | none ↦ (failure, buffer_id)
          | some oinfo ↦
              if ptr == 0 || ltb ptr oinfo.ptr || leb (oinfo.ptr + oinfo.size) ptr
              then (failure, buffer_id)
              else (success, sub64 ptr oinfo.ptr)
        ])

-- `cached_object_id[i] == oid`
unfoldable pub eq_id : ℤ → ℕ → Bool
eq_id (pos k) oid = k == oid
eq_id (negsuc k) oid = false

unfoldable pub holds : Slot → (oid buffer_id : ℕ) → Bool
unfolding eq_id
holds s oid buffer_id = eq_id s.cached_object_id oid && s.cached_buffer_id == buffer_id

-- The loop of `find_cache_slot` from index `i` on.
unfoldable pub find_slot_from : (i oid buffer_id : ℕ) → List Slot → ℤ
unfolding holds
find_slot_from i oid buffer_id [] = not_cached
find_slot_from i oid buffer_id (s ∷ slots) =
    if holds s oid buffer_id then pos i else find_slot_from (suc i) oid buffer_id slots

unfoldable pub find_cache_slot : Cache → (device_id oid buffer_id : ℕ) → ℤ
unfolding find_slot_from
find_cache_slot c device_id oid buffer_id = elim (get_elem? c.device_info device_id) [
  | none ↦ failure
  | some dev ↦
      if oid == 0 || leb (length c.object_info) oid
      then failure
      else elim (get_elem? c.object_info oid) [
        | none ↦ failure
        | some obj ↦
            if leb (sub64 (add64 obj.size c.buffer_size) 1) buffer_id
            then failure
            else find_slot_from 0 oid buffer_id dev.slots
      ]
]

unfoldable pub is_free : SlotLockStatus → Bool
is_free free = true
is_free read_lock = false
is_free write_lock = false

-- The first of the two slots of an object.
unfoldable pub base_slot : ℕ → ℕ
base_slot oid = (sub32 oid 1 * double_buffering) % 2 ^ 32

-- A slot number, or -1. `none` where `slot_lock` is read out of its bounds.
unfoldable pub assign_cache_slot : Cache → (device_id oid : ℕ) → Option ℤ
unfolding is_free
assign_cache_slot c device_id oid =
    if leb (length c.device_info) device_id
    then some failure
    else (if leb (length c.object_info) oid then some failure else (do
      base ← slot_at c device_id (base_slot oid)
      let slot = if is_free base.status then base_slot oid else add32 (base_slot oid) 1
      s ← slot_at c device_id slot
      if is_free s.status then some (pos slot) else some failure))

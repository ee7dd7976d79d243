-- ===== src/Cache/Lock.antt =====
-- The locks of a slot: `try_read_lock`, `try_write_lock` and `unlock`.
use cl_kmeans.Prelude.{
  ℕ, ◌-◌, List, [], ◌∷◌, Option, some, ℤ, pos, negsuc, get_elem?, leb, ◌==◌, if◌then◌else◌, ◌>>=◌,
}
use cl_kmeans.Cache.State.{
  add32, success, failure, Queue, BufferDesc, SlotLockStatus, free, read_lock, write_lock, Slot,
  Cache, slot_at, modify_slot,
}
use cl_kmeans.Cache.Find.{find_device_id, find_cache_slot}

abbrev pub set_lock : SlotLockStatus → ℕ → Slot → Slot
set_lock status count s = record s { status = status; count = count }

-- The body of `try_read_lock` once slot `i` is read: its code, and what becomes of the slot.
unfoldable pub lock_read : SlotLockStatus → ℕ → ℤ × (Slot → Slot)
lock_read free count = (success, set_lock read_lock 1)
lock_read read_lock count = (success, set_lock read_lock (add32 count 1))
lock_read write_lock count = (failure, λ s. s)

unfoldable pub lock_write : SlotLockStatus → ℕ → ℤ × (Slot → Slot)
lock_write free count = (success, set_lock write_lock 1)
lock_write read_lock count = (failure, λ s. s)
lock_write write_lock count = (failure, λ s. s)

unfoldable pub release : SlotLockStatus → ℕ → ℤ × (Slot → Slot)
release free count = (failure, λ s. s)
release read_lock count =
    if count == 1 then (success, set_lock free 0) else (success, set_lock read_lock (count - 1))
release write_lock count = (success, set_lock free 0)

-- What the three have in common: a change of the lock that slot `i`'s status decides.
unfoldable pub change_lock :
    (SlotLockStatus → ℕ → ℤ × (Slot → Slot)) → Cache → (device_id i : ℕ) → Option (ℤ × Cache)
change_lock change c device_id i = do
  s ← slot_at c device_id i
  let (code, f) = change s.status s.count
  some (code, modify_slot c device_id i f)

-- Of `try_read_lock` and `try_write_lock` after the check of the slot's number.
unfoldable pub try_lock :
    (SlotLockStatus → ℕ → ℤ × (Slot → Slot)) → Cache → (device_id i : ℕ) → Option (ℤ × Cache)
unfolding change_lock
try_lock change c device_id i = do
  dev ← get_elem? c.device_info device_id
  if leb dev.num_slots i then some (failure, c) else change_lock change c device_id i

unfoldable pub try_read_lock : Cache → (device_id cache_slot : ℕ) → Option (ℤ × Cache)
unfolding try_lock lock_read
try_read_lock = try_lock lock_read

unfoldable pub try_write_lock : Cache → (device_id cache_slot : ℕ) → Option (ℤ × Cache)
unfolding try_lock lock_write
try_write_lock = try_lock lock_write

-- Unlocks the slot that `find_cache_slot` finds for the list's only buffer.
unfoldable pub unlock_buffer : Cache → (device_id oid buf_id : ℕ) → Option (ℤ × Cache)
unfolding change_lock release
unlock_buffer c device_id oid buf_id = elim (find_cache_slot c device_id oid buf_id) [
  | negsuc _ ↦ some (failure, c)
  | pos i ↦ change_lock release c device_id i
]

unfoldable pub unlock_list : Cache → (device_id oid : ℕ) → List BufferDesc → Option (ℤ × Cache)
unfolding unlock_buffer
unlock_list c device_id oid [] = some (failure, c)
unlock_list c device_id oid (desc ∷ []) = unlock_buffer c device_id oid desc.buffer_id
unlock_list c device_id oid (desc ∷ more ∷ rest) = some (failure, c)

unfoldable pub unlock : Cache → Queue → ℕ → List BufferDesc → Option (ℤ × Cache)
unfolding unlock_list
unlock c queue oid buffers = elim (find_device_id c queue.device) [
  | negsuc _ ↦ some (failure, c)
  | pos device_id ↦ unlock_list c device_id oid buffers
]

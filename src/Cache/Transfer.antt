-- ===== src/Cache/Transfer.antt =====
-- What moves data: `read`, `evict_cache_slot`, `write_and_get` and `get`. The `DataPoint` argument
-- and the messages on `std::cerr` are left out.
use cl_kmeans.Prelude.{
  ℕ, Bool, true, false, List, [], ◌∷◌, ◌++◌, Option, none, some, ℤ, pos, negsuc, get_elem?, ltb,
  ◌==◌, ◌&&◌, if◌then◌else◌, ◌>>=◌, ◌+◌,
}
use cl_kmeans.Cache.State.{
  sub64, success, failure, ObjectMode, read_write, read_only, transient, Queue, Buffer,
  use_host_ptr, Event, WaitList, BufferDesc, Slot, AsyncTask, Action, enqueue_write_buffer,
  enqueue_read_buffer, enqueue_barrier, Cache, slot_at, modify_slot, new_event, push_task, enqueue,
}
use cl_kmeans.Cache.Find.{find_device_id, find_buffer_id, find_cache_slot, assign_cache_slot}
use cl_kmeans.Cache.Lock.{try_read_lock, try_write_lock}

-- The end of `read`: the device's buffer is read into the slot's pinned buffer, and an I/O thread
-- copies that to `begin`. The event is that of a barrier behind the copy.
unfoldable pub read_back : Cache → Queue → Slot → (begin size : ℕ) → WaitList → Event × Cache
unfolding enqueue push_task new_event
read_back c queue s begin size wait_list = (some (c.fresh + 2), c3)
  where
    c1 : Cache
    c1 = enqueue c queue (enqueue_read_buffer s.device_buffer size s.host_ptr) wait_list

    task : AsyncTask
    task = record {
      src_ptr = s.host_ptr;
      dst_ptr = begin;
      size = size;
      wait_list = c.fresh ∷ [];
      finish_event = c.fresh + 1;
    }

    c2 : Cache
    c2 = enqueue (new_event c1) queue enqueue_barrier ((c.fresh + 1) ∷ [])

    c3 : Cache
    c3 = push_task c2 queue task

-- `read` once the slot is found.
unfoldable pub read_slot :
    Cache → Queue → (device_id i begin size : ℕ) → Event → WaitList → Option (ℤ × Event × Cache)
unfolding read_back
read_slot c queue device_id i begin size event wait_list = do
  dev ← get_elem? c.device_info device_id
  s ← get_elem? dev.slots i
  if ltb size s.cached_content_length
      then some (failure, event, c)
      else (if dev.device.cpu
          then some (success, event, c)
          else let (finish_event, c') = read_back c queue s begin size wait_list in
            some (success, finish_event, c'))

-- `mode == ObjectMode::ReadOnly or mode == ObjectMode::Transient`
unfoldable pub is_immutable : ObjectMode → Bool
is_immutable read_write = false
is_immutable read_only = true
is_immutable transient = true

-- `read` once the buffer's id is known.
unfoldable pub read_cached :
    Cache
    → Queue
    → (device_id oid buffer_id begin size : ℕ) → Event
    → WaitList
    → Option (ℤ × Event × Cache)
unfolding read_slot is_immutable
read_cached c queue device_id oid buffer_id begin size event wait_list = do
  obj ← get_elem? c.object_info oid
  if is_immutable obj.mode
      then some (success, event, c)
      else elim (find_cache_slot c device_id oid buffer_id) [
        | pos i ↦ read_slot c queue device_id i begin size event wait_list
        | negsuc k ↦ if k == 1 then some (success, event, c) else some (negsuc k, event, c)
      ]

-- The code, the value of the event argument, and the cache. A bad pointer gives the code 0, the
-- initial value of `buffer_id`.
unfoldable pub read :
    Cache → Queue → (oid begin end : ℕ) → Event → WaitList → Option (ℤ × Event × Cache)
unfolding read_cached
read c queue oid begin end event wait_list =
    if ltb c.buffer_size (sub64 end begin)
    then some (failure, event, c)
    else elim (find_device_id c queue.device) [
      | negsuc k ↦ some (negsuc k, event, c)
      | pos device_id ↦
          let (ret, buffer_id) = find_buffer_id c device_id oid begin 0 in
          elim ret [
            | negsuc _ ↦ some (pos buffer_id, event, c)
            | pos _ ↦
                read_cached c queue device_id oid buffer_id begin (sub64 end begin) event wait_list
          ]
    ]

abbrev pub clear : Slot → Slot
clear s = record s {
  cached_object_id = negsuc 0;
  cached_buffer_id = 0;
  cached_ptr = 0;
  cached_content_length = 0;
}

-- Of `evict_cache_slot`, after the write-back.
unfoldable pub evicted : (device_id i : ℕ) → ℤ × Event × Cache → ℤ × Event × Cache
evicted device_id i (negsuc _, event, c) = (failure, event, c)
evicted device_id i (pos _, event, c) = (success, event, modify_slot c device_id i clear)

-- `evict_cache_slot` of a slot that holds object `oid`.
unfoldable pub evict_object :
    Cache → Queue → (device_id i : ℕ) → Slot → ℕ → Event → WaitList → Option (ℤ × Event × Cache)
unfolding evicted is_immutable
evict_object c queue device_id i s oid event wait_list = do
  dev ← get_elem? c.device_info device_id
  obj ← get_elem? c.object_info oid
  if is_immutable obj.mode
      then some (success, event, modify_slot c device_id i clear)
      else (if dev.device.cpu then some (success, event, modify_slot c device_id i clear) else (do
        r ← read c queue oid s.cached_ptr (s.cached_ptr + s.cached_content_length) event wait_list
        some (evicted device_id i r)))

-- The source reads `object_info_i[object_id].mode` first, also where `object_id` is -1: that read
-- is out of bounds, and an empty slot does not use what it gives. A slot with the id -1 that is
-- not empty would use it.
unfoldable pub evict_content :
    Cache → Queue → (device_id i : ℕ) → Slot → ℤ → Event → WaitList → Option (ℤ × Event × Cache)
unfolding evict_object
evict_content c queue device_id i s (negsuc k) event wait_list = do
  mode ← c.before_objects
  if k == 0 && s.cached_buffer_id == 0 && s.cached_ptr == 0 then some (success, event, c) else none
evict_content c queue device_id i s (pos oid) event wait_list =
    evict_object c queue device_id i s oid event wait_list

unfoldable pub evict_cache_slot :
    Cache → Queue → (device_id cache_slot : ℕ) → Event → WaitList → Option (ℤ × Event × Cache)
unfolding evict_content
evict_cache_slot c queue device_id i event wait_list = do
  s ← slot_at c device_id i
  evict_content c queue device_id i s s.cached_object_id event wait_list

-- What `get` and `write_and_get` return: the code, `buffers`, the event, and the cache.
pub record Reply : Type 0 where
  pub code : ℤ
  pub buffers : List BufferDesc
  pub event : Event
  pub cache : Cache

-- `if (evict_event != empty_event) task_wait_list.insert(evict_event)`
abbrev pub with_event : WaitList → Event → WaitList
with_event wait_list none = wait_list
with_event wait_list (some e) = wait_list ++ e ∷ []

-- The transfer of `write_and_get`: an I/O thread copies the range into the slot's pinned buffer,
-- behind the eviction, and the queue writes that to the device behind the copy.
unfoldable pub write_buffer :
    Cache → Queue → Slot → (begin size : ℕ) → WaitList → Event → Event × Cache
unfolding new_event push_task enqueue
write_buffer c queue s begin size wait_list evict_event =
    (some (c.fresh + 1), enqueue c1 queue write (c.fresh ∷ []))
  where
    task : AsyncTask
    task = record {
      src_ptr = begin;
      dst_ptr = s.host_ptr;
      size = size;
      wait_list = with_event wait_list evict_event;
      finish_event = c.fresh;
    }

    c1 : Cache
    c1 = push_task (new_event c) queue task

    write : Action
    write = enqueue_write_buffer s.device_buffer size s.host_ptr

abbrev pub fill : (oid buffer_id begin size : ℕ) → Slot → Slot
fill oid buffer_id begin size s = record s {
  cached_object_id = pos oid;
  cached_buffer_id = buffer_id;
  cached_ptr = begin;
  cached_content_length = size;
}

abbrev pub set_buffer : Buffer → Slot → Slot
set_buffer b s = record s { device_buffer = b }

abbrev pub describe : Buffer → (buffer_id size : ℕ) → List BufferDesc
describe b buffer_id size = record { buffer = b; content_length = size; buffer_id = buffer_id } ∷ []

-- The end of `write_and_get` on a CPU, whose buffer is the range itself.
unfoldable pub store_zero_copy : Cache → (device_id i buffer_id begin size : ℕ) → Event → Reply
store_zero_copy c device_id i buffer_id begin size event = record {
  code = success;
  buffers = describe (use_host_ptr size begin) buffer_id size;
  event = event;
  cache = modify_slot c device_id i (set_buffer (use_host_ptr size begin));
}

-- The end on another device: a transient object needs no transfer.
unfoldable pub store_copy :
    Cache → Queue → Slot → (buffer_id begin size : ℕ) → Event → WaitList → ObjectMode → Reply
unfolding write_buffer
store_copy c queue s buffer_id begin size evict_event wait_list transient = record {
  code = success;
  buffers = describe s.device_buffer buffer_id size;
  event = evict_event;
  cache = c;
}
store_copy c queue s buffer_id begin size evict_event wait_list _ = record {
  code = success;
  buffers = describe s.device_buffer buffer_id size;
  event = (write_buffer c queue s begin size wait_list evict_event).0;
  cache = (write_buffer c queue s begin size wait_list evict_event).1;
}

-- `write_and_get` once the slot is locked and evicted. `s` is the slot as it was found.
unfoldable pub store :
    Cache
    → Queue
    → (device_id i : ℕ) → Slot
    → (oid buffer_id begin size : ℕ) → (event evict_event : Event) → WaitList
    → Option Reply
unfolding store_zero_copy store_copy
store c queue device_id i s oid buffer_id begin size event evict_event wait_list = do
  dev ← get_elem? c.device_info device_id
  obj ← get_elem? c.object_info oid
  let c1 = modify_slot c device_id i (fill oid buffer_id begin size)
  if dev.device.cpu
      then some (store_zero_copy c1 device_id i buffer_id begin size event)
      else some (store_copy c1 queue s buffer_id begin size evict_event wait_list obj.mode)

abbrev pub fail : List BufferDesc → Event → Cache → Option Reply
fail buffers event c = some (record { code = failure; buffers = buffers; event = event; cache = c })

-- `write_and_get` after `evict_cache_slot`, by what that returned.
unfoldable pub store_evicted :
    Queue
    → (device_id i : ℕ) → Slot
    → (oid buffer_id begin size : ℕ) → List BufferDesc
    → Event
    → WaitList
    → ℤ × Event × Cache
    → Option Reply
unfolding store
store_evicted queue device_id i s oid buffer_id begin size buffers event wait_list
      (pos _, evict_event, c) =
    store c queue device_id i s oid buffer_id begin size event evict_event wait_list
store_evicted queue device_id i s oid buffer_id begin size buffers event wait_list
      (negsuc _, evict_event, c) =
    fail buffers event c

-- `write_and_get` after `try_write_lock`, by what that returned.
unfoldable pub evict_locked :
    Queue
    → (device_id i : ℕ) → Slot
    → (oid buffer_id begin size : ℕ) → List BufferDesc
    → Event
    → WaitList
    → ℤ × Cache
    → Option Reply
unfolding store_evicted
evict_locked queue device_id i s oid buffer_id begin size buffers event wait_list (pos _, c) = do
  r ← evict_cache_slot c queue device_id i none wait_list
  store_evicted queue device_id i s oid buffer_id begin size buffers event wait_list r
evict_locked queue device_id i s oid buffer_id begin size buffers event wait_list (negsuc _, c) =
    fail buffers event c

-- `write_and_get` from the assigned slot `i` on.
unfoldable pub write_slot :
    Cache
    → Queue
    → (device_id i oid buffer_id begin size : ℕ) → List BufferDesc
    → Event
    → WaitList
    → Option Reply
unfolding evict_locked
write_slot c queue device_id i oid buffer_id begin size buffers event wait_list = do
  s ← slot_at c device_id i
  r ← try_write_lock c device_id i
  evict_locked queue device_id i s oid buffer_id begin size buffers event wait_list r

unfoldable pub write_and_get :
    Cache → Queue → (oid begin end : ℕ) → List BufferDesc → Event → WaitList → Option Reply
unfolding write_slot
write_and_get c queue oid begin end buffers event wait_list =
    if ltb c.buffer_size (sub64 end begin)
    then fail buffers event c
    else elim (find_device_id c queue.device) [
      | negsuc _ ↦ fail buffers event c
      | pos device_id ↦
          let (ret, buffer_id) = find_buffer_id c device_id oid begin 0 in
          elim ret [
            | negsuc _ ↦ fail buffers event c
            | pos _ ↦ do
              assigned ← assign_cache_slot c device_id oid
              elim assigned [
                | negsuc _ ↦ fail buffers event c
                | pos i ↦
                    write_slot c queue device_id i oid buffer_id begin (sub64 end begin) buffers
                      event wait_list
              ]
          ]
    ]

-- `get` of a range that slot `i` holds.
unfoldable pub get_slot :
    Cache → (device_id i buffer_id size : ℕ) → List BufferDesc → Event → Option Reply
get_slot c device_id i buffer_id size buffers event = do
  (locked, c1) ← try_read_lock c device_id i
  elim locked [
    | negsuc _ ↦ fail buffers event c1
    | pos _ ↦ do
      s ← slot_at c1 device_id i
      some (record {
        code = success;
        buffers =
            record { buffer = s.device_buffer; content_length = size; buffer_id = buffer_id } ∷ [];
        event = event;
        cache = c1;
      })
  ]

-- A bad pointer gives the code 0, the initial value of `buffer_id`.
unfoldable pub get :
    Cache → Queue → (oid begin end : ℕ) → List BufferDesc → Event → WaitList → Option Reply
unfolding get_slot
get c queue oid begin end buffers event wait_list =
    if ltb c.buffer_size (sub64 end begin)
    then fail buffers event c
    else elim (find_device_id c queue.device) [
      | negsuc k ↦ reply (negsuc k)
      | pos device_id ↦
          let (ret, buffer_id) = find_buffer_id c device_id oid begin 0 in
          elim ret [
            | negsuc _ ↦ reply (pos buffer_id)
            | pos _ ↦ elim (find_cache_slot c device_id oid buffer_id) [
              | pos i ↦ get_slot c device_id i buffer_id (sub64 end begin) buffers event
              | negsuc k ↦
                  if k == 1
                  then write_and_get c queue oid begin end buffers event wait_list
                  else reply (negsuc k)
            ]
          ]
    ]
  where
    reply : ℤ → Option Reply
    reply code = some (record { code = code; buffers = buffers; event = event; cache = c })

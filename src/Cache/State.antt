-- ===== src/Cache/State.antt =====
-- The state of the buffer cache: buffer_cache.hpp and simple_buffer_cache.hpp.
-- The vectors of `DeviceInfo` are all resized to `num_slots` by `add_device` and never again, so
-- they are one list of slots here. Pointers are addresses, and 0 is the null pointer.
use cl_kmeans.Prelude.{
  ℕ, ◌+◌, ◌-◌, ◌%◌, ◌^◌, Bool, List, [], ◌∷◌, ◌++◌, Option, none, some, ℤ, pos, negsuc, get_elem?,
  modify, ◌==◌, if◌then◌else◌,
}

-- Arithmetic of `size_t` and of `uint32_t`.
abbrev pub sub64 : ℕ → ℕ → ℕ
sub64 a b = (a + 2 ^ 64 - b) % 2 ^ 64

abbrev pub add64 : ℕ → ℕ → ℕ
add64 a b = (a + b) % 2 ^ 64

abbrev pub add32 : ℕ → ℕ → ℕ
add32 a b = (a + b) % 2 ^ 32

abbrev pub sub32 : ℕ → ℕ → ℕ
sub32 a b = (a + 2 ^ 32 - b) % 2 ^ 32

-- The return codes 1, -1 and -2.
abbrev pub success : ℤ
success = pos 1

abbrev pub failure : ℤ
failure = negsuc 0

abbrev pub not_cached : ℤ
not_cached = negsuc 1

pub data ObjectMode : Type 0 where
  read_write read_only transient : ObjectMode

-- An OpenCL device, known by its id. `cpu` is `type() == Device::cpu`.
pub record Device : Type 0 where
  pub id : ℕ
  pub cpu : Bool

pub record Queue : Type 0 where
  pub id : ℕ
  pub device : Device

-- An OpenCL buffer: the default one, one that OpenCL allocates under a new handle (on the device,
-- or pinned on the host), or one that uses the memory of the host at an address.
pub data Buffer : Type 0 where
  default_buffer : Buffer
  device_alloc : (handle size : ℕ) → Buffer
  host_alloc : (handle size : ℕ) → Buffer
  use_host_ptr : (size ptr : ℕ) → Buffer

-- An event by its number; `none` is the default event.
abbrev pub Event : Type 0
Event = Option ℕ

abbrev pub WaitList : Type 0
WaitList = List ℕ

pub record BufferDesc : Type 0 where
  pub buffer : Buffer
  pub content_length : ℕ
  pub buffer_id : ℕ

pub data SlotLockStatus : Type 0 where
  free read_lock write_lock : SlotLockStatus

pub record Slot : Type 0 where
  pub status : SlotLockStatus
  pub count : ℕ
  pub cached_object_id : ℤ
  pub cached_buffer_id : ℕ
  pub cached_ptr : ℕ
  pub cached_content_length : ℕ
  pub device_buffer : Buffer
  pub host_buffer : Buffer
  pub host_ptr : ℕ

pub record DeviceInfo : Type 0 where
  pub device : Device
  pub pool_size : ℕ
  pub num_slots : ℕ
  pub slots : List Slot

pub record ObjectInfo : Type 0 where
  pub ptr : ℕ
  pub size : ℕ
  pub mode : ObjectMode

-- A copy of `size` bytes that an I/O thread makes once the events of `wait_list` are complete.
pub record AsyncTask : Type 0 where
  pub src_ptr : ℕ
  pub dst_ptr : ℕ
  pub size : ℕ
  pub wait_list : WaitList
  pub finish_event : ℕ

-- What the cache enqueues on an OpenCL queue.
pub data Action : Type 0 where
  enqueue_write_buffer : Buffer → (size host_ptr : ℕ) → Action
  enqueue_read_buffer : Buffer → (size host_ptr : ℕ) → Action
  enqueue_barrier : Action

pub record Command : Type 0 where
  pub queue : Queue
  pub action : Action
  pub wait_list : WaitList
  pub event : ℕ

-- `before_objects` is what a read of `object_info_i[-1].mode` gives, which lies before the vector;
-- `none` is undefined behaviour.
-- `commands` are those enqueued so far, in order; `io_thread` maps a queue's id to the tasks that
-- its thread was given; `fresh` numbers the next event or buffer that OpenCL creates.
pub record Cache : Type 0 where
  pub buffer_size : ℕ
  pub device_info : List DeviceInfo
  pub object_info : List ObjectInfo
  pub before_objects : Option ObjectMode
  pub io_thread : List (ℕ × List AsyncTask)
  pub commands : List Command
  pub fresh : ℕ

abbrev pub slot_in : Option DeviceInfo → ℕ → Option Slot
slot_in none i = none
slot_in (some dev) i = get_elem? dev.slots i

-- Slot `i` of device `did`; `none` is out of bounds.
abbrev pub slot_of : List DeviceInfo → ℕ → ℕ → Option Slot
slot_of devs did i = slot_in (get_elem? devs did) i

abbrev pub slot_at : Cache → ℕ → ℕ → Option Slot
slot_at c = slot_of c.device_info

abbrev pub modify_slots : ℕ → (Slot → Slot) → DeviceInfo → DeviceInfo
modify_slots i f dev = record dev { slots = modify dev.slots i f }

abbrev pub modify_slot : Cache → ℕ → ℕ → (Slot → Slot) → Cache
modify_slot c did i f = record c { device_info = modify c.device_info did (modify_slots i f) }

-- `IOThread::push_back`, on the thread of queue `q`, which `get_io_thread` launches if need be.
unfoldable pub push_back : ℕ → AsyncTask → List (ℕ × List AsyncTask) → List (ℕ × List AsyncTask)
push_back q task [] = (q, task ∷ []) ∷ []
push_back q task ((k, tasks) ∷ threads) =
    if k == q then (k, tasks ++ task ∷ []) ∷ threads else (k, tasks) ∷ push_back q task threads

-- One new event.
unfoldable pub new_event : Cache → Cache
new_event c = record c { fresh = c.fresh + 1 }

unfoldable pub push_task : Cache → Queue → AsyncTask → Cache
push_task c q task = record c { io_thread = push_back q.id task c.io_thread }

-- One command on a queue; its event is the cache's `fresh` at the call.
unfoldable pub enqueue : Cache → Queue → Action → WaitList → Cache
enqueue c q action wait_list = record c {
  commands = c.commands ++ command ∷ [];
  fresh = c.fresh + 1;
}
  where
    command : Command
    command = record { queue = q; action = action; wait_list = wait_list; event = c.fresh }

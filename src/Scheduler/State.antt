-- ===== src/Scheduler/State.antt =====
-- The scheduler's view of a buffer cache (buffer_cache.hpp), and the scheduler's state.
use cl_kmeans.Prelude.{ℕ, List, Option, none, some, ℤ, [], ◌∷◌, ◌==◌, if◌then◌else◌}
use cl_kmeans.Cache.State.{Queue, Buffer, BufferDesc, Event}

-- A wait list of the scheduler may hold a default event.
abbrev pub Waits : Type 0
Waits = List Event

-- What `get` returns: its code and out-parameters, and the new cache.
pub record Got (State : Type 0) : Type 0 where
  pub code : ℤ
  pub buffers : List BufferDesc
  pub event : Event
  pub cache : State

pub record Unlocked (State : Type 0) : Type 0 where
  pub code : ℤ
  pub event : Event
  pub cache : State

-- The operations of a `BufferCache` that the scheduler calls. `none` is undefined behaviour.
pub record BufferCache : Type 1 where
  pub State : Type 0
  -- An object's address and length.
  pub object : State → (oid : ℕ) → ℕ × ℕ
  pub get :
      State → Queue → (oid begin end : ℕ) → List BufferDesc → Event → Waits → Option (Got State)
  pub unlock : State → Queue → (oid : ℕ) → List BufferDesc → Event → Waits → Option (Unlocked State)

-- `active_buffers_i` maps an object's id to its buffers.
pub record RState : Type 0 where
  pub queue : Queue
  pub last_event : Event
  pub active_buffers : List (ℕ × List BufferDesc)

-- The objects that a function is run on, with the length of a step in each.
pub data Arguments : Type 0 where
  unary : (object_id step : ℕ) → Arguments
  binary : (fst_object_id snd_object_id fst_step snd_step : ℕ) → Arguments

-- An enqueued function, known by a number. `datapoint` is a pointer.
pub record Runnable : Type 0 where
  pub kernel_function : ℕ
  pub arguments : Arguments
  pub events : List Event
  pub datapoint : Option ℕ

-- A call of a kernel function, with the content lengths and the buffers of its objects. The
-- `buffer_ids` of the descriptors are not passed; they tell which parts of the objects the buffers
-- hold.
pub record Launch : Type 0 where
  pub kernel_function : ℕ
  pub queue : Queue
  pub offset : ℕ
  pub content_lengths : List ℕ
  pub buffers : List Buffer
  pub buffer_ids : List ℕ
  pub wait_list : Waits

-- What the operations of a runnable change: the cache, the run state, the runnable's events, the
-- caller's `last_event`, and the kernel calls so far.
pub record Progress (State : Type 0) : Type 0 where
  pub cache : State
  pub rstate : RState
  pub events : List Event
  pub last_event : Event
  pub launches : List Launch

-- The scheduler: the pair of queues and the functions to run.
pub record Scheduler : Type 0 where
  pub fst_queue : Queue
  pub snd_queue : Queue
  pub run_queue : List Runnable

-- `std::map::find`
unfoldable pub find : ℕ → List (ℕ × List BufferDesc) → Option (List BufferDesc)
find oid [] = none
find oid ((k, buffers) ∷ rest) = if k == oid then some buffers else find oid rest

-- `std::map::erase`
unfoldable pub erase : ℕ → List (ℕ × List BufferDesc) → List (ℕ × List BufferDesc)
erase oid [] = []
erase oid ((k, buffers) ∷ rest) = if k == oid then rest else (k, buffers) ∷ erase oid rest

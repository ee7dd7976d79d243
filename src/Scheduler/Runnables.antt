-- ===== src/Scheduler/Runnables.antt =====
-- `UnaryRunnable` and `BinaryRunnable`.
use cl_kmeans.Prelude.{
  ℕ, ◌-◌, ◌/◌, ◌^◌, List, [], ◌∷◌, ◌++◌, Option, none, some, ℤ, pos, negsuc, ltb, ◌==◌,
  if◌then◌else◌, ◌>>=◌,
}
use cl_kmeans.Cache.State.{success, failure, BufferDesc, Event, add64, sub64}
use cl_kmeans.Scheduler.State.{
  Waits, BufferCache, RState, Progress, Runnable, Arguments, unary, binary, Launch, find,
}
use cl_kmeans.Scheduler.Active.{activate_buffers, deactivate_buffers}

-- `(object_size + step - 1) / step` on `size_t`; a division by 0 is undefined.
unfoldable pub num_steps : (object_size step : ℕ) → Option ℕ
num_steps object_size step =
    if step == 0 then none else some (sub64 (add64 object_size step) 1 / step)

-- A `size_t` as an `int64_t`.
unfoldable pub to_int64 : ℕ → ℤ
to_int64 n = if ltb n (2 ^ 63) then pos n else negsuc (2 ^ 64 - n - 1)

-- `std::deque::front` and `std::map::at`, which the source does not guard.
unfoldable pub front : List BufferDesc → Option BufferDesc
front [] = none
front (desc ∷ buffers) = some desc

unfoldable pub active_front : RState → (object_id : ℕ) → Option BufferDesc
unfolding find front
active_front rs object_id = do buffers ← find object_id rs.active_buffers; front buffers

module _ (B : BufferCache) where
  abbrev Outcome : Type 0
  Outcome = Option (ℤ × Progress B.State)

  unfoldable pub register_buffers : B.State → Arguments → Option ℤ
  unfolding num_steps to_int64
  register_buffers c (unary object_id step) = do
    n ← num_steps (B.object c object_id).1 step
    some (to_int64 n)
  register_buffers c (binary fst_object_id snd_object_id fst_step snd_step) = do
    fst_num ← num_steps (B.object c fst_object_id).1 fst_step
    snd_num ← num_steps (B.object c snd_object_id).1 snd_step
    some (if fst_num == snd_num then to_int64 fst_num else failure)

  abbrev set_event : Progress B.State → Event → Progress B.State
  set_event p e = record p { last_event = e }

  -- The second half of `BinaryRunnable::activate_buffers`, by what the first returned. `event` is
  -- the caller's, which the first half left alone.
  unfoldable pub activate_snd : (object_id step index : ℕ) → Event → ℤ × Progress B.State → Outcome
  unfolding activate_buffers
  activate_snd object_id step index event (negsuc n, p) = some (failure, set_event p event)
  activate_snd object_id step index event (pos n, p) =
      activate_buffers B (set_event p event) object_id step index (p.last_event ∷ [])

  unfoldable pub activate : Progress B.State → Arguments → (index : ℕ) → Waits → Outcome
  unfolding activate_buffers activate_snd
  activate p (unary object_id step) index wait_list =
      activate_buffers B p object_id step index wait_list
  activate p (binary fst_object_id snd_object_id fst_step snd_step) index wait_list = do
    r ← activate_buffers B (set_event p none) fst_object_id fst_step index wait_list
    activate_snd snd_object_id snd_step index p.last_event r

  -- `Runnable::activate_buffers`, with its check of the pointer.
  unfoldable pub activate_runnable : Progress B.State → Runnable → (index : ℕ) → Waits → Outcome
  unfolding activate
  activate_runnable p r index wait_list = elim r.datapoint [
    | none ↦ some (failure, p)
    | some _ ↦ activate p r.arguments index wait_list
  ]

  unfoldable pub deactivate_snd : (object_id : ℕ) → Event → ℤ × Progress B.State → Outcome
  unfolding deactivate_buffers
  deactivate_snd object_id event (negsuc n, p) = some (failure, set_event p event)
  deactivate_snd object_id event (pos n, p) =
      deactivate_buffers B (set_event p event) object_id (p.last_event ∷ [])

  unfoldable pub deactivate : Progress B.State → Arguments → Waits → Outcome
  unfolding deactivate_buffers deactivate_snd
  deactivate p (unary object_id step) wait_list = deactivate_buffers B p object_id wait_list
  deactivate p (binary fst_object_id snd_object_id fst_step snd_step) wait_list = do
    r ← deactivate_buffers B (set_event p none) fst_object_id wait_list
    deactivate_snd snd_object_id p.last_event r

  -- `Runnable::deactivate_buffers` follows the pointer without a check.
  unfoldable pub deactivate_runnable : Progress B.State → Runnable → Waits → Outcome
  unfolding deactivate
  deactivate_runnable p r wait_list = elim r.datapoint [
    | none ↦ none
    | some _ ↦ deactivate p r.arguments wait_list
  ]

  -- The kernel is code of the caller: `kernel_event calls call` is the event that it returns.
  module _ (kernel_event : List Launch → Launch → Event) where
    unfoldable pub launched : Progress B.State → Launch → Progress B.State
    launched p l = record p {
      events = p.events ++ kernel_event p.launches l ∷ [];
      last_event = kernel_event p.launches l;
      launches = p.launches ++ l ∷ [];
    }

    -- The call of a kernel function on the buffers that are active for its objects.
    unfoldable pub launch : Progress B.State → (kernel_function : ℕ) → Arguments → Waits → Outcome
    unfolding launched active_front
    launch p kernel_function (unary object_id step) wait_list = do
      bdesc ← active_front p.rstate object_id
      some (
        success,
        launched p (record {
          kernel_function = kernel_function;
          queue = p.rstate.queue;
          offset = 0;
          content_lengths = bdesc.content_length ∷ [];
          buffers = bdesc.buffer ∷ [];
          buffer_ids = bdesc.buffer_id ∷ [];
          wait_list = wait_list;
        }),
      )
    launch p kernel_function (binary fst_object_id snd_object_id fst_step snd_step) wait_list = do
      fst_bdesc ← active_front p.rstate fst_object_id
      snd_bdesc ← active_front p.rstate snd_object_id
      some (
        success,
        launched p (record {
          kernel_function = kernel_function;
          queue = p.rstate.queue;
          offset = 0;
          content_lengths = fst_bdesc.content_length ∷ snd_bdesc.content_length ∷ [];
          buffers = fst_bdesc.buffer ∷ snd_bdesc.buffer ∷ [];
          buffer_ids = fst_bdesc.buffer_id ∷ snd_bdesc.buffer_id ∷ [];
          wait_list = wait_list;
        }),
      )

    unfoldable pub run_runnable : Progress B.State → Runnable → Waits → Outcome
    unfolding launch
    run_runnable p r wait_list = elim r.datapoint [
      | none ↦ some (failure, p)
      | some _ ↦ launch p r.kernel_function r.arguments wait_list
    ]

-- ===== src/Scheduler/Run.antt =====
-- `SingleDeviceScheduler`: `enqueue` and `run`.
use cl_kmeans.Prelude.{
  ℕ, zero, suc, ◌+◌, ◌%◌, ◌^◌, Bool, true, false, List, [], ◌∷◌, ◌++◌, map, Option, none, some, ℤ,
  pos, negsuc, length, leb, ◌==◌, if◌then◌else◌, ◌>>=◌,
}
use cl_kmeans.Cache.State.{success, failure, Queue, Event}
use cl_kmeans.Scheduler.State.{
  Waits, BufferCache, RState, Progress, Runnable, Arguments, Launch, Scheduler,
}
use cl_kmeans.Scheduler.Runnables.{
  register_buffers, activate_runnable, deactivate_runnable, run_runnable,
}

-- Both overloads of `enqueue`.
unfoldable pub enqueue :
    Scheduler → (kernel_function : ℕ) → Arguments → (datapoint : ℕ) → ℤ × Scheduler
enqueue s kernel_function arguments datapoint =
    (success, record s { run_queue = s.run_queue ++ runnable ∷ [] })
  where
    runnable : Runnable
    runnable = record {
      kernel_function = kernel_function;
      arguments = arguments;
      events = [];
      datapoint = some datapoint;
    }

abbrev pub enqueue_barrier : Scheduler → ℤ × Scheduler
enqueue_barrier s = (failure, s)

-- A wait list with an event, if that is not the default one.
abbrev pub unless_empty : Event → Waits → Waits
unless_empty none wait_list = wait_list
unless_empty (some e) wait_list = some e ∷ []

-- `insert`, under the same condition.
abbrev pub insert_unless_empty : Waits → Event → Waits
insert_unless_empty wait_list none = wait_list
insert_unless_empty wait_list (some e) = wait_list ++ some e ∷ []

abbrev pub set_events : Runnable → List Event → Runnable
set_events r events = record r { events = events }

-- One step of the loop that counts buffers: the new count, or an error.
unfoldable pub count_buffers : (num_buffers : ℕ) → ℤ → Option ℕ
count_buffers num_buffers (negsuc n) = none
count_buffers num_buffers (pos n) =
    if n == 0
    then some num_buffers
    else (if num_buffers == 0
        then some (n % 2 ^ 32)
        else if (n % 2 ^ 32) == num_buffers
        then some num_buffers
        else none)

module _ (B : BufferCache) where
  -- The count, `some none` for the error that `run` reports.
  unfoldable pub register_all : B.State → (num_buffers : ℕ) → List Runnable → Option (Option ℕ)
  unfolding register_buffers count_buffers
  register_all c num_buffers [] = some (some num_buffers)
  register_all c num_buffers (r ∷ rs) = do
    n ← register_buffers B c r.arguments
    elim (count_buffers num_buffers n) [ none ↦ some none | some m ↦ register_all c m rs ]

  -- The result of a loop over the runnables: the code, the runnables with their events, the rest
  -- of the state, and the wait list.
  pub record Pass : Type 0 where
    pub code : ℤ
    pub run_queue : List Runnable
    pub progress : Progress B.State
    pub wait_list : Waits

  -- The runnable at the front with the events it has by now.
  abbrev pub keep : Runnable → Progress B.State → Pass → Pass
  keep r p pass = record pass { run_queue = set_events r p.events ∷ pass.run_queue }

  abbrev pub enter : Progress B.State → Runnable → Progress B.State
  enter p r = record p { events = r.events }

  abbrev pub stop : ℤ → Runnable → List Runnable → Progress B.State → Waits → Pass
  stop code r rs p wait_list = record {
    code = code;
    run_queue = set_events r p.events ∷ rs;
    progress = p;
    wait_list = wait_list;
  }

  abbrev pub done : Progress B.State → Waits → Pass
  done p wait_list = record { code = success; run_queue = []; progress = p; wait_list = wait_list }

  unfoldable pub activate_all : Progress B.State → List Runnable → (index : ℕ) → Waits → Option Pass
  unfolding activate_runnable
  activate_all p [] index wait_list = some (done p wait_list)
  activate_all p (r ∷ rs) index wait_list = do
    q ← activate_runnable B (enter p r) r index wait_list
    elim q.0 [
      | negsuc _ ↦ some (stop failure r rs q.1 wait_list)
      | pos _ ↦ do
        pass ← activate_all q.1 rs index (unless_empty q.1.last_event wait_list)
        some (keep r q.1 pass)
    ]

  -- `checked` tells the loop at the end of `run`, which tests the return code, from the one in the
  -- main loop, which does not.
  unfoldable pub deactivate_all :
      (checked : Bool) → Progress B.State → List Runnable → Waits → Option Pass
  unfolding deactivate_runnable
  deactivate_all checked p [] wait_list = some (done p wait_list)
  deactivate_all checked p (r ∷ rs) wait_list = do
    q ← deactivate_runnable B (enter p r) r wait_list
    elim (if checked then q.0 else pos 0) [
      | negsuc _ ↦ some (stop failure r rs q.1 wait_list)
      | pos _ ↦ do
        pass ← deactivate_all checked q.1 rs (q.1.last_event ∷ [])
        some (keep r q.1 pass)
    ]

  -- The state of `run` between two rounds of its main loop.
  pub record Loop : Type 0 where
    pub code : ℤ
    pub run_queue : List Runnable
    pub active_rstates : List RState
    pub current_queue : ℕ
    pub trans_loop_run_event : Event
    pub cache : B.State
    pub launches : List Launch

  -- The state that a loop over the runnables begins with.
  abbrev pub begin_pass : Loop → RState → Event → Progress B.State
  begin_pass l rs last_event = record {
    cache = l.cache;
    rstate = rs;
    events = [];
    last_event = last_event;
    launches = l.launches;
  }

  -- What `l` is after such a loop.
  abbrev pub end_pass : Loop → Pass → Loop
  end_pass l pass = record l {
    code = pass.code;
    run_queue = pass.run_queue;
    cache = pass.progress.cache;
    launches = pass.progress.launches;
  }

  -- Deactivates the oldest run state where two are active: the event of that, and the new state.
  unfoldable pub make_room : Loop → Option (Event × Loop)
  unfolding deactivate_all
  make_room l = elim l.active_rstates [
    | [] ↦ some (none, l)
    | rs ∷ rest ↦
        if leb 2 (length l.active_rstates)
        then (do
          pass ← deactivate_all false (begin_pass l rs none) l.run_queue (rs.last_event ∷ [])
          some (pass.progress.last_event, record (end_pass l pass) { active_rstates = rest }))
        else some (none, l)
  ]

  module _ (s : Scheduler) (kernel_event : List Launch → Launch → Event) where
    unfoldable pub run_all : Progress B.State → List Runnable → Waits → Option Pass
    unfolding run_runnable
    run_all p [] wait_list = some (done p wait_list)
    run_all p (r ∷ rs) wait_list = do
      q ← run_runnable B kernel_event (enter p r) r wait_list
      elim q.0 [
        | negsuc _ ↦ some (stop failure r rs q.1 wait_list)
        | pos _ ↦ do pass ← run_all q.1 rs (q.1.last_event ∷ []); some (keep r q.1 pass)
      ]

    abbrev pub queue_at : ℕ → Queue
    queue_at current_queue = if current_queue == 0 then s.fst_queue else s.snd_queue

    -- A round's kernels, once the buffers are active. `activate` is the loop over
    -- `activate_buffers`.
    unfoldable pub run_active : Loop → Pass → Option Loop
    unfolding run_all
    run_active l activate = do
      let l' = end_pass l activate
      pass ←
          run_all (begin_pass l' activate.progress.rstate none) l'.run_queue
            (insert_unless_empty activate.wait_list l.trans_loop_run_event)
      let rs = record pass.progress.rstate { last_event = pass.progress.last_event }
      some (record (end_pass l' pass) {
        active_rstates = l.active_rstates ++ rs ∷ [];
        current_queue = (l.current_queue + 1) % 2;
        trans_loop_run_event = pass.progress.last_event;
      })

    -- A round of the main loop, after `make_room`.
    unfoldable pub activate_round : (index : ℕ) → Event → Loop → Option Loop
    unfolding activate_all run_active
    activate_round index deactivate_event l = do
      let rs : RState = record {
        queue = queue_at l.current_queue;
        last_event = none;
        active_buffers = [];
      }
      pass ←
          activate_all (begin_pass l rs none) l.run_queue index
            (insert_unless_empty [] deactivate_event)
      elim pass.code [ negsuc _ ↦ some (end_pass l pass) | pos _ ↦ run_active l pass ]

    unfoldable pub round : (index : ℕ) → Loop → Option Loop
    unfolding make_room activate_round
    round index l = do r ← make_room l; activate_round index r.0 r.1

    -- The main loop from `index` on, `remaining` rounds.
    unfoldable pub rounds : (index remaining : ℕ) → Loop → Option Loop
    unfolding round
    rounds index zero l = some l
    rounds index (suc remaining) l = do
      l' ← round index l
      elim l'.code [ negsuc _ ↦ some l' | pos _ ↦ rounds (suc index) remaining l' ]

  -- The loop that deactivates what is still active.
  unfoldable pub drain : List RState → Loop → Option Loop
  unfolding deactivate_all
  drain [] l = some (record l { active_rstates = [] })
  drain (rs ∷ rest) l = do
    pass ← deactivate_all true (begin_pass l rs none) l.run_queue (rs.last_event ∷ [])
    elim pass.code [
      | negsuc _ ↦ some (record (end_pass l pass) { active_rstates = rs ∷ rest })
      | pos _ ↦ drain rest (end_pass l pass)
    ]

  -- What `run` leaves: its code, the scheduler, the cache, the kernel calls it made, and the
  -- events that each runnable's promise is given.
  pub record Report : Type 0 where
    pub code : ℤ
    pub scheduler : Scheduler
    pub cache : B.State
    pub launches : List Launch
    pub kernel_events : List (List Event)

  module _ (kernel_event : List Launch → Launch → Event) where
    abbrev pub stopped : Scheduler → Loop → Report
    stopped s l = record {
      code = failure;
      scheduler = record s { run_queue = l.run_queue };
      cache = l.cache;
      launches = l.launches;
      kernel_events = [];
    }

    abbrev pub finish : Scheduler → Loop → Report
    finish s l = record {
      code = success;
      scheduler = record s { run_queue = [] };
      cache = l.cache;
      launches = l.launches;
      kernel_events = map (λ r. r.events) l.run_queue;
    }

    abbrev pub start : Scheduler → B.State → Loop
    start s c = record {
      code = success;
      run_queue = s.run_queue;
      active_rstates = [];
      current_queue = 0;
      trans_loop_run_event = none;
      cache = c;
      launches = [];
    }

    -- `run` on `num_buffers` rounds.
    unfoldable pub run_rounds : Scheduler → B.State → (num_buffers : ℕ) → Option Report
    unfolding rounds drain
    run_rounds s c num_buffers = do
      l ← rounds s kernel_event 0 num_buffers (start s c)
      elim l.code [
        | negsuc _ ↦ some (stopped s l)
        | pos _ ↦ do
          l' ← drain l.active_rstates l
          elim l'.code [ negsuc _ ↦ some (stopped s l') | pos _ ↦ some (finish s l') ]
      ]

    unfoldable pub run : Scheduler → B.State → Option Report
    unfolding register_all run_rounds
    run s c = do
      n ← register_all c 0 s.run_queue
      elim n [ none ↦ some (stopped s (start s c)) | some num_buffers ↦ run_rounds s c num_buffers ]

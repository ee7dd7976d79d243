-- ===== src/Cache/IoThread.antt =====
-- `IOThread` (simple_buffer_cache.cpp): the queue of tasks between the callers of the cache and
-- the thread that makes the copies. A call on the queue holds the mutex, so a run of the callers
-- and of the thread is a sequence of whole calls, in any order.
use cl_kmeans.Prelude.{
  ℕ, zero, suc, length, arith, sym, Bool, true, false, List, [], ◌∷◌, ◌++◌, Option, none, some, ◌≡◌,
  refl, ◌∙◌, ap, append_assoc, append-nil, if◌then◌else◌,
}
use cl_kmeans.Cache.State.{AsyncTask}

-- `tasks` holds pointers, `none` is the null pointer. `running` tells whether `work` still loops,
-- and `finished` has the tasks whose copy is made and whose event is complete, in order.
pub record IoThread : Type 0 where
  pub tasks : List (Option AsyncTask)
  pub running : Bool
  pub finished : List AsyncTask

abbrev pub launch_thread : IoThread
launch_thread = record { tasks = []; running = true; finished = [] }

unfoldable pub push_task_back : IoThread → Option AsyncTask → IoThread
push_task_back s task = record s { tasks = s.tasks ++ task ∷ [] }

-- A round of the loop in `work`, by what `tasks` holds: `pop_front` waits where that is nothing.
unfoldable pub work_on : Bool → List (Option AsyncTask) → List AsyncTask → IoThread
work_on false tasks finished = record { tasks = tasks; running = false; finished = finished }
work_on true [] finished = record { tasks = []; running = true; finished = finished }
work_on true (none ∷ tasks) finished = record {
  tasks = tasks;
  running = false;
  finished = finished;
}
work_on true (some task ∷ tasks) finished = record {
  tasks = tasks;
  running = true;
  finished = finished ++ task ∷ [];
}

unfoldable pub work : IoThread → IoThread
unfolding work_on
work s = work_on s.running s.tasks s.finished

-- What happens next: a caller pushes a task, a caller joins, or the thread makes a round.
pub data Turn : Type 0 where
  pushes : AsyncTask → Turn
  joins : Turn
  works : Turn

unfoldable pub take_turn : IoThread → Turn → IoThread
unfolding push_task_back work
take_turn s (pushes task) = push_task_back s (some task)
take_turn s joins = push_task_back s none
take_turn s works = work s

unfoldable pub take_turns : IoThread → List Turn → IoThread
unfolding take_turn
take_turns s [] = s
take_turns s (turn ∷ turns) = take_turns (take_turn s turn) turns

-- What was pushed, in order.
abbrev pub pushed : List Turn → List (Option AsyncTask)
pushed [] = []
pushed (pushes task ∷ turns) = some task ∷ pushed turns
pushed (joins ∷ turns) = none ∷ pushed turns
pushed (works ∷ turns) = pushed turns

-- The tasks before the first null pointer.
abbrev pub until_null : List (Option AsyncTask) → List AsyncTask
until_null [] = []
until_null (none ∷ tasks) = []
until_null (some task ∷ tasks) = task ∷ until_null tasks

-- The queued tasks up to the first null pointer, once `more` is pushed, of a thread that loops.
abbrev remaining : IoThread → List (Option AsyncTask) → List AsyncTask
remaining s more = if s.running then until_null (s.tasks ++ more) else []

work_on_lem :
    (running : Bool) (tasks : List (Option AsyncTask)) (finished : List AsyncTask)
    (more : List (Option AsyncTask))
    → (work_on running tasks finished).finished ++ remaining (work_on running tasks finished) more
      ≡ finished
        ++ remaining (record { tasks = tasks; running = running; finished = finished }) more
unfolding work_on
work_on_lem false tasks finished more = refl
work_on_lem true [] finished more = refl
work_on_lem true (none ∷ tasks) finished more = refl
work_on_lem true (some task ∷ tasks) finished more = append_assoc finished _ _

push_lem :
    (s : IoThread) (task : Option AsyncTask) (more : List (Option AsyncTask))
    → remaining (push_task_back s task) more ≡ remaining s (task ∷ more)
unfolding push_task_back
push_lem s task more =
    ap (λ z. if s.running then until_null z else []) (append_assoc s.tasks (task ∷ []) more)

take_turns_lem :
    (s : IoThread) (turns : List Turn) (more : List (Option AsyncTask))
    → (take_turns s turns).finished ++ remaining (take_turns s turns) more
      ≡ s.finished ++ remaining s (pushed turns ++ more)
unfolding take_turns push_task_back work
take_turns_lem s [] more = refl
take_turns_lem s (pushes task ∷ turns) more =
    take_turns_lem (push_task_back s (some task)) turns more
    ∙ ap (λ z. s.finished ++ z) (push_lem s (some task) (pushed turns ++ more))
take_turns_lem s (joins ∷ turns) more =
    take_turns_lem (push_task_back s none) turns more
    ∙ ap (λ z. s.finished ++ z) (push_lem s none (pushed turns ++ more))
take_turns_lem s (works ∷ turns) more =
    take_turns_lem (work s) turns more
    ∙ work_on_lem s.running s.tasks s.finished (pushed turns ++ more)

-- `n` rounds of the thread alone.
abbrev pub rounds : ℕ → List Turn
rounds zero = []
rounds (suc n) = works ∷ rounds n

pushed-rounds : (n : ℕ) → pushed (rounds n) ≡ []
pushed-rounds zero = refl
pushed-rounds (suc n) = pushed-rounds n

stopped_lem : (n : ℕ) (s : IoThread) → s.running ≡ false → (take_turns s (rounds n)).running ≡ false
unfolding take_turns work work_on
stopped_lem zero s h = h
stopped_lem (suc n) s h = stopped_lem n (work s) (rw h refl)

-- As many rounds as there are tasks leave nothing to finish.
nothing_left :
    (n : ℕ) (tasks : List (Option AsyncTask)) (running : Bool) (finished : List AsyncTask)
    → length tasks ≡ n
    → remaining
        (take_turns (record { tasks = tasks; running = running; finished = finished }) (rounds n))
        []
      ≡ []
unfolding take_turns work work_on
nothing_left n tasks false finished h =
    rw (stopped_lem n (record { tasks = tasks; running = false; finished = finished }) refl) refl
nothing_left zero [] true finished h = refl
nothing_left zero (t ∷ tasks) true finished h = absurd (omega (arith, h))
nothing_left (suc n) [] true finished h = absurd (omega (arith, h))
nothing_left (suc n) (none ∷ tasks) true finished h =
    nothing_left n tasks false finished (omega (arith, h))
nothing_left (suc n) (some task ∷ tasks) true finished h =
    nothing_left n tasks true (finished ++ task ∷ []) (omega (arith, h))

-- In every run from `launch_thread`, in which callers push and join and the thread makes rounds in
-- any order: once the thread has then made as many rounds as tasks are queued, it has finished
-- exactly the tasks that were pushed before the first join, each once and in the order of the
-- pushes; and what it finished up to then is the first part of these.
pub launch_thread-take_turns :
    (turns : List Turn)
    → let s = take_turns launch_thread turns in
      ((take_turns s (rounds (length s.tasks))).finished ≡ until_null (pushed turns))
      × ((later : List AsyncTask) × (s.finished ++ later ≡ until_null (pushed turns)))
launch_thread-take_turns turns =
    let s = take_turns launch_thread turns in
    let e : s.finished ++ remaining s [] ≡ until_null (pushed turns) =
      take_turns_lem launch_thread turns [] ∙ ap until_null (append-nil (pushed turns)) in
    let n = length s.tasks in
    let all = take_turns_lem s (rounds n) [] in
    let none_left : remaining (take_turns s (rounds n)) [] ≡ [] =
      nothing_left n s.tasks s.running s.finished refl in
    (
      sym (append-nil _)
          ∙ ap (λ z. (take_turns s (rounds n)).finished ++ z) (sym none_left)
          ∙ all
          ∙ ap (λ z. s.finished ++ remaining s z) (append-nil (pushed (rounds n)) ∙ pushed-rounds n)
          ∙ e,
      (remaining s [], e),
    )

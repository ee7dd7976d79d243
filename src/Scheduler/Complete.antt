-- ===== src/Scheduler/Complete.antt =====
-- `run` processes every object once, part by part, with every function that was enqueued.
use cl_kmeans.Prelude.{ℕ, ◌<◌, ◌^◌, List, [], map, ◌≡◌, ◌⊎◌}
use cl_kmeans.Cache.State.{success, failure, Event}
use cl_kmeans.Scheduler.State.{BufferCache, Launch, Scheduler}
use cl_kmeans.Scheduler.Run.{Report}
use cl_kmeans.Scheduler.Contract.{Contract}
use cl_kmeans.Scheduler.Activation.{Steady}
use cl_kmeans.Scheduler.Launches.{job, Call, call, Ready}
use cl_kmeans.Scheduler.Rounds.{expected}

module _ (B : BufferCache) (K : Contract B) (extent : ℕ → ℕ × ℕ) (step_of : ℕ → ℕ) (n : ℕ)
    (narrow : n < 2 ^ 32) where
  module _ (kernel_event : List Launch → Launch → Event) (s : Scheduler) (c : B.State)
      (ready : Ready B K extent step_of n (map job s.run_queue))
      (steady : Steady B K extent step_of n c) where
    -- The calls of all parts in order, and for each part those of all runnables in order.
    abbrev pub all_calls : List Call
    all_calls = expected B K extent step_of n (map job s.run_queue) ready 0 n

    -- What `run` leaves: an error, or an empty queue, the calls, and a cache that behaves and shows
    -- the objects as before.
    pub record Processed (report : Report B) : Type 0 where
      pub code : report.code ≡ success
      pub emptied : report.scheduler ≡ record s { run_queue = [] }
      pub launches : map call report.launches ≡ all_calls
      pub behaves : Steady B K extent step_of n report.cache

    abbrev pub Finished : Report B → Type 0
    Finished report = (report.code ≡ failure) ⊎ Processed report

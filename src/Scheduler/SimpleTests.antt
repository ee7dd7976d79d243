-- ===== src/Scheduler/SimpleTests.antt =====
-- A run of the scheduler on a small `SimpleBufferCache`, and an instance of its theorem.
use cl_kmeans.Prelude.{ℕ, zero, suc, ◌+◌, false, List, [], none, some}
use cl_kmeans.Cache.State.{Queue, Device, Cache, Event, WaitList, read_write, read_only}
use cl_kmeans.Cache.Setup.{init, add_device, add_object}
use cl_kmeans.Scheduler.State.{Waits, Scheduler, Launch, unary, binary}
use cl_kmeans.Scheduler.Run.{enqueue}
use cl_kmeans.Scheduler.Run

abbrev gpu : Device
gpu = record { id = 7; cpu = false }

abbrev queue_of : ℕ → Queue
queue_of k = record { id = k; device = gpu }

abbrev pinned : ℕ → ℕ
pinned h = 10000 + h

abbrev no_events : Waits → WaitList
no_events w = []

-- Buffers of 16 bytes, four slots, and objects of 64 and 32 bytes.
abbrev sample : Cache
unfolding init add_device add_object
sample =
    (add_object
      (add_object (add_device pinned (init (some read_only) 16) gpu 64).1 1000 64 read_write).1 2000
      32 read_only).1

abbrev step_of : ℕ → ℕ
step_of zero = 1
step_of (suc zero) = 16
step_of (suc (suc k)) = 8

-- The scheduler with a function on object 1 and one on objects 1 and 2.
abbrev jobs : Scheduler
unfolding enqueue
jobs = (enqueue (enqueue idle 5 (unary 1 16) 9).1 6 (binary 1 2 16 8) 9).1
  where
    idle : Scheduler
    idle = record { fst_queue = queue_of 0; snd_queue = queue_of 1; run_queue = [] }

abbrev event_of : List Launch → Launch → Event
event_of calls l = none

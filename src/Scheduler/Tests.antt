-- ===== src/Scheduler/Tests.antt =====
-- Runs of the scheduler on a small cache, and instances of its theorems.
use cl_kmeans.Prelude.{
  ℕ, zero, suc, ◌-◌, ◌≤◌, ◌<◌, false, List, [], ◌∷◌, none, some, ◌≡◌, refl, arith,
}
use cl_kmeans.Cache.State.{Queue, device_alloc, Event, success}
use cl_kmeans.Scheduler.State.{BufferCache, Scheduler, Launch, unary, binary}
use cl_kmeans.Scheduler.Active.{offset, end_offset}
use cl_kmeans.Scheduler.Runnables.{num_steps}
use cl_kmeans.Scheduler.Run.{enqueue}
use cl_kmeans.Scheduler.Parts.{IsCut, parts_cover}
use cl_kmeans.Scheduler.Contract.{Contract}

abbrev queue_of : ℕ → Queue
queue_of k = record { id = k; device = record { id = 0; cpu = false } }

abbrev cut : IsCut 70 16
cut = record { not_empty = omega arith; step_positive = omega arith; narrow = omega arith }

parts_cover_example :
    (index : ℕ) × (index < 5)
    × (offset 16 index ≤ 65)
    × (65 < end_offset 70 16 index)
    × ((j : ℕ) → j < 5 → offset 16 j ≤ 65 → 65 < end_offset 70 16 j → j ≡ index)
unfolding num_steps
parts_cover_example = parts_cover 70 16 cut 5 65 refl (omega arith)

-- Three objects, of 64, 32 and 0 bytes.
abbrev extent : ℕ → ℕ × ℕ
extent zero = (0, 0)
extent (suc zero) = (1000, 64)
extent (suc (suc zero)) = (2000, 32)
extent (suc (suc (suc k))) = (3000, 0)

abbrev step_of : ℕ → ℕ
step_of zero = 1
step_of (suc zero) = 16
step_of (suc (suc k)) = 8

-- A cache whose buffers hold what is asked for. Its state counts the calls.
abbrev ideal : BufferCache
ideal = record {
  State = ℕ;
  object = λ c. extent;
  get = λ c queue oid begin end buffers event wait_list. some (record {
    code = success;
    buffers =
        record {
          buffer = device_alloc oid 16;
          content_length = end - begin;
          buffer_id = begin - (extent oid).0;
        }
        ∷ [];
    event = some c;
    cache = suc c;
  });
  unlock = λ c queue oid buffers event wait_list.
      some (record { code = success; event = event; cache = suc c });
}

abbrev ideal_contract : Contract ideal
ideal_contract = record {
  Inv = λ c. Unit;
  get = λ c queue oid begin end event wait_list i p q r.
      (tt, λ o. refl, λ n e. (_, refl, refl, refl));
  unlock = λ c queue oid buffers event wait_list i. (tt, λ o. refl);
}

-- The scheduler with a function on object 1 and one on objects 1 and 2.
abbrev sample : Scheduler
unfolding enqueue
sample = (enqueue (enqueue idle 5 (unary 1 16) 9).1 6 (binary 1 2 16 8) 9).1
  where
    idle : Scheduler
    idle = record { fst_queue = queue_of 0; snd_queue = queue_of 1; run_queue = [] }

abbrev event_of : List Launch → Launch → Event
event_of calls l = none

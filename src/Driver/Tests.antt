-- ===== src/Driver/Tests.antt =====
-- Instances of the theorems on the buffered driver's loop and on its reads of the labels.
use cl_kmeans.Prelude.{
  ℕ, zero, suc, ◌+◌, ◌-◌, false, List, [], ◌∷◌, none, some, ◌≡◌, refl, arith, Gives,
}
use cl_kmeans.Cache.State.{Queue, Cache, device_alloc, Event, success, read_only}
use cl_kmeans.Cache.Setup.{init, add_device, add_object}
use cl_kmeans.Scheduler.State.{BufferCache, Launch, Scheduler}
use cl_kmeans.Scheduler.Runnables.{num_steps}
use cl_kmeans.Scheduler.Contract.{Contract}
use cl_kmeans.Driver.Buffered.{Settings}
use cl_kmeans.Driver.Calls.{Sized, part_calls}
use cl_kmeans.Driver.Labels.{read_all_labels, Chain, Covered, read_all_labels-Chain}

abbrev queue_of : ℕ → Queue
queue_of k = record { id = k; device = record { id = 0; cpu = false } }

abbrev idle : Scheduler
idle = record { fst_queue = queue_of 0; snd_queue = queue_of 1; run_queue = [] }

-- The points of 2 features and the labels of 2 ^ 22 points.
abbrev extent : ℕ → ℕ × ℕ
extent zero = (0, 0)
extent (suc zero) = (1000, 33_554_432)
extent (suc (suc k)) = (50_000_000, 16_777_216)

abbrev ideal : BufferCache
ideal = record {
  State = Unit;
  object = λ c. extent;
  get = λ c queue oid begin end buffers event wait_list. some (record {
    code = success;
    buffers =
        record {
          buffer = device_alloc oid 16;
          content_length = end - begin;
          buffer_id = begin - (extent oid).0;
        }
        ∷ [];
    event = none;
    cache = tt;
  });
  unlock = λ c queue oid buffers event wait_list.
      some (record { code = success; event = event; cache = tt });
}

abbrev ideal_contract : Contract ideal
ideal_contract = record {
  Inv = λ c. Unit;
  get = λ c queue oid begin end event wait_list i p q r.
      (tt, λ o. refl, λ n e. (_, refl, refl, refl));
  unlock = λ c queue oid buffers event wait_list i. (tt, λ o. refl);
}

abbrev settings : Settings
settings = record { num_features = 2; points_handle = 1; labels_handle = 2; max_iterations = 3 }

abbrev two_parts : Sized settings extent 4_194_304 2
unfolding num_steps
two_parts = record {
  apart = λ e. omega (arith, e);
  some_feature = omega arith;
  divided = refl;
  some_label = omega arith;
  labels = refl;
  points = refl;
  narrow = omega arith;
  parts = refl;
  few = omega arith;
}

abbrev event_of : List Launch → Launch → Event
event_of calls l = none

-- Each iteration calls the functions for two buffers of 8 MiB of labels.
two-calls :
    part_calls 2 8_388_608 (λ index. 8_388_608) 0 2
    ≡ (0, 0 ∷ 0 ∷ [], 16_777_216 ∷ 8_388_608 ∷ [])
      ∷ (1, 0 ∷ [], 8_388_608 ∷ [])
      ∷ (2, 0 ∷ 0 ∷ [], 16_777_216 ∷ 8_388_608 ∷ [])
      ∷ (0, 16_777_216 ∷ 8_388_608 ∷ [], 16_777_216 ∷ 8_388_608 ∷ [])
      ∷ (1, 8_388_608 ∷ [], 8_388_608 ∷ [])
      ∷ (2, 16_777_216 ∷ 8_388_608 ∷ [], 16_777_216 ∷ 8_388_608 ∷ [])
      ∷ []
unfolding part_calls
two-calls = refl

-- Buffers of 16 bytes, four slots on the device of the queue, and 40 bytes of labels.
abbrev cache_of_labels : Cache
unfolding init add_device add_object
cache_of_labels =
    (add_object (add_device (λ h. 10000 + h) (init none 16) (queue_of 0).device 64).1 2000 40
      read_only).1

-- 40 bytes of labels are read as two ranges of 16 bytes and one of 8.
three-ranges : Chain (queue_of 0) 1 16 2000 2040 ((2000, 2016) ∷ (2016, 2032) ∷ (2032, 2040) ∷ [])
three-ranges = (
  refl,
  omega arith,
  omega arith,
  (refl, omega arith, omega arith, (refl, omega arith, omega arith, refl)),
)

read_all_labels-Chain_example :
    Gives
      (Covered (queue_of 0) 1 16 2000 2040)
      (read_all_labels (queue_of 0) 1 16 cache_of_labels 2000 40)
read_all_labels-Chain_example =
    read_all_labels-Chain (queue_of 0) 1 16 (omega arith) cache_of_labels 2000 40

-- ===== src/Cache/Tests.antt =====
-- Runs of the buffer cache on small inputs, and instances of its theorems.
use cl_kmeans.Prelude.{
  ℕ, ◌++◌, zero, suc, ◌+◌, ◌*◌, ◌≤◌, false, [], ◌∷◌, List, none, some, pos, ◌≡◌, refl, inr, arith,
  Ensures, Ensures-elim, IsDefined, get_elem?, length,
}
use cl_kmeans.Cache.State.{
  AsyncTask, DeviceInfo, failure, success, free, Cache, Device, Queue, read_write, read_only, Slot,
  slot_at, device_alloc, host_alloc, write_lock,
}
use cl_kmeans.Cache.Setup.{init, add_device, add_object}
use cl_kmeans.Cache.Find.{
  find_device_id, find_buffer_id, find_cache_slot, assign_cache_slot, base_slot,
}
use cl_kmeans.Cache.Hit.{get-unlock_hit}
use cl_kmeans.Cache.Lock.{try_write_lock, unlock, set_lock}
use cl_kmeans.Cache.Transfer.{Reply, read, evict_cache_slot, write_and_get, get, describe}
use cl_kmeans.Cache.Calls.{
  Access, gets, unlocks, access, Call, adds_device, adds_object, accesses, run,
}
use cl_kmeans.Cache.Locked.{Held, access-Held}
use cl_kmeans.Cache.Valid.{ReadsBefore, IsValid}
use cl_kmeans.Cache.History.{run-init-IsValid}
use cl_kmeans.Cache.IoThread.{
  Turn, take_turns, launch_thread, rounds, pushes, works, joins, launch_thread-take_turns,
}
use cl_kmeans.Cache.Defined.{HasRoom}
use cl_kmeans.Cache.Total.{access-IsDefined}
use cl_kmeans.Cache.Lookup.{InRange}
use cl_kmeans.Cache.Errors.{get_outside, write_and_get_overrun}

abbrev gpu : Device
gpu = record { id = 7; cpu = false }

abbrev queue : Queue
queue = record { id = 1; device = gpu }

abbrev pinned : ℕ → ℕ
pinned h = 10000 + h

-- Buffers of 16 bytes, four slots on one device, and two objects.
abbrev sample : Cache
unfolding init add_device add_object
sample =
    (add_object
      (add_object (add_device pinned (init (some read_only) 16) gpu 64).1 1000 64 read_write).1 2000
      32 read_only).1

-- The first slot after a `get` of the second buffer of object 1.
abbrev held_slot : Slot
held_slot = record {
  status = write_lock;
  count = 1;
  cached_object_id = pos 1;
  cached_buffer_id = 16;
  cached_ptr = 1016;
  cached_content_length = 16;
  device_buffer = device_alloc 0 16;
  host_buffer = host_alloc 4 16;
  host_ptr = 10004;
}

abbrev held : Cache
unfolding sample find_device_id find_buffer_id find_cache_slot assign_cache_slot base_slot
    try_write_lock evict_cache_slot write_and_get get
held = elim (get sample queue 1 1016 1032 [] none []) [ none ↦ sample | some r ↦ r.cache ]

held_slot_at : slot_at held 0 0 ≡ some held_slot
unfolding held
held_slot_at = refl

abbrev second : Access
second = gets queue 1 1032 1048 [] none []

access-Held_example : Ensures (λ c'. Held false c' 0 0 held_slot) (access held second)
access-Held_example = access-Held held second 0 0 held_slot held_slot_at (inr (λ e. cc))

abbrev history : List Call
history =
    adds_device gpu 64
    ∷ adds_object 1000 64 read_write
    ∷ accesses (gets queue 1 1016 1032 [] none [])
    ∷ accesses second
    ∷ accesses (unlocks queue 1 (describe (device_alloc 0 16) 16 16))
    ∷ accesses (gets queue 1 1048 1064 [] none [])
    ∷ []

run-init-IsValid_example : Ensures (IsValid 6) (run pinned (init (some read_only) 16) history)
run-init-IsValid_example = run-init-IsValid pinned (some read_only) 16 history (omega arith)

sample-IsValid : IsValid 3 sample
unfolding sample run
sample-IsValid =
    Ensures-elim (IsValid 3) (run pinned (init (some read_only) 16) setup)
      (run-init-IsValid pinned (some read_only) 16 setup (omega arith)) refl
  where
    setup : List Call
    setup = adds_device gpu 64 ∷ adds_object 1000 64 read_write ∷ adds_object 2000 32 read_only ∷ []

sample-HasRoom : HasRoom sample
unfolding sample
sample-HasRoom = record { slots = slots; objects = omega arith }
  where
    slots :
        (did : ℕ) (dev : DeviceInfo)
        → get_elem? sample.device_info did ≡ some dev
        → 2 * length sample.object_info ≤ length dev.slots + 2
    slots zero dev e = ground (arith, e)
    slots (suc did) dev e = ground (arith, e)

sample-ReadsBefore : ReadsBefore sample
unfolding sample
sample-ReadsBefore = (read_only, refl)

access-IsDefined_example : IsDefined (access sample second)
access-IsDefined_example =
    access-IsDefined 3 sample sample-IsValid sample-ReadsBefore sample-HasRoom second

sample_outside : (b : ℕ) → ¬ InRange sample 2 1016 b
unfolding sample
sample_outside b r = ground (arith, r.found, r.from)

get_outside_example :
    (get sample queue 2 1016 1032 [] none []
      ≡ some (record { code = pos 0; buffers = []; event = none; cache = sample }))
    × (read sample queue 2 1016 1032 none [] ≡ some (pos 0, none, sample))
    × (write_and_get sample queue 2 1016 1032 [] none []
        ≡ some (record { code = failure; buffers = []; event = none; cache = sample }))
unfolding sample find_device_id
get_outside_example =
    get_outside sample queue 2 1016 1032 [] none [] {did = 0} (omega arith) refl sample_outside

-- A third object, for which the device has no slots.
abbrev crowded : Cache
unfolding sample add_object
crowded = (add_object sample 3000 64 read_write).1

crowded_range : InRange crowded 3 3000 0
unfolding crowded
crowded_range = record {
  object = record { ptr = 3000; size = 64; mode = read_write };
  found = refl;
  valid = omega arith;
  not_null = omega arith;
  from = omega arith;
  to = omega arith;
  offset = refl;
}

write_and_get_overrun_example : write_and_get crowded queue 3 3000 3016 [] none [] ≡ none
unfolding crowded find_device_id
write_and_get_overrun_example =
    write_and_get_overrun crowded queue 3 3000 3016 [] none [] {did = 0} (omega arith) refl 0
      crowded_range refl (omega arith) (omega arith)

abbrev copy_of : ℕ → AsyncTask
copy_of k = record { src_ptr = k; dst_ptr = k + 64; size = 16; wait_list = []; finish_event = k }

-- The second task is pushed behind a join.
abbrev some_turns : List Turn
some_turns = pushes (copy_of 1) ∷ pushes (copy_of 3) ∷ works ∷ joins ∷ pushes (copy_of 2) ∷ []

launch_thread-take_turns_example :
    ((take_turns
        (take_turns launch_thread some_turns)
        (rounds (length (take_turns launch_thread some_turns).tasks))).finished
      ≡ copy_of 1 ∷ copy_of 3 ∷ [])
    × ((later : List AsyncTask) × ((take_turns launch_thread some_turns).finished ++ later
          ≡ copy_of 1 ∷ copy_of 3 ∷ []))
launch_thread-take_turns_example = launch_thread-take_turns some_turns

-- The second buffer of object 1, loaded and unlocked again.
abbrev warm_up : List Call
warm_up =
    adds_device gpu 64
    ∷ adds_object 1000 64 read_write
    ∷ accesses (gets queue 1 1016 1032 [] none [])
    ∷ accesses (unlocks queue 1 (describe (device_alloc 0 16) 16 16))
    ∷ []

abbrev warm : Cache
unfolding init add_device add_object find_device_id find_buffer_id find_cache_slot assign_cache_slot
    base_slot try_write_lock evict_cache_slot write_and_get get access unlock run
warm = elim (run pinned (init (some read_only) 16) warm_up) [
  | none ↦ init (some read_only) 16
  | some c ↦ c
]

warm-IsValid : IsValid 4 warm
unfolding warm
warm-IsValid =
    Ensures-elim (IsValid 4) (run pinned (init (some read_only) 16) warm_up)
      (run-init-IsValid pinned (some read_only) 16 warm_up (omega arith)) refl

warm_range : InRange warm 1 1016 16
unfolding warm
warm_range = record {
  object = record { ptr = 1000; size = 64; mode = read_write };
  found = refl;
  valid = omega arith;
  not_null = omega arith;
  from = omega arith;
  to = omega arith;
  offset = refl;
}

get-unlock_hit_example :
    (r : Reply) × (get warm queue 1 1016 1032 [] none [] ≡ some r)
    × (r.code ≡ success)
    × (r.buffers ≡ record { buffer = device_alloc 0 16; content_length = 16; buffer_id = 16 } ∷ [])
    × (unlock r.cache queue 1 r.buffers ≡ some (success, warm))
unfolding warm find_device_id find_cache_slot
get-unlock_hit_example =
    get-unlock_hit 4 warm warm-IsValid (omega arith) queue 1 1016 1032 16 0 0
      (set_lock free 0 held_slot) [] none [] (omega arith) refl warm_range refl refl (λ e. cc)

-- ===== src/Cache/Hit.antt =====
-- A `get` of a range that a slot holds, and the `unlock` of what it hands out.
use mathlib.Core.Option
use cl_kmeans.Prelude.{
  ℕ, zero, suc, ◌+◌, ◌^◌, ◌≤◌, ◌<◌, false, List, [], ◌∷◌, none, some, ℤ, pos, ◌≡◌, ◌≢◌, refl, ◌∙◌,
  ap, sym, subst, arith, length, get_elem?, modify, get_elem?-lt, get_elem?-modify_self, ltb, leb,
  ◌==◌, ◌||◌, if◌then◌else◌,
}
use cl_kmeans.Cache.State.{
  add32, add64, sub64, success, failure, Queue, BufferDesc, Event, WaitList, free, read_lock,
  write_lock, SlotLockStatus, Slot, Device, DeviceInfo, Cache, slot_at, slot_of, modify_slot,
  modify_slots,
}
use cl_kmeans.Cache.Find.{find_device_from, find_device_id, find_slot_from, find_cache_slot, holds}
use cl_kmeans.Cache.Lock.{
  set_lock, lock_read, release, change_lock, try_lock, try_read_lock, unlock_buffer, unlock_list,
  unlock,
}
use cl_kmeans.Cache.Transfer.{Reply, get_slot, get}
use cl_kmeans.Cache.Slots.{put, modify-put, put_self, put-put, slot_of-some, slot_of-put_self}
use cl_kmeans.Cache.Lookup.{InRange}
use cl_kmeans.Cache.Valid.{IsValid, LockValid}
use cl_kmeans.Cache.Errors.{find_buffer_id_inside}

-- Locks do not count in a search.
find_slot_from-set_lock :
    (k oid buffer_id : ℕ) (slots : List Slot) (i : ℕ) (status : SlotLockStatus) (n : ℕ)
    → find_slot_from k oid buffer_id (modify slots i (set_lock status n))
      ≡ find_slot_from k oid buffer_id slots
unfolding find_slot_from holds
find_slot_from-set_lock k oid buffer_id [] i status n = refl
find_slot_from-set_lock k oid buffer_id (s ∷ slots) zero status n = refl
find_slot_from-set_lock k oid buffer_id (s ∷ slots) (suc i) status n =
    rw (find_slot_from-set_lock (suc k) oid buffer_id slots i status n) refl

find_device_from-modify :
    (k : ℕ) (device : Device) (devs : List DeviceInfo) (did i : ℕ) (f : Slot → Slot)
    → find_device_from k device (modify devs did (modify_slots i f))
      ≡ find_device_from k device devs
unfolding find_device_from
find_device_from-modify k device [] did i f = refl
find_device_from-modify k device (dev ∷ devs) zero i f = refl
find_device_from-modify k device (dev ∷ devs) (suc did) i f =
    rw (find_device_from-modify (suc k) device devs did i f) refl

module _ (c : Cache) (did i : ℕ) (status : SlotLockStatus) (n : ℕ) where
  abbrev locked : Cache
  locked = modify_slot c did i (set_lock status n)

  find_device_id-locked : (device : Device) → find_device_id locked device ≡ find_device_id c device
  unfolding find_device_id
  find_device_id-locked device =
      find_device_from-modify 0 device c.device_info did i (set_lock status n)

  -- `find_cache_slot` on a known device, by what its loop answers.
  abbrev searched : (oid buffer_id : ℕ) → ℤ → ℤ
  searched oid buffer_id z =
      if oid == 0 || leb (length c.object_info) oid
      then failure
      else elim (get_elem? c.object_info oid) [
        | none ↦ failure
        | some obj ↦ if leb (sub64 (add64 obj.size c.buffer_size) 1) buffer_id then failure else z
      ]

  find_cache_slot-locked :
      (oid buffer_id : ℕ) {dev : DeviceInfo}
      → get_elem? c.device_info did ≡ some dev
      → find_cache_slot locked did oid buffer_id ≡ find_cache_slot c did oid buffer_id
  unfolding find_cache_slot
  find_cache_slot-locked oid buffer_id {dev} e =
      let there : get_elem? locked.device_info did ≡ some (modify_slots i (set_lock status n) dev) =
        get_elem?-modify_self c.device_info did (modify_slots i (set_lock status n))
        ∙ ap (Option.map (modify_slots i (set_lock status n))) e in
      rw (there, find_cache_slot)
        (rw (e, find_cache_slot)
          (ap (searched oid buffer_id)
            (find_slot_from-set_lock 0 oid buffer_id dev.slots i status n)))

-- A lock of a reader that can be taken back.
record Taken (s : Slot) : Type 0 where
  count : ℕ
  by_get : lock_read s.status s.count ≡ (success, set_lock read_lock count)
  back : SlotLockStatus
  back_count : ℕ
  by_unlock : release read_lock count ≡ (success, set_lock back back_count)
  status_same : back ≡ s.status
  count_same : back_count ≡ s.count

take :
    (k : ℕ) (s : Slot)
    → LockValid k s.status s.count
    → k + 1 < 2 ^ 32
    → s.status ≢ write_lock
    → Taken s
unfolding lock_read release
take k s valid narrow readable = take_by s.status refl
  where
    take_by : (status : SlotLockStatus) → s.status ≡ status → Taken s
    take_by free e =
        let zero_readers : s.count ≡ 0 = subst (λ st. LockValid k st s.count) e valid in
        record {
          count = 1;
          by_get = rw e refl;
          back = free;
          back_count = 0;
          by_unlock = refl;
          status_same = sym e;
          count_same = sym zero_readers;
        }
    take_by read_lock e =
        let (some_reader, few) : (1 ≤ s.count) × (s.count ≤ k) =
          subst (λ st. LockValid k st s.count) e valid in
        let next : add32 s.count 1 ≡ suc s.count = omega (arith, few, narrow) in
        let more : (suc s.count == 1) ≡ false = ground (arith, some_reader) in
        record {
          count = suc s.count;
          by_get = rw e (ap (λ n. (success, set_lock read_lock n)) next);
          back = read_lock;
          back_count = s.count;
          by_unlock = rw more (ap (λ n. (success, set_lock read_lock n)) (omega arith));
          status_same = sym e;
          count_same = refl;
        }
    take_by write_lock e = absurd (readable e)

-- The cache as it was, after the lock is taken and given back.
relocked :
    (c : Cache) (did i : ℕ) (s : Slot) (t : Taken s)
    → slot_at c did i ≡ some s
    → modify_slot
        (modify_slot c did i (set_lock read_lock t.count))
        did
        i
        (set_lock t.back t.back_count)
      ≡ c
relocked c did i s t h = λ j. record c { device_info = devices j }
  where
    held : Slot
    held = set_lock read_lock t.count s

    devices :
        modify
          (modify c.device_info did (modify_slots i (set_lock read_lock t.count)))
          did
          (modify_slots i (set_lock t.back t.back_count))
        ≡ c.device_info
    devices =
        ap (λ d. modify d did (modify_slots i (set_lock t.back t.back_count)))
          (modify-put c.device_info did i (set_lock read_lock t.count) h)
        ∙ modify-put (put c.device_info did i held) did i (set_lock t.back t.back_count)
            (slot_of-put_self c.device_info did i held h)
        ∙ put-put c.device_info did i held (set_lock t.back t.back_count held)
        ∙ ap (put c.device_info did i)
            (λ j. record s { status = t.status_same j; count = t.count_same j })
        ∙ put_self c.device_info did i h

-- The lock of a reader, taken and given back.
module _ (c : Cache) (did i : ℕ) (s : Slot) (t : Taken s) (there : slot_at c did i ≡ some s) where
  abbrev read_locked : Cache
  read_locked = modify_slot c did i (set_lock read_lock t.count)

  slot_at-read_locked : slot_at read_locked did i ≡ some (set_lock read_lock t.count s)
  slot_at-read_locked =
      ap (λ d. slot_of d did i) (modify-put c.device_info did i (set_lock read_lock t.count) there)
      ∙ slot_of-put_self c.device_info did i (set_lock read_lock t.count s) there

  try_read_lock-open :
      (dev : DeviceInfo)
      → get_elem? c.device_info did ≡ some dev
      → get_elem? dev.slots i ≡ some s
      → i < dev.num_slots
      → try_read_lock c did i ≡ some (success, read_locked)
  unfolding try_read_lock try_lock change_lock
  try_read_lock-open dev e in_dev lt =
      let inside : leb dev.num_slots i ≡ false = ground (arith, lt) in
      rw (e, try_read_lock) (rw (inside, try_read_lock) (rw in_dev (rw t.by_get refl)))

  change_lock-back : change_lock release read_locked did i ≡ some (success, c)
  unfolding change_lock
  change_lock-back =
      rw slot_at-read_locked
        (rw t.by_unlock (ap (λ c'. some (success, c')) (relocked c did i s t there)))

module _ (k : ℕ) (c : Cache) (valid : IsValid k c) (narrow : k + 1 < 2 ^ 32) (queue : Queue)
    (oid begin end b did i : ℕ) (s : Slot) where
  -- On a well-formed cache with at most k readers of a slot, k + 1 below 2^32: `get` of a range of
  -- at most a buffer's length that begins in an object, on a known device where a slot holds the
  -- object's buffer of that begin and is not locked for writing, succeeds and hands out the slot's
  -- buffer; and `unlock` of what it hands out succeeds and makes the cache the one before the `get`.
  pub get-unlock_hit :
      (buffers : List BufferDesc) (event : Event) (wait_list : WaitList)
      → sub64 end begin ≤ c.buffer_size
      → find_device_id c queue.device ≡ pos did
      → InRange c oid begin b
      → find_cache_slot c did oid b ≡ pos i
      → slot_at c did i ≡ some s
      → s.status ≢ write_lock
      → (r : Reply) × (get c queue oid begin end buffers event wait_list ≡ some r)
        × (r.code ≡ success)
        × (r.buffers
            ≡ record { buffer = s.device_buffer; content_length = sub64 end begin; buffer_id = b }
              ∷ [])
        × (unlock r.cache queue oid r.buffers ≡ some (success, c))
  unfolding get get_slot unlock unlock_list unlock_buffer
  get-unlock_hit buffers event wait_list fits known range found there readable =
      let (dev, at_did, in_dev) = slot_of-some c.device_info did i there in
      let lt : i < dev.num_slots =
        omega (arith, valid.sized did dev at_did, get_elem?-lt dev.slots i in_dev) in
      let t : Taken s = take k s (valid.slots did i s there).lock narrow readable in
      let small : ltb c.buffer_size (sub64 end begin) ≡ false = ground (arith, fits) in
      let inside =
        find_buffer_id_inside c did oid begin 0 b range (get_elem?-lt c.device_info did at_did) in
      (
        record {
          code = success;
          buffers =
              record { buffer = s.device_buffer; content_length = sub64 end begin; buffer_id = b }
              ∷ [];
          event = event;
          cache = read_locked c did i s t there;
        },
        rw small (
            rw known (
              rw (ap (λ p. p.0) inside) (
                rw (ap (λ p. p.1) inside) (
                  rw found (
                    rw (try_read_lock-open c did i s t there dev at_did in_dev lt) (
                      rw (slot_at-read_locked c did i s t there)
                        (rw (ap (λ p. p.1) inside) refl))))))),
        refl,
        refl,
        rw (find_device_id-locked c did i read_lock t.count queue.device ∙ known, unlock)
            (rw
              (
                find_cache_slot-locked c did i read_lock t.count oid b at_did ∙ found,
                unlock_list,
                unlock_buffer,
              )
              (change_lock-back c did i s t there)),
      )

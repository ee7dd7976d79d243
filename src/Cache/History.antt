-- ===== src/Cache/History.antt =====
-- The well-formedness of the cache over histories of calls.
use mathlib.Core.Option.{some-injective}
use native.Mathlib.Nat.{add-zero, zero-add}
use cl_kmeans.Prelude.{
  ℕ, Option, ◌/◌, zero, suc, ◌+◌, ◌*◌, ◌%◌, ◌^◌, ◌<◌, List, [], ◌∷◌, ◌++◌, some, ◌≡◌, inl, inr,
  refl, arith, Ensures, Ensures-map, Ensures-bind, Ensures-elim, ◌∙◌, ap, sym, subst, get_elem?,
  length, replicate, length-replicate, get_elem?-replicate, get_elem?-append, get_elem?-snoc,
  Bool-cases, leb,
}
use cl_kmeans.Cache.State.{ObjectMode, Device, free, Slot, DeviceInfo, Cache, slot_in}
use cl_kmeans.Cache.Setup.{
  init, empty_slot, allocate, allocate_slots, new_slots, add_device, add_object, double_buffering,
}
use cl_kmeans.Cache.Slots.{slot_of-some}
use cl_kmeans.Cache.Protocol.{Effect}
use cl_kmeans.Cache.Valid.{
  SlotValid-suc, IsEmpty, SlotValid, SlotValid-mono, LockValid, IsValid, Effect-IsValid,
}
use cl_kmeans.Cache.Calls.{
  is_unlock, access, access-Effect, Call, adds_device, adds_object, accesses, call, run,
}

-- A slot as `add_device` leaves it.
record IsFresh (s : Slot) : Type 0 where
  unlocked : s.status ≡ free
  uncounted : s.count ≡ 0
  empty : IsEmpty s

abbrev AllFresh : List Slot → Type 0
AllFresh slots = (i : ℕ) (s : Slot) → get_elem? slots i ≡ some s → IsFresh s

empty_slot-IsFresh : IsFresh empty_slot
empty_slot-IsFresh = record {
  unlocked = refl;
  uncounted = refl;
  empty = record { object_id = refl; buffer_id = refl; ptr = refl; content_length = refl };
}

replicate-AllFresh : (n : ℕ) → AllFresh (replicate n empty_slot)
replicate-AllFresh n i s h =
    subst IsFresh (sym (get_elem?-replicate n i empty_slot h)) empty_slot-IsFresh

IsFresh-SlotValid : (k : ℕ) (c : Cache) (i : ℕ) (s : Slot) → IsFresh s → SlotValid k c i s
IsFresh-SlotValid k c i s f = record {
  lock = subst (λ status. LockValid k status s.count) (sym f.unlocked) f.uncounted;
  content = inl f.empty;
}

init-IsValid :
    (before_objects : Option ObjectMode) (buffer_size : ℕ)
    → IsValid 0 (init before_objects buffer_size)
unfolding init
init-IsValid before_objects buffer_size = record {
  sized = λ did dev h. cc;
  slots = λ did i s h. cc;
}

add_object-IsValid :
    (k : ℕ) (c : Cache) (ptr size : ℕ) (mode : ObjectMode)
    → IsValid k c
    → IsValid k (add_object c ptr size mode).1
unfolding add_object
add_object-IsValid k c ptr size mode v = record {
  sized = v.sized;
  slots = λ did i s h.
      SlotValid-mono k (λ oid o found. get_elem?-append c.object_info _ oid found) refl
        (v.slots did i s h);
}

-- A device more.
abbrev with_device : Cache → DeviceInfo → ℕ → Cache
with_device c info fresh = record c { device_info = c.device_info ++ info ∷ []; fresh = fresh }

with_device-IsValid :
    (k : ℕ) (c : Cache) (info : DeviceInfo) (fresh : ℕ)
    → info.num_slots ≡ length info.slots
    → AllFresh info.slots
    → IsValid k c
    → IsValid k (with_device c info fresh)
with_device-IsValid k c info fresh e f v = record {
  sized = λ did dev h. elim (get_elem?-snoc c.device_info info did h) [
    | inl h' ↦ v.sized did dev h'
    | inr h' ↦ subst (λ d. d.num_slots ≡ length d.slots) (sym h') e
  ];
  slots = λ did i s h.
      let (dev, h1, h2) = slot_of-some (c.device_info ++ info ∷ []) did i h in
      SlotValid-mono k (λ oid o found. found) refl
        (elim (get_elem?-snoc c.device_info info did h1) [
          | inl h' ↦ v.slots did i s (ap (λ o. slot_in o i) h' ∙ h2)
          | inr h' ↦
              IsFresh-SlotValid k c i s (f i s (subst (λ d. get_elem? d.slots i ≡ some s) h' h2))
        ]);
}

module _ (map_buffer : ℕ → ℕ) where
  allocate-IsFresh :
      (buffer_size h h' : ℕ) (s : Slot)
      → IsFresh s
      → IsFresh (allocate map_buffer buffer_size h h' s)
  unfolding allocate
  allocate-IsFresh buffer_size h h' s f = record {
    unlocked = f.unlocked;
    uncounted = f.uncounted;
    empty = record {
      object_id = f.empty.object_id;
      buffer_id = f.empty.buffer_id;
      ptr = f.empty.ptr;
      content_length = f.empty.content_length;
    };
  }

  allocate_slots-AllFresh :
      (n buffer_size h : ℕ) (slots : List Slot)
      → AllFresh slots
      → AllFresh (allocate_slots map_buffer n buffer_size h slots)
  unfolding allocate_slots
  allocate_slots-AllFresh n buffer_size h [] f i s e = f i s e
  allocate_slots-AllFresh n buffer_size h (x ∷ slots) f zero s e =
      subst IsFresh (some-injective _ s e)
        (allocate-IsFresh buffer_size h (h + n) x (f zero x refl))
  allocate_slots-AllFresh n buffer_size h (x ∷ slots) f (suc i) s e =
      allocate_slots-AllFresh n buffer_size (suc h) slots (λ j. f (suc j)) i s e

  length-allocate_slots :
      (n buffer_size h : ℕ) (slots : List Slot)
      → length (allocate_slots map_buffer n buffer_size h slots) ≡ length slots
  unfolding allocate_slots
  length-allocate_slots n buffer_size h [] = refl
  length-allocate_slots n buffer_size h (x ∷ slots) =
      ap suc (length-allocate_slots n buffer_size (suc h) slots)

  new_slots-AllFresh :
      (c : Cache) (device : Device) (n : ℕ) → AllFresh (new_slots map_buffer c device n)
  unfolding new_slots
  new_slots-AllFresh c device n = elim (Bool-cases device.cpu) [
    | inl e ↦ rw e (replicate-AllFresh n)
    | inr e ↦ rw e (
        allocate_slots-AllFresh n c.buffer_size c.fresh (replicate n empty_slot)
          (replicate-AllFresh n))
  ]

  length-new_slots :
      (c : Cache) (device : Device) (n : ℕ) → length (new_slots map_buffer c device n) ≡ n
  unfolding new_slots
  length-new_slots c device n = ground (
    arith,
    length-replicate n empty_slot,
    length-allocate_slots n c.buffer_size c.fresh (replicate n empty_slot),
  )

  add_device-IsValid :
      (k : ℕ) (c : Cache) (device : Device) (pool_size : ℕ)
      → IsValid k c
      → IsValid k (add_device map_buffer c device pool_size).1
  unfolding add_device
  add_device-IsValid k c device pool_size v =
      elim (Bool-cases (leb pool_size ((c.buffer_size * double_buffering) % 2 ^ 64))) [
        | inl e ↦ rw e v
        | inr e ↦ rw e (
            with_device-IsValid k c _ _
              (sym (length-new_slots c device (pool_size / c.buffer_size)))
              (new_slots-AllFresh c device (pool_size / c.buffer_size)) v)
      ]

  IsValid-suc : (k : ℕ) (c : Cache) → IsValid k c → IsValid (suc k) c
  IsValid-suc k c v = record {
    sized = v.sized;
    slots = λ did i s h. SlotValid-suc k c i s (v.slots did i s h);
  }

  call-IsValid :
      (k : ℕ) (c : Cache) (x : Call)
      → suc k < 2 ^ 32
      → IsValid k c
      → Ensures (IsValid (suc k)) (call map_buffer c x)
  unfolding call
  call-IsValid k c (adds_device device pool_size) l v =
      IsValid-suc k _ (add_device-IsValid k c device pool_size v)
  call-IsValid k c (adds_object ptr size mode) l v =
      IsValid-suc k _ (add_object-IsValid k c ptr size mode v)
  call-IsValid k c (accesses a) l v =
      Ensures-map (Effect (is_unlock a) c) (IsValid (suc k))
        (λ c'. Effect-IsValid k (is_unlock a) c c' l v) (access c a) (access-Effect c a)

  run-IsValid :
      (k : ℕ) (c : Cache) (calls : List Call)
      → k + length calls < 2 ^ 32
      → IsValid k c
      → Ensures (IsValid (k + length calls)) (run map_buffer c calls)
  unfolding run
  run-IsValid k c [] l v = subst (λ n. IsValid n c) (sym (add-zero k)) v
  run-IsValid k c (x ∷ calls) l v =
      Ensures-bind (IsValid (k + suc (length calls))) (call map_buffer c x) _ λ c' e.
        subst (λ n. Ensures (IsValid n) (run map_buffer c' calls)) (shift (length calls))
          (run-IsValid (suc k) c' calls (omega arith) (
            Ensures-elim (IsValid (suc k)) (call map_buffer c x)
              (call-IsValid k c x (omega arith) v) e))
    where
      shift : (n : ℕ) → suc k + n ≡ k + suc n
      shift n = omega arith

  -- From an empty cache, every history of fewer than 2³² calls leaves each slot with the lock count
  -- its status calls for, and either empty or with a range that begins in a known object, fits a
  -- buffer, and is in one of that object's two slots; and each device with `num_slots` slots. The
  -- bound keeps a slot's count of readers, a `uint32_t`, from wrapping.
  pub run-init-IsValid :
      (before_objects : Option ObjectMode) (buffer_size : ℕ) (calls : List Call)
      → length calls < 2 ^ 32
      → Ensures (IsValid (length calls)) (run map_buffer (init before_objects buffer_size) calls)
  run-init-IsValid before_objects buffer_size calls l =
      subst (λ n. Ensures (IsValid n) (run map_buffer (init before_objects buffer_size) calls))
        (zero-add (length calls))
        (run-IsValid 0 (init before_objects buffer_size) calls (omega arith)
          (init-IsValid before_objects buffer_size))

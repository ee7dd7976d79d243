-- ===== src/Cache/Defined.antt =====
-- Where the accesses are defined: on a well-formed cache whose devices have the two slots of each
-- object.
use cl_kmeans.Prelude.{
  ℕ, ◌+◌, ◌*◌, ◌^◌, ◌-◌, ◌≤◌, ◌<◌, Bool, true, false, List, [], ◌∷◌, Option, some, ℤ, pos, ◌≡◌, inl,
  inr, arith, ◌∙◌, ap, sym, subst, get_elem?, length, get_elem?-some, Option-cases, leb, ltb, ◌==◌,
  IsDefined, IsDefined-bind, IsDefined-known, IsDefined-if, IsDefined-ℤ, Ensures, Ensures-bind,
  Ensures-if, Ensures-known, if◌then◌else◌,
}
use cl_kmeans.Cache.State.{
  SlotLockStatus, sub64, add32, Queue, BufferDesc, Event, WaitList, Slot, DeviceInfo, Cache,
  slot_at, slot_in, modify_slot,
}
use cl_kmeans.Cache.Find.{
  find_device_id, find_buffer_id, find_cache_slot, is_free, base_slot, assign_cache_slot,
}
use cl_kmeans.Cache.Lock.{
  lock_read, lock_write, release, change_lock, try_lock, try_read_lock, try_write_lock, unlock,
  unlock_list,
}
use cl_kmeans.Cache.Transfer.{read, read_slot, is_immutable}
use cl_kmeans.Cache.Lookup.{find_buffer_id-InRange, find_cache_slot-some}
use cl_kmeans.Cache.Slots.{slot_of-some}
use cl_kmeans.Cache.Writes.{modify_slot-Writes, Writes-slot}

-- Each device has both slots of every object, and slot numbers do not wrap.
pub record HasRoom (c : Cache) : Type 0 where
  pub slots :
      (did : ℕ) (dev : DeviceInfo)
      → get_elem? c.device_info did ≡ some dev
      → 2 * length c.object_info ≤ length dev.slots + 2
  pub objects : 2 * length c.object_info < 2 ^ 32

-- An index in the bounds of a device's slots.
slot_at-IsDefined :
    (c : Cache) (did i : ℕ) {dev : DeviceInfo}
    → get_elem? c.device_info did ≡ some dev
    → i < length dev.slots
    → IsDefined (slot_at c did i)
slot_at-IsDefined c did i {dev} e l =
    let (s, e') = get_elem?-some dev.slots i l in
    subst IsDefined (sym (ap (λ o. slot_in o i) e ∙ e')) tt

some-IsDefined : {A : Type 0} (o : Option A) {a : A} → o ≡ some a → IsDefined o
some-IsDefined o e = subst IsDefined (sym e) tt

pub base_slot_lem :
    (oid : ℕ)
    → 0 < oid
    → 2 * oid < 2 ^ 32
    → (base_slot oid ≡ 2 * (oid - 1)) × (add32 (base_slot oid) 1 ≡ 2 * (oid - 1) + 1)
unfolding base_slot
base_slot_lem oid p l = omega arith

-- Both slots of a known object are there.
own_slots :
    (c : Cache) (did oid : ℕ) {dev : DeviceInfo}
    → HasRoom c
    → get_elem? c.device_info did ≡ some dev
    → 0 < oid
    → oid < length c.object_info
    → (base_slot oid < length dev.slots) × (add32 (base_slot oid) 1 < length dev.slots)
own_slots c did oid {dev} room e p l = omega (
  arith,
  (base_slot_lem oid p (omega (arith, room.objects))).0,
  (base_slot_lem oid p (omega (arith, room.objects))).1,
  room.slots did dev e,
)

pub assign_cache_slot-IsDefined :
    (c : Cache) (did oid : ℕ) {dev : DeviceInfo}
    → HasRoom c
    → get_elem? c.device_info did ≡ some dev
    → 0 < oid
    → oid < length c.object_info
    → IsDefined (assign_cache_slot c did oid)
unfolding assign_cache_slot
assign_cache_slot-IsDefined c did oid {dev} room e p l =
    IsDefined-if (leb (length c.device_info) did) _ _ (λ _. tt)
      λ known.
        IsDefined-if (leb (length c.object_info) oid) _ _ (λ _. tt)
          λ _.
            IsDefined-bind (slot_at c did (base_slot oid)) _
              (slot_at-IsDefined c did (base_slot oid) e own.0)
              λ base _.
                IsDefined-bind
                  (slot_at c did
                    (if is_free base.status then base_slot oid else add32 (base_slot oid) 1))
                  _ (slot_at-IsDefined c did _ e (either (is_free base.status)))
                  λ s _. IsDefined-if (is_free s.status) _ _ (λ _. tt) (λ _. tt)
  where
    own : (base_slot oid < length dev.slots) × (add32 (base_slot oid) 1 < length dev.slots)
    own = own_slots c did oid room e p l

    either : (b : Bool) → (if b then base_slot oid else add32 (base_slot oid) 1) < length dev.slots
    either true = own.0
    either false = own.1

-- The locks, at a slot that is there.
pub change_lock-IsDefined :
    (change : SlotLockStatus → ℕ → ℤ × (Slot → Slot)) (c : Cache) (did i : ℕ) {s : Slot}
    → slot_at c did i ≡ some s
    → IsDefined (change_lock change c did i)
unfolding change_lock
change_lock-IsDefined change c did i e = IsDefined-known (slot_at c did i) _ e tt

pub try_lock-IsDefined :
    (change : SlotLockStatus → ℕ → ℤ × (Slot → Slot)) (c : Cache) (did i : ℕ) {s : Slot}
    → slot_at c did i ≡ some s
    → IsDefined (try_lock change c did i)
unfolding try_lock
try_lock-IsDefined change c did i e =
    let (dev, e', _) = slot_of-some c.device_info did i e in
    IsDefined-known (get_elem? c.device_info did) _ e' (
      IsDefined-if (leb dev.num_slots i) _ _ (λ _. tt)
        (λ _. change_lock-IsDefined change c did i e))

pub try_write_lock-IsDefined :
    (c : Cache) (did i : ℕ) {s : Slot}
    → slot_at c did i ≡ some s
    → IsDefined (try_write_lock c did i)
unfolding try_write_lock
try_write_lock-IsDefined c did i e = try_lock-IsDefined lock_write c did i e

pub try_read_lock-IsDefined :
    (c : Cache) (did i : ℕ) {s : Slot}
    → slot_at c did i ≡ some s
    → IsDefined (try_read_lock c did i)
unfolding try_read_lock
try_read_lock-IsDefined c did i e = try_lock-IsDefined lock_read c did i e

-- The slot is still there after `try_read_lock`.
pub try_read_lock-slot :
    (c : Cache) (did i : ℕ) {s : Slot}
    → slot_at c did i ≡ some s
    → Ensures (λ r. IsDefined (slot_at r.1 did i)) (try_read_lock c did i)
unfolding try_read_lock
try_read_lock-slot c did i {s} e = Ensures-bind P (get_elem? c.device_info did) _ λ dev _.
    Ensures-if P (leb dev.num_slots i) _ _ (λ _. some-IsDefined (slot_at c did i) e)
      λ _. Ensures-known P (slot_at c did i) _ e (
        some-IsDefined (slot_at (locked (lock_read s.status s.count).1) did i)
          (Writes-slot did i e (modify_slot-Writes did i c (lock_read s.status s.count).1 e)))
  where
    P : ℤ × Cache → Type 0
    P r = IsDefined (slot_at r.1 did i)

    locked : (Slot → Slot) → Cache
    locked f = modify_slot c did i f

-- The assigned slot is there.
pub assign_cache_slot-slot :
    (c : Cache) (did oid i : ℕ)
    → assign_cache_slot c did oid ≡ some (pos i)
    → (s : Slot) × (slot_at c did i ≡ some s)
unfolding assign_cache_slot
assign_cache_slot-slot c did oid i a = elim (Option-cases (slot_at c did i)) [
  | inl e ↦ absurd (ground arith)
  | inr found ↦ found
]

pub unlock-IsDefined :
    (c : Cache) (queue : Queue) (oid : ℕ) (buffers : List BufferDesc)
    → IsDefined (unlock c queue oid buffers)
unfolding unlock
unlock-IsDefined c queue oid buffers =
    IsDefined-ℤ (find_device_id c queue.device) _ _ (λ did _. of_list did buffers) (λ _ _. tt)
  where
    of_list : (did : ℕ) (list : List BufferDesc) → IsDefined (unlock_list c did oid list)
    of_list did [] = tt
    of_list did (desc ∷ []) =
        IsDefined-ℤ (find_cache_slot c did oid desc.buffer_id) _ _
          (λ i e.
            let (s, e', _) = find_cache_slot-some c did oid desc.buffer_id i e in
            change_lock-IsDefined release c did i e')
          (λ _ _. tt)
    of_list did (desc ∷ more ∷ rest) = tt

pub read-IsDefined :
    (c : Cache) (queue : Queue) (oid begin end : ℕ) (event : Event) (wait_list : WaitList)
    → IsDefined (read c queue oid begin end event wait_list)
unfolding read
read-IsDefined c queue oid begin end event wait_list =
    IsDefined-if (ltb c.buffer_size (sub64 end begin)) _ _ (λ _. tt)
      λ _.
        IsDefined-ℤ (find_device_id c queue.device) _ _
          (λ did _.
            IsDefined-ℤ (find_buffer_id c did oid begin 0).0 _ _
              (λ _ found.
                let range = find_buffer_id-InRange c did oid begin 0 found in
                IsDefined-known (get_elem? c.object_info oid) _ range.found (
                  IsDefined-if (is_immutable range.object.mode) _ _ (λ _. tt)
                    λ _.
                      IsDefined-ℤ (find_cache_slot c did oid (find_buffer_id c did oid begin 0).1) _
                        _
                        (λ i e.
                          let (s, e', _) = find_cache_slot-some c did oid _ i e in
                          slot_read did i begin (sub64 end begin) e')
                        (λ k _. IsDefined-if (k == 1) _ _ (λ _. tt) (λ _. tt))))
              (λ _ _. tt))
          (λ _ _. tt)
  where
    slot_read :
        (did i begin size : ℕ) {s : Slot}
        → slot_at c did i ≡ some s
        → IsDefined (read_slot c queue did i begin size event wait_list)
    slot_read did i begin size {s} e =
        let (dev, e1, e2) = slot_of-some c.device_info did i e in
        IsDefined-known (get_elem? c.device_info did) _ e1 (
          IsDefined-known (get_elem? dev.slots i) _ e2 (
            IsDefined-if (ltb size s.cached_content_length) _ _ (λ _. tt)
              (λ _. IsDefined-if dev.device.cpu _ _ (λ _. tt) (λ _. tt))))

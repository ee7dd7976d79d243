-- ===== src/Cache/Lookup.antt =====
-- What the lookups of the cache guarantee when they succeed.
use mathlib.Core.Option.{some-injective}
use cl_kmeans.Prelude.{
  ◌∙◌, ℕ, zero, suc, ◌+◌, ◌≤◌, ◌<◌, Bool, true, false, List, [], ◌∷◌, some, ℤ, pos, negsuc, ◌≡◌,
  ◌⊎◌, inl, inr, get_elem?, subst, refl, arith, Option-cases, Bool-cases, ◌==◌, if◌then◌else◌, ap,
  sym,
}
use cl_kmeans.Cache.State.{
  slot_in, sub64, add32, Device, free, Slot, DeviceInfo, ObjectInfo, Cache, slot_at,
}
use cl_kmeans.Cache.Find.{
  find_device_id, find_cache_slot, find_device_from, find_buffer_id, holds, find_slot_from, is_free,
  base_slot, assign_cache_slot,
}
use cl_kmeans.Cache.Slots.{put}

-- The pointer lies in object `oid`, at offset `buffer_id`.
pub record InRange (c : Cache) (oid ptr buffer_id : ℕ) : Type 0 where
  pub object : ObjectInfo
  pub found : get_elem? c.object_info oid ≡ some object
  pub valid : 0 < oid
  pub not_null : 0 < ptr
  pub from : object.ptr ≤ ptr
  pub to : ptr < object.ptr + object.size
  pub offset : buffer_id ≡ sub64 ptr object.ptr

pub find_buffer_id-InRange :
    (c : Cache) (did oid ptr b : ℕ) {n : ℕ}
    → (find_buffer_id c did oid ptr b).0 ≡ pos n
    → InRange c oid ptr (find_buffer_id c did oid ptr b).1
unfolding find_buffer_id
find_buffer_id-InRange c did oid ptr b h = elim (Option-cases (get_elem? c.object_info oid)) [
  | inl e ↦ absurd (ground arith)
  | inr (object, e) ↦ record {
    object = object;
    found = e;
    valid = ground arith;
    not_null = ground arith;
    from = ground arith;
    to = ground arith;
    offset = ground arith;
  }
]

-- The assigned slot is one of the object's two, and free.
pub assign_cache_slot-free :
    (c : Cache) (did oid i : ℕ) {s : Slot}
    → assign_cache_slot c did oid ≡ some (pos i)
    → slot_at c did i ≡ some s
    → (s.status ≡ free) × ((i ≡ base_slot oid) ⊎ (i ≡ add32 (base_slot oid) 1))
unfolding assign_cache_slot is_free
assign_cache_slot-free c did oid i {s} h e = ground arith

-- Writes to slots leave the devices where they are.
pub find_device_from-put :
    (k : ℕ) (device : Device) (devs : List DeviceInfo) (did i : ℕ) (s : Slot)
    → find_device_from k device (put devs did i s) ≡ find_device_from k device devs
unfolding find_device_from
find_device_from-put k device [] did i s = refl
find_device_from-put k device (dev ∷ devs) zero i s = refl
find_device_from-put k device (dev ∷ devs) (suc did) i s =
    ap (λ z. if dev.device.id == device.id then pos k else z)
      (find_device_from-put (suc k) device devs did i s)

-- The first slot of the list that holds the buffer, counted from `k`.
pub record FoundAt (k oid buffer_id : ℕ) (slots : List Slot) (j : ℕ) : Type 0 where
  pub index : ℕ
  pub slot : Slot
  pub counted : j ≡ k + index
  pub there : get_elem? slots index ≡ some slot
  pub matches : holds slot oid buffer_id ≡ true
  pub first :
      (i : ℕ) (s : Slot) → i < index → get_elem? slots i ≡ some s → holds s oid buffer_id ≡ false

-- What a search for the buffer may answer.
abbrev pub Found : (k oid buffer_id : ℕ) → List Slot → ℤ → Type 0
Found k oid buffer_id slots (pos j) = FoundAt k oid buffer_id slots j
Found k oid buffer_id slots (negsuc m) =
    (m ≡ 1) × ((i : ℕ) (s : Slot) → get_elem? slots i ≡ some s → holds s oid buffer_id ≡ false)

Found-cons :
    (k oid buffer_id : ℕ) (x : Slot) (slots : List Slot) (z : ℤ)
    → holds x oid buffer_id ≡ false
    → Found (suc k) oid buffer_id slots z
    → Found k oid buffer_id (x ∷ slots) z
Found-cons k oid buffer_id x slots (pos j) e f = record {
  index = suc f.index;
  slot = f.slot;
  counted = omega (arith, f.counted);
  there = f.there;
  matches = f.matches;
  first = elim [
    | zero ↦ λ s _ h. subst (λ y. holds y oid buffer_id ≡ false) (some-injective _ _ h) e
    | suc i ↦ λ s l h. f.first i s (omega arith) h
  ];
}
Found-cons k oid buffer_id x slots (negsuc m) e f = (
  f.0,
  elim [
    | zero ↦ λ s h. subst (λ y. holds y oid buffer_id ≡ false) (some-injective _ _ h) e
    | suc i ↦ λ s h. f.1 i s h
  ],
)

pub find_slot_from-Found :
    (k oid buffer_id : ℕ) (slots : List Slot)
    → Found k oid buffer_id slots (find_slot_from k oid buffer_id slots)
unfolding find_slot_from
find_slot_from-Found k oid buffer_id [] = (refl, λ i s e. cc)
find_slot_from-Found k oid buffer_id (x ∷ slots) = elim (Bool-cases (holds x oid buffer_id)) [
  | inl e ↦ subst answer (sym e) (record {
    index = 0;
    slot = x;
    counted = omega arith;
    there = refl;
    matches = e;
    first = λ i s l. absurd (omega arith);
  })
  | inr e ↦
      subst answer (sym e)
        (Found-cons k oid buffer_id x slots _ e (find_slot_from-Found (suc k) oid buffer_id slots))
]
  where
    answer : Bool → Type 0
    answer b =
        Found k oid buffer_id (x ∷ slots)
          (if b then pos k else find_slot_from (suc k) oid buffer_id slots)

-- The device that is found.
pub record DeviceAt (k : ℕ) (device : Device) (devs : List DeviceInfo) (j : ℕ) : Type 0 where
  pub index : ℕ
  pub info : DeviceInfo
  pub counted : j ≡ k + index
  pub there : get_elem? devs index ≡ some info
  pub matches : info.device.id ≡ device.id

find_device_from-DeviceAt :
    (k : ℕ) (device : Device) (devs : List DeviceInfo) (j : ℕ)
    → find_device_from k device devs ≡ pos j
    → DeviceAt k device devs j
unfolding find_device_from
find_device_from-DeviceAt k device [] j h = cc
find_device_from-DeviceAt k device (x ∷ devs) j h = elim (Bool-cases (x.device.id == device.id)) [
  | inl e ↦ record {
    index = 0;
    info = x;
    counted = ground arith;
    there = refl;
    matches = ground arith;
  }
  | inr e ↦
      let rest = find_device_from-DeviceAt (suc k) device devs j (ground arith) in
      record {
        index = suc rest.index;
        info = rest.info;
        counted = omega (arith, rest.counted);
        there = rest.there;
        matches = rest.matches;
      }
]

pub find_device_id-some :
    (c : Cache) (device : Device) {did : ℕ}
    → find_device_id c device ≡ pos did
    → (info : DeviceInfo) × (get_elem? c.device_info did ≡ some info) × (info.device.id ≡ device.id)
unfolding find_device_id
find_device_id-some c device {did} h =
    let at = find_device_from-DeviceAt 0 device c.device_info did h in
    let e : at.index ≡ did = omega (arith, at.counted) in
    (at.info, subst (λ n. get_elem? c.device_info n ≡ some at.info) e at.there, at.matches)

-- What `find_cache_slot` answers is what its loop answers, or its own error.
pub find_cache_slot-from :
    (c : Cache) (did oid buffer_id i : ℕ)
    → find_cache_slot c did oid buffer_id ≡ pos i
    → (dev : DeviceInfo) × (get_elem? c.device_info did ≡ some dev)
      × (find_slot_from 0 oid buffer_id dev.slots ≡ pos i)
unfolding find_cache_slot
find_cache_slot-from c did oid buffer_id i h = elim (Option-cases (get_elem? c.device_info did)) [
  | inl e ↦ absurd (ground arith)
  | inr (dev, e) ↦ (dev, e, ground arith)
]

-- A slot that `find_cache_slot` finds is there, and holds the buffer.
pub find_cache_slot-some :
    (c : Cache) (did oid buffer_id i : ℕ)
    → find_cache_slot c did oid buffer_id ≡ pos i
    → (s : Slot) × (slot_at c did i ≡ some s) × (holds s oid buffer_id ≡ true)
find_cache_slot-some c did oid buffer_id i h =
    let (dev, e, e') = find_cache_slot-from c did oid buffer_id i h in
    let at : FoundAt 0 oid buffer_id dev.slots i =
      subst (Found 0 oid buffer_id dev.slots) e' (find_slot_from-Found 0 oid buffer_id dev.slots) in
    let n : at.index ≡ i = omega (arith, at.counted) in
    (
      at.slot,
      ap (λ o. slot_in o i) e ∙ subst (λ m. get_elem? dev.slots m ≡ some at.slot) n at.there,
      at.matches,
    )

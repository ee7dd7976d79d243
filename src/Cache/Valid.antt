-- ===== src/Cache/Valid.antt =====
-- The well-formedness of the cache, kept by every access.
use mathlib.Core.Option.{some-injective}
use mathlib.Core.Path.{subst₂}
use cl_kmeans.Prelude.{
  ℕ, zero, suc, ◌^◌, ◌-◌, ◌≤◌, ◌<◌, Bool, List, [], ◌∷◌, some, pos, negsuc, ◌≡◌, ◌≢◌, ◌⊎◌, inl, inr,
  refl, arith, ◌∙◌, ap, sym, subst, ℕ_discrete, get_elem?, length, length-modify,
}
use cl_kmeans.Cache.State.{
  free, read_lock, write_lock, SlotLockStatus, Slot, DeviceInfo, ObjectInfo, ObjectMode, Cache,
  slot_at, slot_of, add32,
}
use cl_kmeans.Cache.Lock.{set_lock}
use cl_kmeans.Cache.Slots.{put, slot_of-put_ne}
use cl_kmeans.Cache.Writes.{Writes-slot}
use cl_kmeans.Cache.Protocol.{
  Fits, SlotStep, shares_first, shares, locks, loads, unshares, unlocks, Effect, quiet, step,
}

-- The count that a status calls for, where no slot has more than `k` readers.
abbrev pub LockValid : ℕ → SlotLockStatus → ℕ → Type 0
LockValid k free count = count ≡ 0
LockValid k write_lock count = count ≡ 1
LockValid k read_lock count = (1 ≤ count) × (count ≤ k)

pub record IsEmpty (s : Slot) : Type 0 where
  pub object_id : s.cached_object_id ≡ negsuc 0
  pub buffer_id : s.cached_buffer_id ≡ 0
  pub ptr : s.cached_ptr ≡ 0
  pub content_length : s.cached_content_length ≡ 0

-- The slot holds a range that begins in an object that has this slot.
pub record IsOccupied (c : Cache) (i : ℕ) (s : Slot) : Type 0 where
  pub oid : ℕ
  pub object_id : s.cached_object_id ≡ pos oid
  pub fits : Fits c i oid s.cached_buffer_id s.cached_ptr s.cached_content_length

pub record SlotValid (k : ℕ) (c : Cache) (i : ℕ) (s : Slot) : Type 0 where
  pub lock : LockValid k s.status s.count
  pub content : IsEmpty s ⊎ IsOccupied c i s

-- A read of the mode that lies before the objects gives some mode.
abbrev pub ReadsBefore : Cache → Type 0
ReadsBefore c = (mode : ObjectMode) × (c.before_objects ≡ some mode)

-- Every slot is empty, or holds a range that begins in an object.
abbrev pub Contents : Cache → Type 0
Contents c = (did i : ℕ) (s : Slot) → slot_at c did i ≡ some s → IsEmpty s ⊎ IsOccupied c i s

abbrev pub Sized : List DeviceInfo → Type 0
Sized devs =
    (did : ℕ) (dev : DeviceInfo) → get_elem? devs did ≡ some dev → dev.num_slots ≡ length dev.slots

pub record IsValid (k : ℕ) (c : Cache) : Type 0 where
  pub sized : Sized c.device_info
  pub slots : (did i : ℕ) (s : Slot) → slot_at c did i ≡ some s → SlotValid k c i s

-- A range stays a range while the objects keep their places.
pub Fits-mono :
    {c c' : Cache} {i oid buffer_id begin size : ℕ}
    → ((o : ObjectInfo)
        → get_elem? c.object_info oid ≡ some o
        → get_elem? c'.object_info oid ≡ some o)
    → c'.buffer_size ≡ c.buffer_size
    → Fits c i oid buffer_id begin size
    → Fits c' i oid buffer_id begin size
Fits-mono f e fits = record {
  range = record {
    object = fits.range.object;
    found = f fits.range.object fits.range.found;
    valid = fits.range.valid;
    not_null = fits.range.not_null;
    from = fits.range.from;
    to = fits.range.to;
    offset = fits.range.offset;
  };
  slot = fits.slot;
  small = omega arith;
}

LockValid-suc :
    (k count : ℕ) (status : SlotLockStatus)
    → LockValid k status count
    → LockValid (suc k) status count
LockValid-suc k count free h = h
LockValid-suc k count write_lock h = h
LockValid-suc k count read_lock h = omega arith

pub SlotValid-mono :
    (k : ℕ) {c c' : Cache} {i : ℕ} {s : Slot}
    → ((oid : ℕ) (o : ObjectInfo)
        → get_elem? c.object_info oid ≡ some o
        → get_elem? c'.object_info oid ≡ some o)
    → c'.buffer_size ≡ c.buffer_size
    → SlotValid k c i s
    → SlotValid k c' i s
SlotValid-mono k {c} {c'} {i} {s} f e v = record { lock = v.lock; content = moved v.content }
  where
    moved : IsEmpty s ⊎ IsOccupied c i s → IsEmpty s ⊎ IsOccupied c' i s
    moved (inl h) = inl h
    moved (inr h) =
        inr (record { oid = h.oid; object_id = h.object_id; fits = Fits-mono (f h.oid) e h.fits })

pub SlotValid-suc :
    (k : ℕ) (c : Cache) (i : ℕ) (s : Slot) → SlotValid k c i s → SlotValid (suc k) c i s
SlotValid-suc k c i s v = record {
  lock = LockValid-suc k s.count s.status v.lock;
  content = v.content;
}

-- The content of a slot with another lock.
module _ (k : ℕ) (u : Bool) (c : Cache) (i : ℕ) (s : Slot) where
  relocked :
      (status : SlotLockStatus) (count : ℕ)
      → LockValid (suc k) status count
      → SlotValid k c i s
      → SlotValid (suc k) c i (set_lock status count s)
  relocked status count h v = record { lock = h; content = kept v.content }
    where
      kept :
          IsEmpty s ⊎ IsOccupied c i s
          → IsEmpty (set_lock status count s) ⊎ IsOccupied c i (set_lock status count s)
      kept (inl e) = inl (record {
        object_id = e.object_id;
        buffer_id = e.buffer_id;
        ptr = e.ptr;
        content_length = e.content_length;
      })
      kept (inr e) = inr (record { oid = e.oid; object_id = e.object_id; fits = e.fits })

  counted : s.status ≡ read_lock → SlotValid k c i s → (1 ≤ s.count) × (s.count ≤ k)
  counted e v = subst (λ status. LockValid k status s.count) e v.lock

  SlotStep-SlotValid :
      {s' : Slot}
      → suc k < 2 ^ 32
      → SlotValid k c i s
      → SlotStep u c i s s'
      → SlotValid (suc k) c i s'
  SlotStep-SlotValid l v (shares_first e) = relocked read_lock 1 (omega arith) v
  SlotStep-SlotValid l v (shares e) =
      relocked read_lock (add32 s.count 1) (omega (arith, counted e v)) v
  SlotStep-SlotValid l v (locks e) = relocked write_lock 1 refl v
  SlotStep-SlotValid l v (loads oid buffer_id begin size b _ e fits) = record {
    lock = refl;
    content = inr (record { oid = oid; object_id = refl; fits = fits });
  }
  SlotStep-SlotValid l v (unshares _ e n) =
      relocked read_lock (s.count - 1) (omega (arith, counted e v)) v
  SlotStep-SlotValid l v (unlocks _ e) = relocked free 0 refl v

put-Sized : (devs : List DeviceInfo) (did i : ℕ) (s : Slot) → Sized devs → Sized (put devs did i s)
put-Sized [] did i s h did' dev' e = h did' dev' e
put-Sized (x ∷ devs) zero i s h zero dev' e =
    subst (λ d. d.num_slots ≡ length d.slots) (some-injective _ dev' e)
      (h zero x refl ∙ sym (length-modify x.slots i (λ _. s)))
put-Sized (x ∷ devs) zero i s h (suc did') dev' e = h (suc did') dev' e
put-Sized (x ∷ devs) (suc did) i s h zero dev' e = h zero dev' e
put-Sized (x ∷ devs) (suc did) i s h (suc did') dev' e =
    put-Sized devs did i s (λ d dev. h (suc d) dev) did' dev' e

-- The slot before the effect.
pub data Before (u : Bool) (c : Cache) (did i : ℕ) (s' : Slot) : Type 0 where
  stayed : slot_at c did i ≡ some s' → Before u c did i s'
  moved : (s : Slot) → slot_at c did i ≡ some s → SlotStep u c i s s' → Before u c did i s'

pub Effect-Before :
    (u : Bool) (c c' : Cache) (did i : ℕ) {s' : Slot}
    → slot_at c' did i ≡ some s'
    → Effect u c c'
    → Before u c did i s'
Effect-Before u c c' did i h (quiet q) = stayed (ap (λ d. slot_of d did i) (sym q.devices) ∙ h)
Effect-Before u c c' did i {s'} h (step did' j t t' h' m w) = elim (ℕ_discrete did' did) [
  | yes e ↦ elim (ℕ_discrete j i) [
    | yes e' ↦
        let here : slot_at c did i ≡ some t = subst₂ (λ k k'. slot_at c k k' ≡ some t) e e' h' in
        let now : slot_at c' did i ≡ some t' =
          subst₂ (λ k k'. slot_at c' k k' ≡ some t') e e' (Writes-slot did' j h' w) in
        let m' : SlotStep u c i t t' = subst (λ k. SlotStep u c k t t') e' m in
        moved t here (subst (λ x. SlotStep u c i t x) (some-injective t' s' (sym now ∙ h)) m')
    | no n ↦ stayed (unmoved (inr n))
  ]
  | no n ↦ stayed (unmoved (inl n))
]
  where
    unmoved : (did' ≢ did) ⊎ (j ≢ i) → slot_at c did i ≡ some s'
    unmoved n =
        sym (slot_of-put_ne c.device_info did' j t' did i n)
        ∙ ap (λ d. slot_of d did i) (sym w.devices)
        ∙ h

Effect-Sized :
    (u : Bool) (c c' : Cache) → Effect u c c' → Sized c.device_info → Sized c'.device_info
Effect-Sized u c c' (quiet q) h = subst Sized (sym q.devices) h
Effect-Sized u c c' (step did i s s' e m w) h =
    subst Sized (sym w.devices) (put-Sized c.device_info did i s' h)

pub Effect-before : (u : Bool) (c c' : Cache) → Effect u c c' → c'.before_objects ≡ c.before_objects
Effect-before u c c' (quiet q) = q.before
Effect-before u c c' (step did i s s' e m w) = w.before

pub Effect-objects : (u : Bool) (c c' : Cache) → Effect u c c' → c'.object_info ≡ c.object_info
Effect-objects u c c' (quiet q) = q.objects
Effect-objects u c c' (step did i s s' e m w) = w.objects

pub Effect-size : (u : Bool) (c c' : Cache) → Effect u c c' → c'.buffer_size ≡ c.buffer_size
Effect-size u c c' (quiet q) = q.size
Effect-size u c c' (step did i s s' e m w) = w.size

Before-SlotValid :
    (k : ℕ) (u : Bool) (c : Cache) (did i : ℕ) (s' : Slot)
    → suc k < 2 ^ 32
    → IsValid k c
    → Before u c did i s'
    → SlotValid (suc k) c i s'
Before-SlotValid k u c did i s' l v (stayed h) = SlotValid-suc k c i s' (v.slots did i s' h)
Before-SlotValid k u c did i s' l v (moved s h m) =
    SlotStep-SlotValid k u c i s l (v.slots did i s h) m

pub Effect-IsValid :
    (k : ℕ) (u : Bool) (c c' : Cache)
    → suc k < 2 ^ 32
    → IsValid k c
    → Effect u c c'
    → IsValid (suc k) c'
Effect-IsValid k u c c' l v e = record {
  sized = Effect-Sized u c c' e v.sized;
  slots = λ did i s h.
      SlotValid-mono (suc k)
        (λ oid o found. ap (λ os. get_elem? os oid) (Effect-objects u c c' e) ∙ found)
        (Effect-size u c c' e)
        (Before-SlotValid k u c did i s l v (Effect-Before u c c' did i h e));
}

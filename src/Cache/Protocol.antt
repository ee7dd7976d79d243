-- ===== src/Cache/Protocol.antt =====
-- The protocol of a slot: what one access of the cache may do to it.
use mathlib.Core.Path.{subst₂}
use mathlib.Core.Option.{some-injective}
use cl_kmeans.Prelude.{
  Bool, true, false, ℕ, ◌-◌, ◌≤◌, some, ◌≡◌, ◌≢◌, ◌⊎◌, inl, inr, subst, sym, ap, ◌∙◌, ℕ_discrete,
}
use cl_kmeans.Cache.State.{
  add32, Buffer, free, read_lock, write_lock, Slot, Cache, slot_at, slot_of,
}
use cl_kmeans.Cache.Find.{base_slot}
use cl_kmeans.Cache.Lock.{set_lock}
use cl_kmeans.Cache.Lookup.{InRange}
use cl_kmeans.Cache.Slots.{slot_of-put_ne}
use cl_kmeans.Cache.Writes.{Quiet, Writes, Writes-slot}
use cl_kmeans.Cache.Store.{loaded}

-- A range that slot `i` may hold: it lies in object `oid`, whose slot it is, and fits a buffer.
pub record Fits (c : Cache) (i oid buffer_id begin size : ℕ) : Type 0 where
  pub range : InRange c oid begin buffer_id
  pub slot : (i ≡ base_slot oid) ⊎ (i ≡ add32 (base_slot oid) 1)
  pub small : size ≤ c.buffer_size

-- The protocol; `unlocking` is whether the access is an `unlock`. `locks` is a `write_and_get` whose eviction fails.
pub data SlotStep (unlocking : Bool) (c : Cache) (i : ℕ) (s : Slot) : Slot → Type 0 where
  shares_first : s.status ≡ free → SlotStep unlocking c i s (set_lock read_lock 1 s)
  shares : s.status ≡ read_lock → SlotStep unlocking c i s (set_lock read_lock (add32 s.count 1) s)
  locks : s.status ≡ free → SlotStep unlocking c i s (set_lock write_lock 1 s)
  loads :
      (oid buffer_id begin size : ℕ) (b : Buffer)
      → unlocking ≡ false
      → s.status ≡ free
      → Fits c i oid buffer_id begin size
      → SlotStep unlocking c i s (loaded oid buffer_id begin size b s)
  unshares :
      unlocking ≡ true
      → s.status ≡ read_lock
      → s.count ≢ 1
      → SlotStep unlocking c i s (set_lock read_lock (s.count - 1) s)
  unlocks :
      unlocking ≡ true
      → (s.status ≡ write_lock) ⊎ ((s.status ≡ read_lock) × (s.count ≡ 1))
      → SlotStep unlocking c i s (set_lock free 0 s)

-- A call leaves all slots alone, or makes one step of one slot.
pub data Effect (unlocking : Bool) (c c' : Cache) : Type 0 where
  quiet : Quiet c c' → Effect unlocking c c'
  step :
      (did i : ℕ) (s s' : Slot)
      → slot_at c did i ≡ some s
      → SlotStep unlocking c i s s'
      → Writes c did i s' c'
      → Effect unlocking c c'

-- What becomes of a slot by one effect: it stays, or it makes a step.
pub data Becomes (unlocking : Bool) (c c' : Cache) (did i : ℕ) (s : Slot) : Type 0 where
  stays : slot_at c' did i ≡ some s → Becomes unlocking c c' did i s
  moves :
      (s' : Slot)
      → slot_at c' did i ≡ some s'
      → SlotStep unlocking c i s s'
      → Becomes unlocking c c' did i s

pub Effect-Becomes :
    (unlocking : Bool) (c c' : Cache) (did i : ℕ) {s : Slot}
    → slot_at c did i ≡ some s
    → Effect unlocking c c'
    → Becomes unlocking c c' did i s
Effect-Becomes unlocking c c' did i h (quiet q) = stays (ap (λ d. slot_of d did i) q.devices ∙ h)
Effect-Becomes unlocking c c' did i {s} h (step did' j t t' h' m w) = elim (ℕ_discrete did' did) [
  | yes e ↦ elim (ℕ_discrete j i) [
    | yes e' ↦
        let here : slot_at c did i ≡ some t = subst₂ (λ k k'. slot_at c k k' ≡ some t) e e' h' in
        let moved : SlotStep unlocking c i t t' = subst (λ k. SlotStep unlocking c k t t') e' m in
        moves t' (subst₂ (λ k k'. slot_at c' k k' ≡ some t') e e' (Writes-slot did' j h' w))
          (subst (λ x. SlotStep unlocking c i x t') (some-injective t s (sym here ∙ h)) moved)
    | no n ↦ stays (unmoved (inr n))
  ]
  | no n ↦ stays (unmoved (inl n))
]
  where
    unmoved : (did' ≢ did) ⊎ (j ≢ i) → slot_at c' did i ≡ some s
    unmoved n =
        ap (λ d. slot_of d did i) w.devices ∙ slot_of-put_ne c.device_info did' j t' did i n ∙ h

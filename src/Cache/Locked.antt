-- ===== src/Cache/Locked.antt =====
-- What a lock protects.
use cl_kmeans.Prelude.{
  Bool, true, false, ℕ, some, ◌≡◌, ◌≢◌, ◌⊎◌, inl, inr, refl, Ensures, Ensures-map,
}
use cl_kmeans.Cache.State.{free, read_lock, write_lock, SlotLockStatus, Slot, Cache, slot_at}
use cl_kmeans.Cache.Lock.{set_lock}
use cl_kmeans.Cache.Protocol.{
  SlotStep, shares_first, shares, locks, loads, unshares, unlocks, Effect, Becomes, stays, moves,
  Effect-Becomes,
}
use cl_kmeans.Cache.Calls.{is_unlock, Access, access, access-Effect}

-- The slot holds what it held, in the same buffers.
pub record SameContent (s s' : Slot) : Type 0 where
  pub object_id : s'.cached_object_id ≡ s.cached_object_id
  pub buffer_id : s'.cached_buffer_id ≡ s.cached_buffer_id
  pub ptr : s'.cached_ptr ≡ s.cached_ptr
  pub content_length : s'.cached_content_length ≡ s.cached_content_length
  pub device_buffer : s'.device_buffer ≡ s.device_buffer
  pub host_buffer : s'.host_buffer ≡ s.host_buffer
  pub host_ptr : s'.host_ptr ≡ s.host_ptr

-- What a locked slot, or any slot under an `unlock`, becomes: it holds what it held, and but for
-- an `unlock` it stays locked.
pub record Held (unlocking : Bool) (c' : Cache) (did i : ℕ) (s : Slot) : Type 0 where
  pub after : Slot
  pub there : slot_at c' did i ≡ some after
  pub same : SameContent s after
  pub locked : unlocking ≡ false → s.status ≢ free → after.status ≢ free

SameContent-refl : (s : Slot) → SameContent s s
SameContent-refl s = record {
  object_id = refl;
  buffer_id = refl;
  ptr = refl;
  content_length = refl;
  device_buffer = refl;
  host_buffer = refl;
  host_ptr = refl;
}

SameContent-set_lock :
    (status : SlotLockStatus) (count : ℕ) (s : Slot) → SameContent s (set_lock status count s)
SameContent-set_lock status count s = record {
  object_id = refl;
  buffer_id = refl;
  ptr = refl;
  content_length = refl;
  device_buffer = refl;
  host_buffer = refl;
  host_ptr = refl;
}

module _ (unlocking : Bool) (c c' : Cache) (did i : ℕ) (s : Slot) where
  relocked :
      (status : SlotLockStatus) (count : ℕ)
      → slot_at c' did i ≡ some (set_lock status count s)
      → (unlocking ≡ false → s.status ≢ free → status ≢ free)
      → Held unlocking c' did i s
  relocked status count h k = record {
    after = set_lock status count s;
    there = h;
    same = SameContent-set_lock status count s;
    locked = k;
  }

  SlotStep-Held :
      {s' : Slot}
      → (unlocking ≡ true) ⊎ (s.status ≢ free)
      → slot_at c' did i ≡ some s'
      → SlotStep unlocking c i s s'
      → Held unlocking c' did i s
  SlotStep-Held n h (shares_first e) = relocked read_lock 1 h (λ _ m. absurd (m e))
  SlotStep-Held n h (shares e) = relocked read_lock _ h (λ _ _. λ e'. cc)
  SlotStep-Held n h (locks e) = relocked write_lock 1 h (λ _ _. λ e'. cc)
  SlotStep-Held (inl n) h (loads oid buffer_id begin size b u e fits) = cc
  SlotStep-Held (inr n) h (loads oid buffer_id begin size b u e fits) = absurd (n e)
  SlotStep-Held n h (unshares u e ne) = relocked read_lock _ h (λ _ _. λ e'. cc)
  SlotStep-Held n h (unlocks u e) = relocked free 0 h (λ u' _. cc)

  Becomes-Held :
      (unlocking ≡ true) ⊎ (s.status ≢ free)
      → Becomes unlocking c c' did i s
      → Held unlocking c' did i s
  Becomes-Held n (stays h) = record {
    after = s;
    there = h;
    same = SameContent-refl s;
    locked = λ _ m. m;
  }
  Becomes-Held n (moves s' h m) = SlotStep-Held n h m

-- While a slot is locked, no `get`, `write_and_get`, `read` or `unlock` changes what it holds or
-- its buffers, whatever the access returns; an `unlock` changes these of no slot at all; and after
-- any access but an `unlock` the locked slot is still locked.
pub access-Held :
    (c : Cache) (a : Access) (did i : ℕ) (s : Slot)
    → slot_at c did i ≡ some s
    → (is_unlock a ≡ true) ⊎ (s.status ≢ free)
    → Ensures (λ c'. Held (is_unlock a) c' did i s) (access c a)
access-Held c a did i s h n =
    Ensures-map (Effect (is_unlock a) c) (λ c'. Held (is_unlock a) c' did i s)
      (λ c' e.
        Becomes-Held (is_unlock a) c c' did i s n (Effect-Becomes (is_unlock a) c c' did i h e))
      (access c a) (access-Effect c a)

-- ===== src/Cache/Contents.antt =====
-- What every access keeps without a bound on the number of calls: the contents of the slots and
-- their number.
use mathlib.Core.Option.{some-injective}
use cl_kmeans.Prelude.{
  ℕ, zero, suc, ◌*◌, ◌+◌, ◌≤◌, ◌<◌, ◌^◌, Bool, List, [], ◌∷◌, some, ◌≡◌, ◌⊎◌, inl, inr, refl, ◌∙◌,
  ap, sym, subst, get_elem?, length, length-modify, arith,
}
use cl_kmeans.Cache.State.{Slot, SlotLockStatus, DeviceInfo, Cache}
use cl_kmeans.Cache.Lock.{set_lock}
use cl_kmeans.Cache.Slots.{put}
use cl_kmeans.Cache.Protocol.{
  SlotStep, shares_first, shares, locks, loads, unshares, unlocks, Effect, quiet, step,
}
use cl_kmeans.Cache.Valid.{
  IsEmpty, IsOccupied, Contents, Fits-mono, Before, stayed, moved, Effect-Before, Effect-objects,
  Effect-size,
}
use cl_kmeans.Cache.Defined.{HasRoom}

abbrev HasContent : Cache → ℕ → Slot → Type 0
HasContent c i s = IsEmpty s ⊎ IsOccupied c i s

relocked :
    (c : Cache) (i : ℕ) (s : Slot) (status : SlotLockStatus) (count : ℕ)
    → HasContent c i s
    → HasContent c i (set_lock status count s)
relocked c i s status count (inl e) = inl (record {
  object_id = e.object_id;
  buffer_id = e.buffer_id;
  ptr = e.ptr;
  content_length = e.content_length;
})
relocked c i s status count (inr e) =
    inr (record { oid = e.oid; object_id = e.object_id; fits = e.fits })

SlotStep-HasContent :
    (u : Bool) (c : Cache) (i : ℕ) (s : Slot) {s' : Slot}
    → HasContent c i s
    → SlotStep u c i s s'
    → HasContent c i s'
SlotStep-HasContent u c i s h (shares_first e) = relocked c i s _ _ h
SlotStep-HasContent u c i s h (shares e) = relocked c i s _ _ h
SlotStep-HasContent u c i s h (locks e) = relocked c i s _ _ h
SlotStep-HasContent u c i s h (loads oid buffer_id begin size b _ e fits) =
    inr (record { oid = oid; object_id = refl; fits = fits })
SlotStep-HasContent u c i s h (unshares _ e n) = relocked c i s _ _ h
SlotStep-HasContent u c i s h (unlocks _ e) = relocked c i s _ _ h

pub Effect-Contents : (u : Bool) (c c' : Cache) → Contents c → Effect u c c' → Contents c'
Effect-Contents u c c' v e did i s' h = lift (before (Effect-Before u c c' did i h e))
  where
    before : Before u c did i s' → HasContent c i s'
    before (stayed h') = v did i s' h'
    before (moved s h' m) = SlotStep-HasContent u c i s (v did i s h') m

    lift : HasContent c i s' → HasContent c' i s'
    lift (inl k) = inl k
    lift (inr k) = inr (record {
      oid = k.oid;
      object_id = k.object_id;
      fits =
          Fits-mono (λ o found. ap (λ os. get_elem? os k.oid) (Effect-objects u c c' e) ∙ found)
            (Effect-size u c c' e) k.fits;
    })

abbrev AllLong : ℕ → List DeviceInfo → Type 0
AllLong n devs =
    (did : ℕ) (dev : DeviceInfo) → get_elem? devs did ≡ some dev → n ≤ length dev.slots + 2

put-AllLong :
    (n : ℕ) (devs : List DeviceInfo) (did i : ℕ) (s : Slot)
    → AllLong n devs
    → AllLong n (put devs did i s)
put-AllLong n [] did i s h did' dev' e = h did' dev' e
put-AllLong n (x ∷ devs) zero i s h zero dev' e =
    subst (λ d. n ≤ length d.slots + 2) (some-injective _ dev' e)
      (omega (arith, h zero x refl, length-modify {0} x.slots i (λ _. s)))
put-AllLong n (x ∷ devs) zero i s h (suc did') dev' e = h (suc did') dev' e
put-AllLong n (x ∷ devs) (suc did) i s h zero dev' e = h zero dev' e
put-AllLong n (x ∷ devs) (suc did) i s h (suc did') dev' e =
    put-AllLong n devs did i s (λ d dev. h (suc d) dev) did' dev' e

pub Effect-HasRoom : (u : Bool) (c c' : Cache) → HasRoom c → Effect u c c' → HasRoom c'
Effect-HasRoom u c c' r e = record {
  slots = subst (λ n. AllLong (2 * n) c'.device_info) (sym same) (long e);
  objects = subst (λ n. 2 * n < 2 ^ 32) (sym same) r.objects;
}
  where
    same : length c'.object_info ≡ length c.object_info
    same = ap length (Effect-objects u c c' e)

    long : Effect u c c' → AllLong (2 * length c.object_info) c'.device_info
    long (quiet q) = subst (AllLong (2 * length c.object_info)) (sym q.devices) r.slots
    long (step did i s s' e m w) =
        subst (AllLong (2 * length c.object_info)) (sym w.devices)
          (put-AllLong (2 * length c.object_info) c.device_info did i s' r.slots)

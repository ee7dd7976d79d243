-- ===== src/Cache/Writes.antt =====
-- The steps of a call, as writes to one slot: locking, eviction, and filling.
use cl_kmeans.Prelude.{
  ℕ, ◌+◌, Option, none, some, ℤ, pos, negsuc, ◌≡◌, ◌⊎◌, inl, inr, get_elem?, refl, arith, Ensures,
  Ensures-bind, Ensures-if, ◌∙◌, ap, sym, Ensures-elim, Ensures-known, ◌==◌, ◌&&◌,
}
use cl_kmeans.Cache.State.{
  success, Queue, Event, WaitList, Slot, Cache, slot_at, slot_of, modify_slot,
}
use cl_kmeans.Cache.Transfer.{
  is_immutable, evicted, evict_object, evict_content, read, clear, evict_cache_slot,
}
use cl_kmeans.Cache.Slots.{put, modify-put, put_self, put-put, slot_of-put_self}

-- The call leaves every slot, the objects and the buffer size alone.
pub record Quiet (c c' : Cache) : Type 0 where
  pub devices : c'.device_info ≡ c.device_info
  pub objects : c'.object_info ≡ c.object_info
  pub before : c'.before_objects ≡ c.before_objects
  pub size : c'.buffer_size ≡ c.buffer_size

-- The call makes `s'` of slot `i` of device `did`, and leaves the rest alone.
pub record Writes (c : Cache) (did i : ℕ) (s' : Slot) (c' : Cache) : Type 0 where
  pub devices : c'.device_info ≡ put c.device_info did i s'
  pub objects : c'.object_info ≡ c.object_info
  pub before : c'.before_objects ≡ c.before_objects
  pub size : c'.buffer_size ≡ c.buffer_size

pub Quiet-refl : (c : Cache) → Quiet c c
Quiet-refl c = record { devices = refl; objects = refl; before = refl; size = refl }

pub read-Quiet :
    (c : Cache) (queue : Queue) (oid begin end : ℕ) (event : Event) (wait_list : WaitList)
    → Ensures (λ r. Quiet c r.2) (read c queue oid begin end event wait_list)
unfolding read
read-Quiet c queue oid begin end event wait_list = ground arith

module _ (did i : ℕ) where
  pub modify_slot-Writes :
      (c : Cache) (f : Slot → Slot) {s : Slot}
      → slot_at c did i ≡ some s
      → Writes c did i (f s) (modify_slot c did i f)
  modify_slot-Writes c f h = record {
    devices = modify-put c.device_info did i f h;
    objects = refl;
    before = refl;
    size = refl;
  }

  pub Quiet-Writes :
      {c c' : Cache} {s : Slot} → slot_at c did i ≡ some s → Quiet c c' → Writes c did i s c'
  Quiet-Writes {c} h q = record {
    devices = q.devices ∙ sym (put_self c.device_info did i h);
    objects = q.objects;
    before = q.before;
    size = q.size;
  }

  pub Writes-trans :
      {c c1 c2 : Cache} {s s' : Slot}
      → Writes c did i s c1
      → Writes c1 did i s' c2
      → Writes c did i s' c2
  Writes-trans {c} {s = s} {s' = s'} w w' = record {
    devices = w'.devices ∙ ap (λ d. put d did i s') w.devices ∙ put-put c.device_info did i s s';
    objects = w'.objects ∙ w.objects;
    before = w'.before ∙ w.before;
    size = w'.size ∙ w.size;
  }

  pub Writes-slot :
      {c c' : Cache} {s s' : Slot}
      → slot_at c did i ≡ some s
      → Writes c did i s' c'
      → slot_at c' did i ≡ some s'
  Writes-slot {c} {s' = s'} h w =
      ap (λ d. slot_of d did i) w.devices ∙ slot_of-put_self c.device_info did i s' h

  pub modify_slot_id-Quiet :
      (c : Cache) {s : Slot} → slot_at c did i ≡ some s → Quiet c (modify_slot c did i (λ s. s))
  modify_slot_id-Quiet c h = record {
    devices = modify-put c.device_info did i (λ s. s) h ∙ put_self c.device_info did i h;
    objects = refl;
    before = refl;
    size = refl;
  }

  -- An eviction that succeeds clears the slot, or finds it empty; else the slot stays.
  abbrev pub Evicts : Cache → Slot → ℤ × Event × Cache → Type 0
  Evicts c s (pos _, _, c') = Writes c did i s c' ⊎ Writes c did i (clear s) c'
  Evicts c s (negsuc _, _, c') = Writes c did i s c'

  evicted-Evicts :
      (c : Cache) (r : ℤ × Event × Cache) {s : Slot}
      → slot_at c did i ≡ some s
      → Quiet c r.2
      → Evicts c s (evicted did i r)
  unfolding evicted
  evicted-Evicts c (pos _, _, c') h q =
      let w = Quiet-Writes h q in
      inr (Writes-trans w (modify_slot-Writes c' clear (Writes-slot h w)))
  evicted-Evicts c (negsuc _, _, c') h q = Quiet-Writes h q

  evict_object-Evicts :
      (c : Cache) (queue : Queue) (oid : ℕ) (event : Event) (wait_list : WaitList) {s : Slot}
      → slot_at c did i ≡ some s
      → Ensures (Evicts c s) (evict_object c queue did i s oid event wait_list)
  unfolding evict_object
  evict_object-Evicts c queue oid event wait_list {s} h =
      Ensures-bind P (get_elem? c.device_info did) _ λ dev _.
        Ensures-bind P (get_elem? c.object_info oid) _ λ obj _.
          Ensures-if P (is_immutable obj.mode) _ _ (λ _. cleared)
            λ _.
              Ensures-if P dev.device.cpu _ _ (λ _. cleared)
                λ _. Ensures-bind P read_result _ λ r e. evicted-Evicts c r h (
                  Ensures-elim (λ r'. Quiet c r'.2) read_result
                    (read-Quiet c queue oid s.cached_ptr _ event wait_list) e)
    where
      P : ℤ × Event × Cache → Type 0
      P = Evicts c s

      cleared : P (success, event, modify_slot c did i clear)
      cleared = inr (modify_slot-Writes c clear h)

      read_result : Option (ℤ × Event × Cache)
      read_result =
          read c queue oid s.cached_ptr (s.cached_ptr + s.cached_content_length) event wait_list

  evict_content-Evicts :
      (c : Cache) (queue : Queue) (id : ℤ) (event : Event) (wait_list : WaitList) {s : Slot}
      → slot_at c did i ≡ some s
      → Ensures (Evicts c s) (evict_content c queue did i s id event wait_list)
  unfolding evict_content
  evict_content-Evicts c queue (pos oid) event wait_list h =
      evict_object-Evicts c queue oid event wait_list h
  evict_content-Evicts c queue (negsuc k) event wait_list {s} h =
      Ensures-bind (Evicts c s) c.before_objects _ λ mode _.
        Ensures-if (Evicts c s) (k == 0 && s.cached_buffer_id == 0 && s.cached_ptr == 0)
          (some (success, event, c)) none (λ _. inl (Quiet-Writes h (Quiet-refl c))) (λ _. tt)

  pub evict-Evicts :
      (c : Cache) (queue : Queue) (event : Event) (wait_list : WaitList) {s : Slot}
      → slot_at c did i ≡ some s
      → Ensures (Evicts c s) (evict_cache_slot c queue did i event wait_list)
  unfolding evict_cache_slot
  evict-Evicts c queue event wait_list {s} h =
      Ensures-known (Evicts c s) (slot_at c did i) _ h
        (evict_content-Evicts c queue s.cached_object_id event wait_list h)

-- ===== src/Cache/Store.antt =====
-- What `write_and_get` does to its slot, from the assigned slot on.
use cl_kmeans.Prelude.{
  ℕ, Option, none, some, ℤ, pos, negsuc, ◌≡◌, inl, inr, get_elem?, refl, Ensures, Ensures-bind,
  Ensures-if, List, sym, Ensures-elim, Ensures-known, List, Ensures-map, leb, subst,
}
use cl_kmeans.Cache.State.{
  success, failure, Queue, Buffer, Event, WaitList, free, write_lock, Slot, Cache, slot_at,
  modify_slot, ObjectMode, transient, use_host_ptr, BufferDesc,
}
use cl_kmeans.Cache.Lock.{set_lock, lock_write, change_lock, try_write_lock}
use cl_kmeans.Cache.Transfer.{
  write_slot, evict_locked, store_evicted, clear, fill, set_buffer, evict_cache_slot, store, Reply,
  store_copy, store_zero_copy, describe,
}
use cl_kmeans.Cache.Writes.{
  Quiet, Quiet-refl, Writes, modify_slot-Writes, Writes-trans, Writes-slot, Evicts, evict-Evicts,
}

-- A slot that `write_and_get` has filled and locked.
abbrev pub loaded : (oid buffer_id begin size : ℕ) → Buffer → Slot → Slot
loaded oid buffer_id begin size b s =
    set_buffer b (fill oid buffer_id begin size (set_lock write_lock 1 s))

-- A call that filled slot `i` and returned its buffer.
pub record Stored (c : Cache) (did i : ℕ) (s : Slot) (oid buffer_id begin size : ℕ) (r : Reply)
    : Type 0 where
  pub stored : Buffer
  pub writes : Writes c did i (loaded oid buffer_id begin size stored s) r.cache
  pub code : r.code ≡ success
  pub buffers : r.buffers ≡ describe stored buffer_id size

module _ (c : Cache) (queue : Queue) (did i oid buffer_id begin size : ℕ) {s : Slot}
    (h : slot_at c did i ≡ some s) where
  abbrev HasStored : Reply → Type 0
  HasStored = Stored c did i s oid buffer_id begin size

  abbrev filled : Slot
  filled = fill oid buffer_id begin size (set_lock write_lock 1 s)

  store_copy-Stored :
      (c3 : Cache) (evict_event : Event) (wait_list : WaitList) (mode : ObjectMode)
      → Writes c did i filled c3
      → HasStored (store_copy c3 queue s buffer_id begin size evict_event wait_list mode)
  unfolding store_copy
  store_copy-Stored c3 evict_event wait_list transient w = record {
    stored = s.device_buffer;
    writes = w;
    code = refl;
    buffers = refl;
  }
  store_copy-Stored c3 evict_event wait_list _ w = record {
    stored = s.device_buffer;
    writes = record { devices = w.devices; objects = w.objects; before = w.before; size = w.size };
    code = refl;
    buffers = refl;
  }

  -- From a cache in which the slot is locked, and perhaps cleared.
  store-Stored :
      (c2 : Cache) (s2 : Slot) (event evict_event : Event) (wait_list : WaitList)
      → Writes c did i s2 c2
      → fill oid buffer_id begin size s2 ≡ filled
      → Ensures HasStored
          (store c2 queue did i s oid buffer_id begin size event evict_event wait_list)
  unfolding store
  store-Stored c2 s2 event evict_event wait_list w e =
      Ensures-bind HasStored (get_elem? c2.device_info did) _ λ dev _.
        Ensures-bind HasStored (get_elem? c2.object_info oid) _ λ obj _.
          Ensures-if HasStored dev.device.cpu
            (some (store_zero_copy c3 did i buffer_id begin size event))
            (some (store_copy c3 queue s buffer_id begin size evict_event wait_list obj.mode))
            (λ _. record {
              stored = use_host_ptr size begin;
              writes = Writes-trans did i w3 (
                  modify_slot-Writes did i c3 (set_buffer (use_host_ptr size begin))
                    (Writes-slot did i h w3));
              code = refl;
              buffers = refl;
            })
            (λ _. store_copy-Stored c3 evict_event wait_list obj.mode w3)
    where
      c3 : Cache
      c3 = modify_slot c2 did i (fill oid buffer_id begin size)

      w3 : Writes c did i filled c3
      w3 =
          subst (λ s'. Writes c did i s' c3) e
            (Writes-trans did i w
              (modify_slot-Writes did i c2 (fill oid buffer_id begin size) (Writes-slot did i h w)))

  -- The outcomes of `write_slot`: nothing happened, the slot is locked for good with what it
  -- held, or the range is stored.
  pub data Wrote (r : Reply) : Type 0 where
    refused : Quiet c r.cache → r.code ≡ failure → Wrote r
    stuck : Writes c did i (set_lock write_lock 1 s) r.cache → r.code ≡ failure → Wrote r
    done : HasStored r → Wrote r

  -- The outcomes of `try_write_lock` on the free slot.
  abbrev pub Locks : ℤ × Cache → Type 0
  Locks (pos _, c1) = Writes c did i (set_lock write_lock 1 s) c1
  Locks (negsuc _, c1) = Quiet c c1

  pub try_write_lock-Locks : s.status ≡ free → Ensures Locks (try_write_lock c did i)
  unfolding try_write_lock
  try_write_lock-Locks e = Ensures-bind Locks (get_elem? c.device_info did) _ λ dev _.
      Ensures-if Locks (leb dev.num_slots i) (some (failure, c)) (change_lock lock_write c did i)
        (λ _. Quiet-refl c)
        λ _. Ensures-known Locks (slot_at c did i) _ h (
          subst
            (λ st. Locks ((lock_write st s.count).0, modify_slot c did i (lock_write st s.count).1))
            (sym e) (modify_slot-Writes did i c (set_lock write_lock 1) h))

  stored :
      (c2 : Cache) (s2 : Slot) (event evict_event : Event) (wait_list : WaitList)
      → Writes c did i s2 c2
      → fill oid buffer_id begin size s2 ≡ filled
      → Ensures Wrote (store c2 queue did i s oid buffer_id begin size event evict_event wait_list)
  stored c2 s2 event evict_event wait_list w e =
      Ensures-map HasStored Wrote (λ r. done) _ (store-Stored c2 s2 event evict_event wait_list w e)

  store_evicted-Wrote :
      (c1 : Cache) (buffers : List BufferDesc) (event : Event) (wait_list : WaitList)
      (r : ℤ × Event × Cache)
      → Writes c did i (set_lock write_lock 1 s) c1
      → Evicts did i c1 (set_lock write_lock 1 s) r
      → Ensures Wrote
          (store_evicted queue did i s oid buffer_id begin size buffers event wait_list r)
  unfolding store_evicted
  store_evicted-Wrote c1 buffers event wait_list (pos _, e, c2) w (inl w') =
      stored c2 (set_lock write_lock 1 s) event e wait_list (Writes-trans did i w w') refl
  store_evicted-Wrote c1 buffers event wait_list (pos _, e, c2) w (inr w') =
      stored c2 (clear (set_lock write_lock 1 s)) event e wait_list (Writes-trans did i w w') refl
  store_evicted-Wrote c1 buffers event wait_list (negsuc _, e, c2) w w' =
      stuck (Writes-trans did i w w') refl

  evict_locked-Wrote :
      (buffers : List BufferDesc) (event : Event) (wait_list : WaitList) (r : ℤ × Cache)
      → Locks r
      → Ensures Wrote
          (evict_locked queue did i s oid buffer_id begin size buffers event wait_list r)
  unfolding evict_locked
  evict_locked-Wrote buffers event wait_list (negsuc _, c1) q = refused q refl
  evict_locked-Wrote buffers event wait_list (pos _, c1) w =
      Ensures-bind Wrote evict_result _ λ r e. store_evicted-Wrote c1 buffers event wait_list r w (
        Ensures-elim (Evicts did i c1 (set_lock write_lock 1 s)) evict_result
          (evict-Evicts did i c1 queue none wait_list (Writes-slot did i h w)) e)
    where
      evict_result : Option (ℤ × Event × Cache)
      evict_result = evict_cache_slot c1 queue did i none wait_list

  pub write_slot-Wrote :
      (buffers : List BufferDesc) (event : Event) (wait_list : WaitList)
      → s.status ≡ free
      → Ensures Wrote (write_slot c queue did i oid buffer_id begin size buffers event wait_list)
  unfolding write_slot
  write_slot-Wrote buffers event wait_list e = Ensures-known Wrote (slot_at c did i) _ h (
      Ensures-bind Wrote (try_write_lock c did i) _ λ r e'.
        evict_locked-Wrote buffers event wait_list r
          (Ensures-elim Locks (try_write_lock c did i) (try_write_lock-Locks e) e'))

-- ===== src/Cache/Fill.antt =====
-- A write into a slot of a well-formed cache is defined.
use cl_kmeans.Prelude.{
  ℕ, ◌+◌, List, none, some, ℤ, pos, negsuc, ◌≡◌, ◌⊎◌, inl, inr, arith, ◌∙◌, ap, sym, subst,
  get_elem?, ◌==◌, ◌&&◌, IsDefined, IsDefined-bind, IsDefined-known, IsDefined-if, Ensures-elim,
}
use cl_kmeans.Cache.State.{
  Queue, BufferDesc, Event, WaitList, free, write_lock, Slot, ObjectInfo, Cache, slot_at,
}
use cl_kmeans.Cache.Lock.{set_lock, try_write_lock}
use cl_kmeans.Cache.Transfer.{
  read, is_immutable, evict_object, evict_content, evict_cache_slot, store, store_evicted,
  evict_locked, write_slot,
}
use cl_kmeans.Cache.Slots.{slot_of-some}
use cl_kmeans.Cache.Writes.{Writes-slot, Evicts, evict-Evicts}
use cl_kmeans.Cache.Store.{Locks, try_write_lock-Locks}
use cl_kmeans.Cache.Valid.{ReadsBefore, IsEmpty, IsOccupied, Contents, Fits-mono}
use cl_kmeans.Cache.Defined.{try_write_lock-IsDefined, read-IsDefined}

module _ (queue : Queue) (did i : ℕ) where
  evict_object-IsDefined :
      (c : Cache) (s : Slot) (oid : ℕ) (event : Event) (wait_list : WaitList) {o : ObjectInfo}
      → slot_at c did i ≡ some s
      → get_elem? c.object_info oid ≡ some o
      → IsDefined (evict_object c queue did i s oid event wait_list)
  unfolding evict_object
  evict_object-IsDefined c s oid event wait_list {o} e found =
      let (dev, e1, _) = slot_of-some c.device_info did i e in
      IsDefined-known (get_elem? c.device_info did) _ e1 (
        IsDefined-known (get_elem? c.object_info oid) _ found (
          IsDefined-if (is_immutable o.mode) _ _ (λ _. tt)
            λ _.
              IsDefined-if dev.device.cpu _ _ (λ _. tt)
                λ _.
                  IsDefined-bind
                    (read c queue oid s.cached_ptr (s.cached_ptr + s.cached_content_length) event
                      wait_list)
                    _ (read-IsDefined c queue oid s.cached_ptr _ event wait_list) (λ r _. tt)))

  evict_content-IsDefined :
      (c : Cache) (s : Slot) (event : Event) (wait_list : WaitList)
      → slot_at c did i ≡ some s
      → IsEmpty s ⊎ IsOccupied c i s
      → ReadsBefore c
      → IsDefined (evict_content c queue did i s s.cached_object_id event wait_list)
  unfolding evict_content
  evict_content-IsDefined c s event wait_list e (inl h) (mode, before) =
      subst (λ z. IsDefined (evict_content c queue did i s z event wait_list)) (sym h.object_id)
        (IsDefined-known c.before_objects _ before (
          IsDefined-if (0 == 0 && s.cached_buffer_id == 0 && s.cached_ptr == 0) _ _ (λ _. tt)
            (λ n. absurd (ground (arith, h.buffer_id, h.ptr)))))
  evict_content-IsDefined c s event wait_list e (inr h) _ =
      subst (λ z. IsDefined (evict_content c queue did i s z event wait_list)) (sym h.object_id)
        (evict_object-IsDefined c s h.oid event wait_list e h.fits.range.found)

  evict-IsDefined :
      (c : Cache) (s : Slot) (event : Event) (wait_list : WaitList)
      → slot_at c did i ≡ some s
      → IsEmpty s ⊎ IsOccupied c i s
      → ReadsBefore c
      → IsDefined (evict_cache_slot c queue did i event wait_list)
  unfolding evict_cache_slot
  evict-IsDefined c s event wait_list e h before =
      IsDefined-known (slot_at c did i) _ e (evict_content-IsDefined c s event wait_list e h before)

  module _ (s : Slot) (oid buffer_id begin size : ℕ) where
    store-IsDefined :
        (c : Cache) (event evict_event : Event) (wait_list : WaitList) {s' : Slot} {o : ObjectInfo}
        → slot_at c did i ≡ some s'
        → get_elem? c.object_info oid ≡ some o
        → IsDefined (store c queue did i s oid buffer_id begin size event evict_event wait_list)
    unfolding store
    store-IsDefined c event evict_event wait_list e found =
        let (dev, e1, _) = slot_of-some c.device_info did i e in
        IsDefined-known (get_elem? c.device_info did) _ e1 (
          IsDefined-known (get_elem? c.object_info oid) _ found
            (IsDefined-if dev.device.cpu _ _ (λ _. tt) (λ _. tt)))

    store_evicted-IsDefined :
        (c : Cache) (s1 : Slot) (buffers : List BufferDesc) (event : Event) (wait_list : WaitList)
        (r : ℤ × Event × Cache) {o : ObjectInfo}
        → slot_at c did i ≡ some s1
        → get_elem? c.object_info oid ≡ some o
        → Evicts did i c s1 r
        → IsDefined (store_evicted queue did i s oid buffer_id begin size buffers event wait_list r)
    unfolding store_evicted
    store_evicted-IsDefined c s1 buffers event wait_list (negsuc _, e, c2) h found w = tt
    store_evicted-IsDefined c s1 buffers event wait_list (pos _, e, c2) h found (inl w) =
        store-IsDefined c2 event e wait_list (Writes-slot did i h w)
          (ap (λ os. get_elem? os oid) w.objects ∙ found)
    store_evicted-IsDefined c s1 buffers event wait_list (pos _, e, c2) h found (inr w) =
        store-IsDefined c2 event e wait_list (Writes-slot did i h w)
          (ap (λ os. get_elem? os oid) w.objects ∙ found)

    evict_locked-IsDefined :
        (c : Cache) (buffers : List BufferDesc) (event : Event) (wait_list : WaitList)
        (r : ℤ × Cache) {o : ObjectInfo}
        → (h : slot_at c did i ≡ some s) → get_elem? c.object_info oid ≡ some o
        → IsEmpty s ⊎ IsOccupied c i s
        → ReadsBefore c
        → Locks c queue did i oid buffer_id begin size h r
        → IsDefined (evict_locked queue did i s oid buffer_id begin size buffers event wait_list r)
    unfolding evict_locked
    evict_locked-IsDefined c buffers event wait_list (negsuc _, c1) h found v before q = tt
    evict_locked-IsDefined c buffers event wait_list (pos _, c1) h found v (mode, before) w =
        IsDefined-bind (evict_cache_slot c1 queue did i none wait_list) _
          (evict-IsDefined c1 locked none wait_list h1 (content v) (mode, w.before ∙ before))
          λ r e.
            store_evicted-IsDefined c1 locked buffers event wait_list r h1
              (ap (λ os. get_elem? os oid) w.objects ∙ found)
              (Ensures-elim (Evicts did i c1 locked)
                (evict_cache_slot c1 queue did i none wait_list)
                (evict-Evicts did i c1 queue none wait_list h1) e)
      where
        locked : Slot
        locked = set_lock write_lock 1 s

        h1 : slot_at c1 did i ≡ some locked
        h1 = Writes-slot did i h w

        content : IsEmpty s ⊎ IsOccupied c i s → IsEmpty locked ⊎ IsOccupied c1 i locked
        content (inl k) = inl (record {
          object_id = k.object_id;
          buffer_id = k.buffer_id;
          ptr = k.ptr;
          content_length = k.content_length;
        })
        content (inr k) = inr (record {
          oid = k.oid;
          object_id = k.object_id;
          fits =
              Fits-mono (λ o found'. ap (λ os. get_elem? os k.oid) w.objects ∙ found') w.size
                k.fits;
        })

pub write_slot-IsDefined :
    (c : Cache) (queue : Queue) (did i oid buffer_id begin size : ℕ) (buffers : List BufferDesc)
    (event : Event) (wait_list : WaitList) {s : Slot} {o : ObjectInfo}
    → Contents c
    → ReadsBefore c
    → slot_at c did i ≡ some s
    → s.status ≡ free
    → get_elem? c.object_info oid ≡ some o
    → IsDefined (write_slot c queue did i oid buffer_id begin size buffers event wait_list)
unfolding write_slot
write_slot-IsDefined c queue did i oid buffer_id begin size buffers event wait_list {s} v before h e
      found =
    IsDefined-known (slot_at c did i) _ h (
      IsDefined-bind (try_write_lock c did i) _ (try_write_lock-IsDefined c did i h) λ r e'.
        evict_locked-IsDefined queue did i s oid buffer_id begin size c buffers event wait_list r h
          found (v did i s h) before
          (Ensures-elim (Locks c queue did i oid buffer_id begin size h) (try_write_lock c did i)
            (try_write_lock-Locks c queue did i oid buffer_id begin size h e) e'))

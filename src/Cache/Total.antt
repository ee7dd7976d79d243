-- ===== src/Cache/Total.antt =====
-- Every access of a well-formed cache with room is defined.
use cl_kmeans.Prelude.{
  ℕ, List, some, pos, ◌≡◌, ◌∙◌, ap, get_elem?-lt, ltb, ◌==◌, IsDefined, IsDefined-bind,
  IsDefined-if, IsDefined-ℤ, Ensures-elim,
}
use cl_kmeans.Cache.State.{sub64, Queue, BufferDesc, Event, WaitList, Slot, Cache, slot_at}
use cl_kmeans.Cache.Find.{find_device_id, find_buffer_id, find_cache_slot, assign_cache_slot}
use cl_kmeans.Cache.Lock.{try_read_lock, unlock}
use cl_kmeans.Cache.Transfer.{read, write_slot, write_and_get, get_slot, get}
use cl_kmeans.Cache.Lookup.{
  InRange, find_device_id-some, find_buffer_id-InRange, find_cache_slot-some,
  assign_cache_slot-free,
}
use cl_kmeans.Cache.Valid.{Contents, ReadsBefore, IsValid}
use cl_kmeans.Cache.Defined.{
  HasRoom, assign_cache_slot-IsDefined, assign_cache_slot-slot, try_read_lock-IsDefined,
  try_read_lock-slot, unlock-IsDefined, read-IsDefined,
}
use cl_kmeans.Cache.Calls.{Access, gets, writes, reads, unlocks, access}
use cl_kmeans.Cache.Fill.{write_slot-IsDefined}

module _ (c : Cache) (v : Contents c) (before : ReadsBefore c) (room : HasRoom c) where
  assigned-IsDefined :
      (queue : Queue) (did i oid buffer_id begin size : ℕ) (buffers : List BufferDesc)
      (event : Event) (wait_list : WaitList)
      → InRange c oid begin buffer_id
      → assign_cache_slot c did oid ≡ some (pos i)
      → IsDefined (write_slot c queue did i oid buffer_id begin size buffers event wait_list)
  assigned-IsDefined queue did i oid buffer_id begin size buffers event wait_list range a =
      let (s, e) = assign_cache_slot-slot c did oid i a in
      write_slot-IsDefined c queue did i oid buffer_id begin size buffers event wait_list v before e
        (assign_cache_slot-free c did oid i a e).0 range.found

  write_and_get-IsDefined :
      (queue : Queue) (oid begin end : ℕ) (buffers : List BufferDesc) (event : Event)
      (wait_list : WaitList)
      → IsDefined (write_and_get c queue oid begin end buffers event wait_list)
  unfolding write_and_get
  write_and_get-IsDefined queue oid begin end buffers event wait_list =
      IsDefined-if (ltb c.buffer_size (sub64 end begin)) _ _ (λ _. tt)
        λ _.
          IsDefined-ℤ (find_device_id c queue.device) _ _
            (λ did known.
              let (dev, e1, _) = find_device_id-some c queue.device known in
              IsDefined-ℤ (find_buffer_id c did oid begin 0).0 _ _
                (λ _ found.
                  let range = find_buffer_id-InRange c did oid begin 0 found in
                  IsDefined-bind (assign_cache_slot c did oid) _
                    (assign_cache_slot-IsDefined c did oid room e1 range.valid
                      (get_elem?-lt c.object_info oid range.found))
                    λ assigned a.
                      IsDefined-ℤ assigned _ _
                        (λ i e.
                          assigned-IsDefined queue did i oid (find_buffer_id c did oid begin 0).1
                            begin (sub64 end begin) buffers event wait_list range (a ∙ ap some e))
                        (λ _ _. tt))
                (λ _ _. tt))
            (λ _ _. tt)

  get_slot-IsDefined :
      (did i buffer_id size : ℕ) (buffers : List BufferDesc) (event : Event) {s : Slot}
      → slot_at c did i ≡ some s
      → IsDefined (get_slot c did i buffer_id size buffers event)
  unfolding get_slot
  get_slot-IsDefined did i buffer_id size buffers event e =
      IsDefined-bind (try_read_lock c did i) _ (try_read_lock-IsDefined c did i e) λ r e'.
        IsDefined-ℤ r.0 _ _
          (λ _ _.
            IsDefined-bind (slot_at r.1 did i) _
              (Ensures-elim (λ q. IsDefined (slot_at q.1 did i)) (try_read_lock c did i)
                (try_read_lock-slot c did i e) e')
              (λ _ _. tt))
          (λ _ _. tt)

  pub get-IsDefined :
      (queue : Queue) (oid begin end : ℕ) (buffers : List BufferDesc) (event : Event)
      (wait_list : WaitList)
      → IsDefined (get c queue oid begin end buffers event wait_list)
  unfolding get
  get-IsDefined queue oid begin end buffers event wait_list =
      IsDefined-if (ltb c.buffer_size (sub64 end begin)) _ _ (λ _. tt)
        λ _.
          IsDefined-ℤ (find_device_id c queue.device) _ _
            (λ did _.
              IsDefined-ℤ (find_buffer_id c did oid begin 0).0 _ _
                (λ _ _.
                  IsDefined-ℤ (find_cache_slot c did oid (find_buffer_id c did oid begin 0).1) _ _
                    (λ i e.
                      let (s, e', _) = find_cache_slot-some c did oid _ i e in
                      get_slot-IsDefined did i _ (sub64 end begin) buffers event e')
                    (λ m _.
                      IsDefined-if (m == 1) _ _
                        (λ _. write_and_get-IsDefined queue oid begin end buffers event wait_list)
                        (λ _. tt)))
                (λ _ _. tt))
            (λ _ _. tt)

contents : (k : ℕ) (c : Cache) → IsValid k c → Contents c
contents k c v did i s h = (v.slots did i s h).content

-- Where a read of object_info_i[-1].mode, which evict_cache_slot makes for an empty slot and does
-- not use, gives some mode: on a well-formed cache in which every device has the two slots of each
-- object, and whose objects' slots are numbered below 2^32, no get, write_and_get, read or unlock
-- makes any other access out of the bounds of a vector: each returns.
pub access-IsDefined :
    (k : ℕ) (c : Cache)
    → IsValid k c
    → ReadsBefore c
    → HasRoom c
    → (a : Access) → IsDefined (access c a)
unfolding access
access-IsDefined k c v before room (gets queue oid begin end buffers event wait_list) =
    IsDefined-bind (get c queue oid begin end buffers event wait_list) _
      (get-IsDefined c (contents k c v) before room queue oid begin end buffers event wait_list)
      (λ _ _. tt)
access-IsDefined k c v before room (writes queue oid begin end buffers event wait_list) =
    IsDefined-bind (write_and_get c queue oid begin end buffers event wait_list) _
      (write_and_get-IsDefined c (contents k c v) before room queue oid begin end buffers event
        wait_list)
      (λ _ _. tt)
access-IsDefined k c v before room (reads queue oid begin end event wait_list) =
    IsDefined-bind (read c queue oid begin end event wait_list) _
      (read-IsDefined c queue oid begin end event wait_list) (λ _ _. tt)
access-IsDefined k c v before room (unlocks queue oid buffers) =
    IsDefined-bind (unlock c queue oid buffers) _ (unlock-IsDefined c queue oid buffers) (λ _ _. tt)

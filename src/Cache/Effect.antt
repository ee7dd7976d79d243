-- ===== src/Cache/Effect.antt =====
-- Each access of the cache has one effect of the protocol.
use cl_kmeans.Prelude.{
  Bool, true, false, ℕ, ◌-◌, ◌≤◌, some, ℤ, pos, ◌≡◌, inl, inr, get_elem?, refl, arith, Ensures,
  Ensures-bind, Ensures-if, Ensures-elim, Ensures-map, Ensures-ℤ, ltb, leb, ◌==◌, List, [], ◌∷◌, ap,
  Option-cases, Bool-cases, ==_iff, ◌∙◌,
}
use cl_kmeans.Cache.State.{
  sub64, add32, failure, Queue, BufferDesc, Event, WaitList, SlotLockStatus, free, read_lock,
  write_lock, Slot, Cache, slot_at, modify_slot,
}
use cl_kmeans.Cache.Find.{find_device_id, find_buffer_id, find_cache_slot, assign_cache_slot}
use cl_kmeans.Cache.Lock.{
  set_lock, lock_read, release, change_lock, try_read_lock, unlock, unlock_list, unlock_buffer,
}
use cl_kmeans.Cache.Transfer.{Reply, read, write_slot, write_and_get, get_slot, get, fail}
use cl_kmeans.Cache.Protocol.{
  Fits, shares_first, shares, locks, loads, unshares, unlocks, Effect, quiet, step,
}
use cl_kmeans.Cache.Lookup.{InRange, find_buffer_id-InRange, assign_cache_slot-free}
use cl_kmeans.Cache.Writes.{Quiet, Quiet-refl, modify_slot-Writes, modify_slot_id-Quiet, read-Quiet}
use cl_kmeans.Cache.Store.{Wrote, refused, stuck, done, write_slot-Wrote}

Wrote-Effect :
    (c : Cache) (queue : Queue) (did i oid buffer_id begin size : ℕ) (s : Slot) (r : Reply)
    → (h : slot_at c did i ≡ some s) → s.status ≡ free
    → Fits c i oid buffer_id begin size
    → Wrote c queue did i oid buffer_id begin size h r
    → Effect false c r.cache
Wrote-Effect c queue did i oid buffer_id begin size s r h e fits (refused q _) = quiet q
Wrote-Effect c queue did i oid buffer_id begin size s r h e fits (stuck w _) =
    step did i s _ h (locks e) w
Wrote-Effect c queue did i oid buffer_id begin size s r h e fits (done w) =
    step did i s _ h (loads oid buffer_id begin size w.stored refl e fits) w.writes

abbrev Replies : Cache → Reply → Type 0
Replies c r = Effect false c r.cache

fail-Effect :
    (c : Cache) (buffers : List BufferDesc) (event : Event)
    → Ensures (Replies c) (fail buffers event c)
fail-Effect c buffers event = quiet (Quiet-refl c)

write_slot-Effect :
    (c : Cache) (queue : Queue) (did i oid buffer_id begin size : ℕ) (buffers : List BufferDesc)
    (event : Event) (wait_list : WaitList)
    → assign_cache_slot c did oid ≡ some (pos i)
    → InRange c oid begin buffer_id
    → size ≤ c.buffer_size
    → Ensures
        (Replies c)
        (write_slot c queue did i oid buffer_id begin size buffers event wait_list)
unfolding write_slot
write_slot-Effect c queue did i oid buffer_id begin size buffers event wait_list a r l =
    elim (Option-cases (slot_at c did i)) [
      | inl e ↦ rw (e, write_slot) tt
      | inr (s, e) ↦
          let (unlocked, own) = assign_cache_slot-free c did oid i a e in
          Ensures-map (Wrote c queue did i oid buffer_id begin size e) (Replies c)
            (λ reply.
              Wrote-Effect c queue did i oid buffer_id begin size s reply e unlocked
                (record { range = r; slot = own; small = l }))
            (write_slot c queue did i oid buffer_id begin size buffers event wait_list)
            (write_slot-Wrote c queue did i oid buffer_id begin size e buffers event wait_list
              unlocked)
    ]

pub write_and_get-Effect :
    (c : Cache) (queue : Queue) (oid begin end : ℕ) (buffers : List BufferDesc) (event : Event)
    (wait_list : WaitList)
    → Ensures (Replies c) (write_and_get c queue oid begin end buffers event wait_list)
unfolding write_and_get
write_and_get-Effect c queue oid begin end buffers event wait_list =
    Ensures-if P (ltb c.buffer_size size) _ _ (λ _. failed)
      λ l.
        Ensures-ℤ P (find_device_id c queue.device) _ _
          (λ did _.
            Ensures-ℤ P (find_buffer_id c did oid begin 0).0 _ _
              (λ _ found. Ensures-bind P (assign_cache_slot c did oid) _ λ assigned a.
                Ensures-ℤ P assigned _ _
                  (λ i e.
                    write_slot-Effect c queue did i oid (find_buffer_id c did oid begin 0).1 begin
                      size buffers event wait_list (a ∙ ap some e)
                      (find_buffer_id-InRange c did oid begin 0 found) (ground arith))
                  (λ _ _. failed))
              (λ _ _. failed))
          (λ _ _. failed)
  where
    P : Reply → Type 0
    P = Replies c

    size : ℕ
    size = sub64 end begin

    failed : Ensures P (fail buffers event c)
    failed = fail-Effect c buffers event

module _ (c : Cache) (did i : ℕ) where
  abbrev Changes : Bool → ℤ × Cache → Type 0
  Changes unlocking (_, c') = Effect unlocking c c'

  lock_read-Effect :
      (s : Slot) (status : SlotLockStatus)
      → slot_at c did i ≡ some s
      → s.status ≡ status
      → Effect false c (modify_slot c did i (lock_read status s.count).1)
  unfolding lock_read
  lock_read-Effect s free h e =
      step did i s _ h (shares_first e) (modify_slot-Writes did i c (set_lock read_lock 1) h)
  lock_read-Effect s read_lock h e =
      step did i s _ h (shares e)
        (modify_slot-Writes did i c (set_lock read_lock (add32 s.count 1)) h)
  lock_read-Effect s write_lock h e = quiet (modify_slot_id-Quiet did i c h)

  release-Effect :
      (s : Slot) (status : SlotLockStatus)
      → slot_at c did i ≡ some s
      → s.status ≡ status
      → Effect true c (modify_slot c did i (release status s.count).1)
  unfolding release
  release-Effect s free h e = quiet (modify_slot_id-Quiet did i c h)
  release-Effect s write_lock h e =
      step did i s _ h (unlocks refl (inl e)) (modify_slot-Writes did i c (set_lock free 0) h)
  release-Effect s read_lock h e = elim (Bool-cases (s.count == 1)) [
    | inl one ↦ rw one (
        step did i s _ h (unlocks refl (inr (e, (==_iff s.count 1).0 one)))
          (modify_slot-Writes did i c (set_lock free 0) h))
    | inr more ↦ rw more (
        step did i s _ h (unshares refl e (ground arith))
          (modify_slot-Writes did i c (set_lock read_lock (s.count - 1)) h))
  ]

  try_read_lock-Effect : Ensures (Changes false) (try_read_lock c did i)
  unfolding try_read_lock
  try_read_lock-Effect = Ensures-bind (Changes false) (get_elem? c.device_info did) _ λ dev _.
      Ensures-if (Changes false) (leb dev.num_slots i) (some (failure, c))
        (change_lock lock_read c did i) (λ _. quiet (Quiet-refl c))
        λ _.
          Ensures-bind (Changes false) (slot_at c did i) _ λ s h. lock_read-Effect s s.status h refl

  change_lock-Effect : Ensures (Changes true) (change_lock release c did i)
  unfolding change_lock
  change_lock-Effect =
      Ensures-bind (Changes true) (slot_at c did i) _ λ s h. release-Effect s s.status h refl

unlock_buffer-Effect :
    (c : Cache) (did oid buf_id : ℕ)
    → Ensures (λ r. Effect true c r.1) (unlock_buffer c did oid buf_id)
unfolding unlock_buffer
unlock_buffer-Effect c did oid buf_id =
    Ensures-ℤ (λ r. Effect true c r.1) (find_cache_slot c did oid buf_id) _ _
      (λ i _. change_lock-Effect c did i) (λ _ _. quiet (Quiet-refl c))

unlock_list-Effect :
    (c : Cache) (did oid : ℕ) (buffers : List BufferDesc)
    → Ensures (λ r. Effect true c r.1) (unlock_list c did oid buffers)
unfolding unlock_list
unlock_list-Effect c did oid [] = quiet (Quiet-refl c)
unlock_list-Effect c did oid (desc ∷ []) = unlock_buffer-Effect c did oid desc.buffer_id
unlock_list-Effect c did oid (desc ∷ more ∷ rest) = quiet (Quiet-refl c)

pub unlock-Effect :
    (c : Cache) (queue : Queue) (oid : ℕ) (buffers : List BufferDesc)
    → Ensures (λ r. Effect true c r.1) (unlock c queue oid buffers)
unfolding unlock
unlock-Effect c queue oid buffers =
    Ensures-ℤ (λ r. Effect true c r.1) (find_device_id c queue.device) _ _
      (λ did _. unlock_list-Effect c did oid buffers) (λ _ _. quiet (Quiet-refl c))

pub read-Effect :
    (c : Cache) (queue : Queue) (oid begin end : ℕ) (event : Event) (wait_list : WaitList)
    → Ensures (λ r. Effect false c r.2) (read c queue oid begin end event wait_list)
read-Effect c queue oid begin end event wait_list =
    Ensures-map (λ r. Quiet c r.2) (λ r. Effect false c r.2) (λ r. quiet)
      (read c queue oid begin end event wait_list)
      (read-Quiet c queue oid begin end event wait_list)

get_slot-Effect :
    (c : Cache) (did i buffer_id size : ℕ) (buffers : List BufferDesc) (event : Event)
    → Ensures (Replies c) (get_slot c did i buffer_id size buffers event)
unfolding get_slot
get_slot-Effect c did i buffer_id size buffers event =
    Ensures-bind P (try_read_lock c did i) _ λ r e.
      let effect : Effect false c r.1 =
        Ensures-elim (Changes c did i false) (try_read_lock c did i) (try_read_lock-Effect c did i)
          e in
      Ensures-ℤ P r.0 _ _ (λ _ _. Ensures-bind P (slot_at r.1 did i) _ λ _ _. effect)
        (λ _ _. effect)
  where
    P : Reply → Type 0
    P = Replies c

pub get-Effect :
    (c : Cache) (queue : Queue) (oid begin end : ℕ) (buffers : List BufferDesc) (event : Event)
    (wait_list : WaitList)
    → Ensures (Replies c) (get c queue oid begin end buffers event wait_list)
unfolding get
get-Effect c queue oid begin end buffers event wait_list =
    Ensures-if P (ltb c.buffer_size (sub64 end begin)) _ _ (λ _. quiet same)
      λ _.
        Ensures-ℤ P (find_device_id c queue.device) _ _
          (λ did _.
            Ensures-ℤ P (find_buffer_id c did oid begin 0).0 _ _
              (λ _ _.
                Ensures-ℤ P (find_cache_slot c did oid (find_buffer_id c did oid begin 0).1) _ _
                  (λ i _. get_slot-Effect c did i _ (sub64 end begin) buffers event)
                  (λ k _.
                    Ensures-if P (k == 1) _ _
                      (λ _. write_and_get-Effect c queue oid begin end buffers event wait_list)
                      (λ _. quiet same)))
              (λ _ _. quiet same))
          (λ _ _. quiet same)
  where
    P : Reply → Type 0
    P = Replies c

    same : Quiet c c
    same = Quiet-refl c

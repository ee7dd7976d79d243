-- ===== src/Cache/Answers.antt =====
-- What `get` and `write_and_get` hand out: a range of an object in one buffer, where they answer
-- that they succeed.
use cl_kmeans.Prelude.{
  ℕ, List, [], ◌∷◌, some, pos, ◌≡◌, inl, inr, refl, ◌∙◌, ap, subst, get_elem?-lt, ltb, ◌==◌,
  Option-cases, Ensures, Ensures-bind, Ensures-if, Ensures-ℤ, Ensures-map,
}
use cl_kmeans.Cache.State.{sub64, Queue, BufferDesc, Event, WaitList, Slot, Cache, slot_at}
use cl_kmeans.Cache.Find.{find_device_id, find_buffer_id, find_cache_slot, assign_cache_slot}
use cl_kmeans.Cache.Lock.{try_read_lock}
use cl_kmeans.Cache.Transfer.{Reply, write_slot, write_and_get, get_slot, get, fail}
use cl_kmeans.Cache.Lookup.{InRange, find_device_id-some, assign_cache_slot-free}
use cl_kmeans.Cache.Store.{Wrote, refused, stuck, done, write_slot-Wrote}
use cl_kmeans.Cache.Errors.{find_buffer_id_inside}

-- One buffer with the id `b` and `n` bytes of content.
abbrev pub OneBuffer : (b n : ℕ) → List BufferDesc → Type 0
OneBuffer b n buffers =
    (desc : BufferDesc) × (buffers ≡ desc ∷ []) × (desc.buffer_id ≡ b) × (desc.content_length ≡ n)

abbrev pub Answers : (b n : ℕ) → Reply → Type 0
Answers b n r = (k : ℕ) → r.code ≡ pos k → OneBuffer b n r.buffers

fail-Answers :
    (b n : ℕ) (buffers : List BufferDesc) (event : Event) (c : Cache)
    → Ensures (Answers b n) (fail buffers event c)
fail-Answers b n buffers event c k e = absurd cc

Wrote-Answers :
    (c : Cache) (queue : Queue) (did i oid buffer_id begin size : ℕ) (s : Slot) (r : Reply)
    (h : slot_at c did i ≡ some s)
    → Wrote c queue did i oid buffer_id begin size h r
    → Answers buffer_id size r
Wrote-Answers c queue did i oid buffer_id begin size s r h (refused _ e) k e' = absurd cc
Wrote-Answers c queue did i oid buffer_id begin size s r h (stuck _ e) k e' = absurd cc
Wrote-Answers c queue did i oid buffer_id begin size s r h (done w) k e' =
    (_, w.buffers, refl, refl)

module _ (c : Cache) (queue : Queue) (oid begin end : ℕ) (buffers : List BufferDesc) (event : Event)
    (wait_list : WaitList) (b : ℕ) (range : InRange c oid begin b) where
  abbrev size : ℕ
  size = sub64 end begin

  -- The id that a known device's lookup finds.
  id_found :
      (did : ℕ)
      → find_device_id c queue.device ≡ pos did
      → (find_buffer_id c did oid begin 0) ≡ (pos 1, b)
  id_found did known =
      let (dev, there, _) = find_device_id-some c queue.device known in
      find_buffer_id_inside c did oid begin 0 b range (get_elem?-lt c.device_info did there)

  write_slot-Answers :
      (did i buffer_id : ℕ)
      → assign_cache_slot c did oid ≡ some (pos i)
      → Ensures
          (Answers buffer_id size)
          (write_slot c queue did i oid buffer_id begin size buffers event wait_list)
  unfolding write_slot
  write_slot-Answers did i buffer_id a = elim (Option-cases (slot_at c did i)) [
    | inl e ↦ rw (e, write_slot) tt
    | inr (s, e) ↦
        Ensures-map (Wrote c queue did i oid buffer_id begin size e) (Answers buffer_id size)
          (λ r. Wrote-Answers c queue did i oid buffer_id begin size s r e) _
          (write_slot-Wrote c queue did i oid buffer_id begin size e buffers event wait_list
            (assign_cache_slot-free c did oid i a e).0)
  ]

  write_and_get-Answers :
      Ensures (Answers b size) (write_and_get c queue oid begin end buffers event wait_list)
  unfolding write_and_get
  write_and_get-Answers =
      Ensures-if (Answers b size) (ltb c.buffer_size size) _ _
        (λ _. fail-Answers b size buffers event c)
        λ _.
          Ensures-ℤ (Answers b size) (find_device_id c queue.device) _ _
            (λ did known.
              Ensures-ℤ (Answers b size) (find_buffer_id c did oid begin 0).0 _ _
                (λ _ _. Ensures-bind (Answers b size) (assign_cache_slot c did oid) _ λ assigned a.
                  Ensures-ℤ (Answers b size) assigned _ _
                    (λ i e.
                      subst
                        (λ z. Ensures (Answers z size) (
                          write_slot c queue did i oid (find_buffer_id c did oid begin 0).1 begin
                            size buffers event wait_list))
                        (ap (λ z. z.1) (id_found did known))
                        (write_slot-Answers did i _ (a ∙ ap some e)))
                    (λ _ _. fail-Answers b size buffers event c))
                (λ _ _. fail-Answers b size buffers event c))
            (λ _ _. fail-Answers b size buffers event c)

  get_slot-Answers :
      (did i buffer_id : ℕ)
      → Ensures (Answers buffer_id size) (get_slot c did i buffer_id size buffers event)
  unfolding get_slot
  get_slot-Answers did i buffer_id =
      Ensures-bind (Answers buffer_id size) (try_read_lock c did i) _ λ r _.
        Ensures-ℤ (Answers buffer_id size) r.0 _ _
          (λ _ _.
            Ensures-bind (Answers buffer_id size) (slot_at r.1 did i) _
              λ s _ k e. (_, refl, refl, refl))
          (λ _ _. fail-Answers buffer_id size buffers event r.1)

  -- `get` of a range that begins in an object, where it answers a code that is not negative,
  -- hands out one buffer with the length of the range, whose id is where the range begins in the
  -- object.
  pub get-Answers : Ensures (Answers b size) (get c queue oid begin end buffers event wait_list)
  unfolding get
  get-Answers =
      Ensures-if (Answers b size) (ltb c.buffer_size size) _ _
        (λ _. fail-Answers b size buffers event c)
        λ _.
          Ensures-ℤ (Answers b size) (find_device_id c queue.device) _ _
            (λ did known.
              Ensures-ℤ (Answers b size) (find_buffer_id c did oid begin 0).0 _ _
                (λ _ _.
                  Ensures-ℤ (Answers b size)
                    (find_cache_slot c did oid (find_buffer_id c did oid begin 0).1) _ _
                    (λ i _.
                      subst
                        (λ z. Ensures (Answers z size) (
                          get_slot c did i (find_buffer_id c did oid begin 0).1 size buffers event))
                        (ap (λ z. z.1) (id_found did known)) (get_slot-Answers did i _))
                    (λ m _.
                      Ensures-if (Answers b size) (m == 1) _ _ (λ _. write_and_get-Answers)
                        (λ _ k e. absurd cc)))
                (λ k e. let inside = id_found did known in absurd cc))
            (λ m _ k e. absurd cc)

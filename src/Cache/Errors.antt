-- ===== src/Cache/Errors.antt =====
-- The error paths of `get` and `write_and_get`.
use cl_kmeans.Prelude.{
  ℕ, ◌*◌, ◌^◌, ◌-◌, ◌≤◌, ◌<◌, List, none, some, pos, negsuc, ◌≡◌, inl, inr, arith, ◌∙◌, ap,
  get_elem?, length, ℤ-cases, get_elem?-lt, get_elem?-none,
}
use cl_kmeans.Cache.State.{
  sub64, success, failure, Queue, BufferDesc, Event, WaitList, DeviceInfo, Cache, slot_at, slot_in,
}
use cl_kmeans.Cache.Find.{find_device_id, find_buffer_id, base_slot, assign_cache_slot}
use cl_kmeans.Cache.Transfer.{read, write_and_get, get}
use cl_kmeans.Cache.Lookup.{InRange, find_buffer_id-InRange}
use cl_kmeans.Cache.Defined.{base_slot_lem}

find_buffer_id-fails :
    (c : Cache) (did oid ptr b : ℕ) {n : ℕ}
    → (find_buffer_id c did oid ptr b).0 ≡ negsuc n
    → find_buffer_id c did oid ptr b ≡ (failure, b)
unfolding find_buffer_id
find_buffer_id-fails c did oid ptr b e = ground arith

-- A pointer outside of the object, or an unknown object, in the code of `find_buffer_id`.
find_buffer_id_outside :
    (c : Cache) (did oid ptr b : ℕ)
    → ((b' : ℕ) → ¬ InRange c oid ptr b')
    → find_buffer_id c did oid ptr b ≡ (failure, b)
find_buffer_id_outside c did oid ptr b h = elim (ℤ-cases (find_buffer_id c did oid ptr b).0) [
  | inl (n, e) ↦ absurd (h _ (find_buffer_id-InRange c did oid ptr b e))
  | inr (n, e) ↦ find_buffer_id-fails c did oid ptr b e
]

-- A pointer in the object.
pub find_buffer_id_inside :
    (c : Cache) (did oid ptr b b' : ℕ)
    → InRange c oid ptr b'
    → did < length c.device_info
    → find_buffer_id c did oid ptr b ≡ (success, b')
unfolding find_buffer_id
find_buffer_id_inside c did oid ptr b b' r l =
    ground (arith, get_elem?-lt c.object_info oid r.found)

-- The first slot of the object is out of the device's bounds.
assign_cache_slot_overrun :
    (c : Cache) (did oid : ℕ) {dev : DeviceInfo}
    → get_elem? c.device_info did ≡ some dev
    → 0 < oid
    → oid < length c.object_info
    → 2 * length c.object_info < 2 ^ 32
    → length dev.slots ≤ 2 * (oid - 1)
    → assign_cache_slot c did oid ≡ none
unfolding assign_cache_slot
assign_cache_slot_overrun c did oid {dev} e p l w short =
    let base = (base_slot_lem oid p (omega arith)).0 in
    let out : slot_at c did (base_slot oid) ≡ none =
      ap (λ o. slot_in o (base_slot oid)) e
      ∙ get_elem?-none dev.slots (base_slot oid) (omega (arith, base)) in
    ground (arith, out, get_elem?-lt c.device_info did e)

module _ (c : Cache) (queue : Queue) (oid begin end : ℕ) (buffers : List BufferDesc) (event : Event)
    (wait_list : WaitList) {did : ℕ} (small : sub64 end begin ≤ c.buffer_size)
    (known : find_device_id c queue.device ≡ pos did) where
  -- A pointer outside of the object leaves the cache alone; `write_and_get` answers -1, but `get`
  -- answers 0 and `read` too.
  pub get_outside :
      ((b : ℕ) → ¬ InRange c oid begin b)
      → (get c queue oid begin end buffers event wait_list
          ≡ some (record { code = pos 0; buffers = buffers; event = event; cache = c }))
        × (read c queue oid begin end event wait_list ≡ some (pos 0, event, c))
        × (write_and_get c queue oid begin end buffers event wait_list
            ≡ some (record { code = failure; buffers = buffers; event = event; cache = c }))
  unfolding get read write_and_get
  get_outside h = ground (arith, find_buffer_id_outside c did oid begin 0 h)

  -- On a known device that has at most 2 * (oid - 1) slots, where twice the number of objects is
  -- below 2^32, write_and_get of a range of object oid that fits a buffer reads slot_lock out of
  -- its bounds.
  pub write_and_get_overrun :
      {dev : DeviceInfo} (b : ℕ)
      → InRange c oid begin b
      → get_elem? c.device_info did ≡ some dev
      → 2 * length c.object_info < 2 ^ 32
      → length dev.slots ≤ 2 * (oid - 1)
      → write_and_get c queue oid begin end buffers event wait_list ≡ none
  unfolding write_and_get
  write_and_get_overrun {dev} b range e l short = ground (
    arith,
    find_buffer_id_inside c did oid begin 0 b range (get_elem?-lt c.device_info did e),
    assign_cache_slot_overrun c did oid e range.valid (get_elem?-lt c.object_info oid range.found) l
        short,
  )

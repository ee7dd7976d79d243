-- ===== src/Scheduler/Contract.antt =====
-- What the scheduler relies on: the contract of `BufferCache::get` and `unlock`.
use cl_kmeans.Prelude.{ℕ, ◌+◌, ◌-◌, ◌≤◌, ◌<◌, List, [], ◌∷◌, pos, ◌≡◌, Gives}
use cl_kmeans.Cache.State.{Queue, BufferDesc, Event}
use cl_kmeans.Scheduler.State.{Waits, BufferCache}

-- A list of one buffer with `n` bytes of content, those from `offset` on.
abbrev pub Delivers : List BufferDesc → (offset n : ℕ) → Type 0
Delivers buffers offset n =
    (desc : BufferDesc) × (buffers ≡ desc ∷ [])
    × (desc.buffer_id ≡ offset)
    × (desc.content_length ≡ n)

-- `Inv` holds of the caches that behave; `get` and `unlock` keep it, whatever they answer.
pub record Contract (B : BufferCache) : Type 1 where
  pub Inv : B.State → Type 0
  -- `get` of a range of an object. It may fail, but where it does not, it delivers the range in
  -- one buffer, whose id is where the range begins in the object.
  pub get :
      (c : B.State) (queue : Queue) (oid begin end : ℕ) (event : Event) (wait_list : Waits)
      → Inv c
      → (B.object c oid).0 ≤ begin
      → begin < end
      → end ≤ (B.object c oid).0 + (B.object c oid).1
      → Gives
          (λ g.
            Inv g.cache
            × ((o : ℕ) → B.object g.cache o ≡ B.object c o)
            × ((n : ℕ)
                → g.code ≡ pos n
                → Delivers g.buffers (begin - (B.object c oid).0) (end - begin)))
          (B.get c queue oid begin end [] event wait_list)
  pub unlock :
      (c : B.State) (queue : Queue) (oid : ℕ) (buffers : List BufferDesc) (event : Event)
      (wait_list : Waits)
      → Inv c
      → Gives
          (λ u. Inv u.cache × ((o : ℕ) → B.object u.cache o ≡ B.object c o))
          (B.unlock c queue oid buffers event wait_list)

-- ===== src/Cache/Calls.antt =====
-- The calls of the cache as data, and histories of calls.
use cl_kmeans.Prelude.{
  ℕ, Bool, true, false, List, [], ◌∷◌, Option, some, ◌>>=◌, Ensures, Ensures-then,
}
use cl_kmeans.Cache.State.{ObjectMode, Device, Queue, BufferDesc, Event, WaitList, Cache}
use cl_kmeans.Cache.Setup.{add_device, add_object}
use cl_kmeans.Cache.Lock.{unlock}
use cl_kmeans.Cache.Transfer.{read, write_and_get, get}
use cl_kmeans.Cache.Protocol.{Effect}
use cl_kmeans.Cache.Effect.{get-Effect, write_and_get-Effect, read-Effect, unlock-Effect}

-- A call on a range of an object, or on its buffers.
pub data Access : Type 0 where
  gets writes : Queue → (oid begin end : ℕ) → List BufferDesc → Event → WaitList → Access
  reads : Queue → (oid begin end : ℕ) → Event → WaitList → Access
  unlocks : Queue → ℕ → List BufferDesc → Access

pub data Call : Type 0 where
  adds_device : Device → ℕ → Call
  adds_object : (data_object size : ℕ) → ObjectMode → Call
  accesses : Access → Call

abbrev pub is_unlock : Access → Bool
is_unlock (unlocks queue oid buffers) = true
is_unlock (gets queue oid begin end buffers event wait_list) = false
is_unlock (writes queue oid begin end buffers event wait_list) = false
is_unlock (reads queue oid begin end event wait_list) = false

-- The cache after a call; `none` is undefined behaviour.
unfoldable pub access : Cache → Access → Option Cache
access c (gets queue oid begin end buffers event wait_list) = do
  r ← get c queue oid begin end buffers event wait_list
  some r.cache
access c (writes queue oid begin end buffers event wait_list) = do
  r ← write_and_get c queue oid begin end buffers event wait_list
  some r.cache
access c (reads queue oid begin end event wait_list) = do
  r ← read c queue oid begin end event wait_list
  some r.2
access c (unlocks queue oid buffers) = do r ← unlock c queue oid buffers; some r.1

module _ (enqueue_map_buffer : ℕ → ℕ) where
  unfoldable pub call : Cache → Call → Option Cache
  unfolding access
  call c (adds_device device pool_size) = some (add_device enqueue_map_buffer c device pool_size).1
  call c (adds_object data_object size mode) = some (add_object c data_object size mode).1
  call c (accesses a) = access c a

  unfoldable pub run : Cache → List Call → Option Cache
  unfolding call
  run c [] = some c
  run c (x ∷ calls) = do c' ← call c x; run c' calls

-- Each access has one effect of the protocol.
pub access-Effect : (c : Cache) (a : Access) → Ensures (Effect (is_unlock a) c) (access c a)
unfolding access
access-Effect c (gets queue oid begin end buffers event wait_list) =
    Ensures-then (Effect false c) (λ r. r.cache) _
      (get-Effect c queue oid begin end buffers event wait_list)
access-Effect c (writes queue oid begin end buffers event wait_list) =
    Ensures-then (Effect false c) (λ r. r.cache) _
      (write_and_get-Effect c queue oid begin end buffers event wait_list)
access-Effect c (reads queue oid begin end event wait_list) =
    Ensures-then (Effect false c) (λ r. r.2) _ (read-Effect c queue oid begin end event wait_list)
access-Effect c (unlocks queue oid buffers) =
    Ensures-then (Effect true c) (λ r. r.1) _ (unlock-Effect c queue oid buffers)

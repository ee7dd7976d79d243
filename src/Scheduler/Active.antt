-- ===== src/Scheduler/Active.antt =====
-- `RState`: `activate_buffers` and `deactivate_buffers`.
use cl_kmeans.Prelude.{
  ℕ, ◌+◌, ◌*◌, ◌%◌, ◌^◌, [], ◌∷◌, ◌++◌, Option, none, some, ℤ, pos, negsuc, ltb, if◌then◌else◌,
  ◌>>=◌,
}
use cl_kmeans.Cache.State.{success, failure, add64}
use cl_kmeans.Scheduler.State.{Waits, Got, Unlocked, BufferCache, Progress, find, erase}

-- Where the part number `index` of an object begins and ends, in bytes from the object's begin.
unfoldable pub offset : (step index : ℕ) → ℕ
offset step index = (step * index) % 2 ^ 64

unfoldable pub end_offset : (object_size step index : ℕ) → ℕ
unfolding offset
end_offset object_size step index =
    if ltb (add64 (offset step index) step) object_size
    then add64 (offset step index) step
    else object_size

abbrev pub code_of : ℤ → ℤ
code_of (pos n) = success
code_of (negsuc n) = failure

module _ (B : BufferCache) where
  -- The state after `get`, whatever its code.
  unfoldable pub activated : Progress B.State → (object_id : ℕ) → Got B.State → Progress B.State
  activated p object_id g = record p {
    cache = g.cache;
    rstate = record p.rstate { active_buffers = (object_id, g.buffers) ∷ p.rstate.active_buffers };
    events = p.events ++ g.event ∷ [];
    last_event = g.event;
  }

  unfoldable pub activate_buffers :
      Progress B.State → (object_id step index : ℕ) → Waits → Option (ℤ × Progress B.State)
  unfolding activated
  activate_buffers p object_id step index wait_list =
      elim (find object_id p.rstate.active_buffers) [
        | some buffers ↦ some (success, p)
        | none ↦ do
          let (ptr, size) = B.object p.cache object_id
          g ←
              B.get p.cache p.rstate.queue object_id (ptr + offset step index)
                (ptr + end_offset size step index) [] none wait_list
          some (code_of g.code, activated p object_id g)
      ]

  -- The state after `unlock`: only a success erases the buffers.
  unfoldable pub deactivated :
      Progress B.State → (object_id : ℕ) → Unlocked B.State → Progress B.State
  deactivated p object_id u = record p {
    cache = u.cache;
    rstate = elim u.code [
      | negsuc _ ↦ p.rstate
      | pos _ ↦ record p.rstate { active_buffers = erase object_id p.rstate.active_buffers }
    ];
    events = p.events ++ u.event ∷ [];
    last_event = u.event;
  }

  unfoldable pub deactivate_buffers :
      Progress B.State → (object_id : ℕ) → Waits → Option (ℤ × Progress B.State)
  unfolding deactivated
  deactivate_buffers p object_id wait_list = elim (find object_id p.rstate.active_buffers) [
    | none ↦ some (success, p)
    | some buffers ↦ do
      u ← B.unlock p.cache p.rstate.queue object_id buffers none wait_list
      some (code_of u.code, deactivated p object_id u)
  ]

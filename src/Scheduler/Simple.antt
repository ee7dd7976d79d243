-- ===== src/Scheduler/Simple.antt =====
-- The scheduler on `SimpleBufferCache`: the cache keeps the contract that the scheduler relies on.
use mathlib.Core.Path.{subst₂}
use cl_kmeans.Prelude.{
  ℕ, Bool, true, false, ◌+◌, ◌-◌, ◌≤◌, ◌<◌, ◌^◌, List, [], some, ℤ, ◌≡◌, inl, inr, refl, ◌∙◌, ap,
  sym, arith, get_elem?, Option-cases, Gives, Gives-both, Gives-bind, ◌>>=◌,
}
use cl_kmeans.Cache.State.{Cache, ObjectInfo, Queue, BufferDesc, Event, WaitList, sub64}
use cl_kmeans.Cache.Setup.{object}
use cl_kmeans.Cache.Lock.{unlock}
use cl_kmeans.Cache.Transfer.{Reply, get}
use cl_kmeans.Cache.Lookup.{InRange}
use cl_kmeans.Cache.Protocol.{Effect}
use cl_kmeans.Cache.Effect.{get-Effect, unlock-Effect}
use cl_kmeans.Cache.Valid.{Contents, ReadsBefore, Effect-before, Effect-objects}
use cl_kmeans.Cache.Defined.{HasRoom, unlock-IsDefined}
use cl_kmeans.Cache.Total.{get-IsDefined}
use cl_kmeans.Cache.Contents.{Effect-Contents, Effect-HasRoom}
use cl_kmeans.Cache.Answers.{Answers, get-Answers}
use cl_kmeans.Scheduler.State.{Waits, Got, Unlocked, BufferCache, Scheduler}
use cl_kmeans.Scheduler.Contract.{Contract}

-- What the scheduler reads of a reply.
abbrev pub got : Reply → Got Cache
got r = record { code = r.code; buffers = r.buffers; event = r.event; cache = r.cache }

abbrev pub unlocked : Event → ℤ × Cache → Unlocked Cache
unlocked event r = record { code = r.0; event = event; cache = r.1 }

-- The interface of `SimpleBufferCache`. `events` is what OpenCL makes of a wait list in which
-- default events stand.
abbrev pub simple_cache : (events : Waits → WaitList) → BufferCache
simple_cache events = record {
  State = Cache;
  object = object;
  get = λ c queue oid begin end buffers event wait_list. do
    r ← get c queue oid begin end buffers event (events wait_list)
    some (got r);
  unlock = λ c queue oid buffers event wait_list. do
    r ← unlock c queue oid buffers
    some (unlocked event r);
}

-- The objects lie in the address space, and not at its begin.
pub record IsLocated (c : Cache) : Type 0 where
  pub placed :
      (oid : ℕ) (o : ObjectInfo)
      → 0 < oid
      → get_elem? c.object_info oid ≡ some o
      → (0 < o.ptr) × (o.ptr + o.size < 2 ^ 64)

-- A cache that behaves.
pub record Behaves (c : Cache) : Type 0 where
  pub contents : Contents c
  pub before : ReadsBefore c
  pub room : HasRoom c
  pub located : IsLocated c

object-some :
    (c : Cache) (oid : ℕ)
    → 0 < (object c oid).1
    → (o : ObjectInfo) × (get_elem? c.object_info oid ≡ some o)
      × (0 < oid)
      × ((object c oid).0 ≡ o.ptr)
      × ((object c oid).1 ≡ o.size)
unfolding object
object-some c oid h = elim (Option-cases (get_elem? c.object_info oid)) [
  | inl e ↦ absurd (ground arith)
  | inr (o, e) ↦ (o, e, ground arith, ground arith, ground arith)
]

-- A range of an object that the interface shows.
range_of :
    (c : Cache) (oid begin end : ℕ)
    → IsLocated c
    → (object c oid).0 ≤ begin
    → begin < end
    → end ≤ (object c oid).0 + (object c oid).1
    → (b : ℕ) × InRange c oid begin b × (end < 2 ^ 64) × (b ≡ begin - (object c oid).0)
range_of c oid begin end l p q r =
    let (o, found, valid, ptr, size) = object-some c oid (omega arith) in
    let (placed, fits) = l.placed oid o valid found in
    (
      sub64 begin o.ptr,
      record {
        object = o;
        found = found;
        valid = valid;
        not_null = omega (arith, ptr, p, placed);
        from = omega (arith, ptr, p);
        to = omega (arith, ptr, size, q, r);
        offset = refl;
      },
      omega (arith, ptr, size, r, fits),
      omega (arith, ptr, size, p, q, r, fits),
    )

Effect-Behaves : (u : Bool) (c c' : Cache) → Behaves c → Effect u c c' → Behaves c'
Effect-Behaves u c c' b e = record {
  contents = Effect-Contents u c c' b.contents e;
  before = (b.before.0, Effect-before u c c' e ∙ b.before.1);
  room = Effect-HasRoom u c c' b.room e;
  located = record {
    placed = λ oid o p found.
        b.located.placed oid o p
          (ap (λ os. get_elem? os oid) (sym (Effect-objects u c c' e)) ∙ found);
  };
}

-- An object as the interface shows it stays the same.
Effect-object : (u : Bool) (c c' : Cache) (oid : ℕ) → Effect u c c' → object c' oid ≡ object c oid
unfolding object
Effect-object u c c' oid e = rw (Effect-objects u c c' e) refl

-- What a `get` that returns leaves.
abbrev Served : Cache → (b n : ℕ) → Reply → Type 0
Served c b n r = Behaves r.cache × ((o : ℕ) → object r.cache o ≡ object c o) × Answers b n r

pub get-Served :
    (c : Cache) (queue : Queue) (oid begin end : ℕ) (event : Event) (wait_list : WaitList)
    → Behaves c
    → (object c oid).0 ≤ begin
    → begin < end
    → end ≤ (object c oid).0 + (object c oid).1
    → Gives
        (Served c (begin - (object c oid).0) (end - begin))
        (get c queue oid begin end [] event wait_list)
get-Served c queue oid begin end event wait_list b p q r =
    let (id, range, narrow, start) = range_of c oid begin end b.located p q r in
    let exact : sub64 end begin ≡ end - begin = omega arith in
    Gives-both (λ reply. Effect false c reply.cache) (Answers id (sub64 end begin))
      (Served c (begin - (object c oid).0) (end - begin))
      (get c queue oid begin end [] event wait_list)
      (λ reply e a. (
        Effect-Behaves false c reply.cache b e,
        (λ o. Effect-object false c reply.cache o e),
        subst₂ (λ b n. Answers b n reply) start exact a,
      ))
      (get-IsDefined c b.contents b.before b.room queue oid begin end [] event wait_list)
      (get-Effect c queue oid begin end [] event wait_list)
      (get-Answers c queue oid begin end [] event wait_list id range)

pub unlock-Served :
    (c : Cache) (queue : Queue) (oid : ℕ) (buffers : List BufferDesc)
    → Behaves c
    → Gives (λ r. Behaves r.1 × ((o : ℕ) → object r.1 o ≡ object c o)) (unlock c queue oid buffers)
unlock-Served c queue oid buffers b =
    Gives-both (λ r. Effect true c r.1) (λ r. Effect true c r.1) _ (unlock c queue oid buffers)
      (λ r e _. (Effect-Behaves true c r.1 b e, (λ o. Effect-object true c r.1 o e)))
      (unlock-IsDefined c queue oid buffers) (unlock-Effect c queue oid buffers)
      (unlock-Effect c queue oid buffers)

-- `SimpleBufferCache` keeps the contract.
abbrev pub simple_contract : (events : Waits → WaitList) → Contract (simple_cache events)
simple_contract events = record {
  Inv = Behaves;
  get = λ c queue oid begin end event wait_list b p q r.
      Gives-bind _ (Served c (begin - (object c oid).0) (end - begin))
        (get c queue oid begin end [] event (events wait_list)) _
        (get-Served c queue oid begin end event (events wait_list) b p q r) (λ reply s. s);
  unlock = λ c queue oid buffers event wait_list b.
      Gives-bind _ (λ r. Behaves r.1 × ((o : ℕ) → object r.1 o ≡ object c o))
        (unlock c queue oid buffers) _ (unlock-Served c queue oid buffers b) (λ r s. s);
}

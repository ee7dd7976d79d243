-- ===== src/Scheduler/Launches.antt =====
-- The loops over the runnables, on a cache that keeps its contract.
use cl_kmeans.Prelude.{
  ℕ, ◌<◌, List, [], ◌∷◌, ◌++◌, map, Option, some, ℤ, ◌≡◌, ◌⊎◌, inl, inr, refl, ◌∙◌, ap, Gives,
  Gives-bind, Gives-known, Gives-ℤ, Gives-option, ◌>>=◌, map-append,
}
use cl_kmeans.Cache.State.{success, failure, BufferDesc, Event}
use cl_kmeans.Scheduler.State.{
  Waits, BufferCache, RState, Progress, Arguments, unary, binary, Launch, Runnable,
}
use cl_kmeans.Scheduler.Runnables.{
  active_front, front, activate_runnable, launch, launched, run_runnable,
}
use cl_kmeans.Scheduler.Run.{Pass, activate_all, enter, unless_empty, set_events}
use cl_kmeans.Scheduler.Contract.{Contract}
use cl_kmeans.Scheduler.Activation.{
  AllFit, Steady, Fronts, IsActive, begin_of, length_of, Activated, AllActive, Activates,
  activate_lem,
}

-- What a runnable is beside its events.
abbrev pub Job : Type 0
Job = ℕ × Arguments × Option ℕ

abbrev pub job : Runnable → Job
job r = (r.kernel_function, r.arguments, r.datapoint)

-- What a kernel call processes: the function, and of each object where the bytes begin and how many
-- they are.
abbrev pub Call : Type 0
Call = ℕ × List ℕ × List ℕ

abbrev pub call : Launch → Call
call l = (l.kernel_function, l.buffer_ids, l.content_lengths)

module _ (B : BufferCache) (K : Contract B) (extent : ℕ → ℕ × ℕ) (step_of : ℕ → ℕ) (n : ℕ) where
  abbrev pub Ready : List Job → Type 0
  Ready [] = Unit
  Ready ((k, args, datapoint) ∷ jobs) =
      ((d : ℕ) × (datapoint ≡ some d)) × AllFit B K extent step_of n args × Ready jobs

  abbrev pub AllActives : List Job → RState → Type 0
  AllActives [] rs = Unit
  AllActives ((k, args, datapoint) ∷ jobs) rs =
      AllActive B K extent step_of n args rs × AllActives jobs rs

  -- The call of a job on part `index`.
  abbrev pub call_at : ℕ → Job → Call
  call_at index (k, unary oid step, datapoint) = (
    k,
    begin_of B K extent step_of n index oid ∷ [],
    length_of B K extent step_of n index oid ∷ [],
  )
  call_at index (k, binary oid oid' step step', datapoint) = (
    k,
    begin_of B K extent step_of n index oid ∷ begin_of B K extent step_of n index oid' ∷ [],
    length_of B K extent step_of n index oid ∷ length_of B K extent step_of n index oid' ∷ [],
  )

  AllActive-grows :
      (args : Arguments) (rs rs' : RState)
      → ((oid : ℕ) → IsActive B K extent step_of n oid rs → IsActive B K extent step_of n oid rs')
      → AllActive B K extent step_of n args rs
      → AllActive B K extent step_of n args rs'
  AllActive-grows (unary oid step) rs rs' f h = f oid h
  AllActive-grows (binary oid oid' step step') rs rs' f h = (f oid h.0, f oid' h.1)

  -- What the activation of all runnables leaves.
  pub record ActivatedAll (index : ℕ) (p : Progress B.State) (jobs : List Job) (pass : Pass B)
      : Type 0 where
    pub activated : Activated B K extent step_of n index p pass.progress
    pub active : AllActives jobs pass.progress.rstate

  pub record ActivatesAll (index : ℕ) (p : Progress B.State) (jobs : List Job) (pass : Pass B)
      : Type 0 where
    pub jobs_same : map job pass.run_queue ≡ jobs
    pub result : (pass.code ≡ failure) ⊎ ActivatedAll index p jobs pass

  activate_runnable_lem :
      (p : Progress B.State) (r : Runnable) (index : ℕ) (wait_list : Waits)
      → (d : ℕ) × (r.datapoint ≡ some d)
      → AllFit B K extent step_of n r.arguments
      → index < n
      → Steady B K extent step_of n p.cache
      → Fronts B K extent step_of n index p.rstate
      → Gives
          (Activates B K extent step_of n index p r.arguments)
          (activate_runnable B p r index wait_list)
  unfolding activate_runnable
  activate_runnable_lem p r index wait_list (d, e) fits l s f =
      Gives-option (Activates B K extent step_of n index p r.arguments) r.datapoint _ _
        (λ e'. absurd cc)
        (λ _ _. activate_lem B K extent step_of n p r.arguments index wait_list fits l s f)

  pub activate_all_lem :
      (p : Progress B.State) (rs : List Runnable) (index : ℕ) (wait_list : Waits)
      → Ready (map job rs)
      → index < n
      → Steady B K extent step_of n p.cache
      → Fronts B K extent step_of n index p.rstate
      → Gives (ActivatesAll index p (map job rs)) (activate_all B p rs index wait_list)
  unfolding activate_all
  activate_all_lem p [] index wait_list ready l s f = record {
    jobs_same = refl;
    result = inr (record {
      activated = record { steady = s; fronts = f; grows = λ _ a. a; launches = refl };
      active = tt;
    });
  }
  activate_all_lem p (r ∷ rs) index wait_list ready l s f =
      Gives-bind P (Activates B K extent step_of n index (enter B p r) r.arguments)
        (activate_runnable B (enter B p r) r index wait_list) _
        (activate_runnable_lem (enter B p r) r index wait_list ready.0 ready.1 l s f)
        λ q h.
          Gives-ℤ P q.0 _ _
            (λ k e. elim h [
              | inl e' ↦ absurd cc
              | inr (a, active) ↦
                  Gives-bind P (ActivatesAll index q.1 (map job rs))
                    (activate_all B q.1 rs index (unless_empty q.1.last_event wait_list)) _
                    (activate_all_lem q.1 rs index _ ready.2 l a.steady a.fronts)
                    (λ pass later. record {
                      jobs_same = ap (λ z. job r ∷ z) later.jobs_same;
                      result = elim later.result [
                        | inl e' ↦ inl e'
                        | inr b ↦ inr (both q.1 pass a active b)
                      ];
                    })
            ])
            (λ k e. record { jobs_same = refl; result = inl refl })
    where
      P : Pass B → Type 0
      P = ActivatesAll index p (map job (r ∷ rs))

      both :
          (q : Progress B.State) (pass : Pass B)
          → Activated B K extent step_of n index (enter B p r) q
          → AllActive B K extent step_of n r.arguments q.rstate
          → ActivatedAll index q (map job rs) pass
          → ActivatedAll index p
              (map job (r ∷ rs))
              (record pass { run_queue = set_events r q.events ∷ pass.run_queue })
      both q pass a active b = record {
        activated = record {
          steady = b.activated.steady;
          fronts = b.activated.fronts;
          grows = λ o x. b.activated.grows o (a.grows o x);
          launches = b.activated.launches ∙ a.launches;
        };
        active = (
          AllActive-grows r.arguments q.rstate pass.progress.rstate b.activated.grows active,
          b.active,
        );
      }

  -- What the call of a kernel leaves.
  pub record Launched (index : ℕ) (p : Progress B.State) (j : Job) (r : ℤ × Progress B.State)
      : Type 0 where
    pub code : r.0 ≡ success
    pub cache : r.1.cache ≡ p.cache
    pub rstate : r.1.rstate ≡ p.rstate
    pub launches : map call r.1.launches ≡ map call p.launches ++ call_at index j ∷ []

  module _ (kernel_event : List Launch → Launch → Event) where
    active_front_lem :
        (index oid : ℕ) (rs : RState)
        → Fronts B K extent step_of n index rs
        → IsActive B K extent step_of n oid rs
        → (desc : BufferDesc) × (active_front rs oid ≡ some desc)
          × (desc.buffer_id ≡ begin_of B K extent step_of n index oid)
          × (desc.content_length ≡ length_of B K extent step_of n index oid)
    unfolding active_front
    active_front_lem index oid rs f (buffers, found) =
        let (desc, one, at, long) = f oid buffers found in
        (desc, ap (λ o. o >>= front) found ∙ ap front one, at, long)

    launch_lem :
        (index : ℕ) (p : Progress B.State) (k : ℕ) (args : Arguments) (datapoint : Option ℕ)
        (wait_list : Waits)
        → Fronts B K extent step_of n index p.rstate
        → AllActive B K extent step_of n args p.rstate
        → Gives (Launched index p (k, args, datapoint)) (launch B kernel_event p k args wait_list)
    unfolding launch launched
    launch_lem index p k (unary oid step) datapoint wait_list f active =
        let (desc, e, at, long) = active_front_lem index oid p.rstate f active in
        Gives-known _ (active_front p.rstate oid) _ e (record {
          code = refl;
          cache = refl;
          rstate = refl;
          launches =
              map-append call p.launches _
              ∙ (λ j. map call p.launches ++ (k, at j ∷ [], long j ∷ []) ∷ []);
        })
    launch_lem index p k (binary oid oid' step step') datapoint wait_list f active =
        let (desc, e, at, long) = active_front_lem index oid p.rstate f active.0 in
        let (desc', e', at', long') = active_front_lem index oid' p.rstate f active.1 in
        Gives-known _ (active_front p.rstate oid) _ e (
          Gives-known _ (active_front p.rstate oid') _ e' (record {
            code = refl;
            cache = refl;
            rstate = refl;
            launches =
                map-append call p.launches _
                ∙ (λ j. map call p.launches ++ (k, at j ∷ at' j ∷ [], long j ∷ long' j ∷ []) ∷ []);
          }))

    pub run_runnable_lem :
        (index : ℕ) (p : Progress B.State) (r : Runnable) (wait_list : Waits) {d : ℕ}
        → r.datapoint ≡ some d
        → Fronts B K extent step_of n index p.rstate
        → AllActive B K extent step_of n r.arguments p.rstate
        → Gives (Launched index p (job r)) (run_runnable B kernel_event p r wait_list)
    unfolding run_runnable
    run_runnable_lem index p r wait_list e f active =
        Gives-option (Launched index p (job r)) r.datapoint _ _ (λ e'. absurd cc)
          (λ _ _. launch_lem index p r.kernel_function r.arguments r.datapoint wait_list f active)

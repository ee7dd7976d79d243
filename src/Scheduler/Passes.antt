-- ===== src/Scheduler/Passes.antt =====
-- The loops that run and deactivate the runnables, on a cache that keeps its contract.
use cl_kmeans.Prelude.{
  ℕ, Bool, List, [], ◌∷◌, ◌++◌, map, some, pos, ◌≡◌, refl, ◌∙◌, ap, sym, subst, if◌then◌else◌,
  append_assoc, append-nil, Gives, Gives-bind, Gives-ℤ, Gives-option,
}
use cl_kmeans.Cache.State.{success, Event}
use cl_kmeans.Scheduler.State.{Waits, BufferCache, Progress, Launch, Runnable, Scheduler}
use cl_kmeans.Scheduler.Runnables.{deactivate_runnable, run_runnable}
use cl_kmeans.Scheduler.Run.{Pass, deactivate_all, run_all, enter}
use cl_kmeans.Scheduler.Contract.{Contract}
use cl_kmeans.Scheduler.Activation.{Steady, Fronts, Deactivated, deactivate_lem}
use cl_kmeans.Scheduler.Launches.{
  job, Job, call, call_at, Ready, AllActives, Launched, run_runnable_lem,
}

module _ (B : BufferCache) (K : Contract B) (extent : ℕ → ℕ × ℕ) (step_of : ℕ → ℕ) (n : ℕ) where
  deactivate_runnable_lem :
      (p : Progress B.State) (r : Runnable) (wait_list : Waits)
      → (d : ℕ) × (r.datapoint ≡ some d)
      → Steady B K extent step_of n p.cache
      → Gives (Deactivated B K extent step_of n p) (deactivate_runnable B p r wait_list)
  unfolding deactivate_runnable
  deactivate_runnable_lem p r wait_list (d, e) s =
      Gives-option (Deactivated B K extent step_of n p) r.datapoint _ _ (λ e'. absurd cc)
        (λ _ _. deactivate_lem B K extent step_of n p r.arguments wait_list s)

  -- What the deactivation of all runnables leaves, whatever its code.
  pub record DeactivatesAll (p : Progress B.State) (jobs : List Job) (pass : Pass B) : Type 0 where
    pub jobs_same : map job pass.run_queue ≡ jobs
    pub steady : Steady B K extent step_of n pass.progress.cache
    pub launches : pass.progress.launches ≡ p.launches

  pub deactivate_all_lem :
      (checked : Bool) (p : Progress B.State) (rs : List Runnable) (wait_list : Waits)
      → Ready B K extent step_of n (map job rs)
      → Steady B K extent step_of n p.cache
      → Gives (DeactivatesAll p (map job rs)) (deactivate_all B checked p rs wait_list)
  unfolding deactivate_all
  deactivate_all_lem checked p [] wait_list ready s = record {
    jobs_same = refl;
    steady = s;
    launches = refl;
  }
  deactivate_all_lem checked p (r ∷ rs) wait_list ready s =
      Gives-bind P (Deactivated B K extent step_of n (enter B p r))
        (deactivate_runnable B (enter B p r) r wait_list) _
        (deactivate_runnable_lem (enter B p r) r wait_list ready.0 s)
        λ q d.
          Gives-ℤ P (if checked then q.0 else pos 0) _ _
            (λ k e.
              Gives-bind P (DeactivatesAll q.1 (map job rs))
                (deactivate_all B checked q.1 rs (q.1.last_event ∷ [])) _
                (deactivate_all_lem checked q.1 rs (q.1.last_event ∷ []) ready.2 d.steady)
                λ pass later. record {
                  jobs_same = ap (λ z. job r ∷ z) later.jobs_same;
                  steady = later.steady;
                  launches = later.launches ∙ d.launches;
                })
            (λ k e. record { jobs_same = refl; steady = d.steady; launches = d.launches })
    where
      P : Pass B → Type 0
      P = DeactivatesAll p (map job (r ∷ rs))

  -- What running all runnables leaves.
  pub record LaunchedAll (index : ℕ) (p : Progress B.State) (jobs : List Job) (pass : Pass B)
      : Type 0 where
    pub jobs_same : map job pass.run_queue ≡ jobs
    pub code : pass.code ≡ success
    pub cache : pass.progress.cache ≡ p.cache
    pub launches :
        map call pass.progress.launches
        ≡ map call p.launches ++ map (call_at B K extent step_of n index) jobs

  module _ (s : Scheduler) (kernel_event : List Launch → Launch → Event) where
    pub run_all_lem :
        (index : ℕ) (p : Progress B.State) (rs : List Runnable) (wait_list : Waits)
        → Ready B K extent step_of n (map job rs)
        → Fronts B K extent step_of n index p.rstate
        → AllActives B K extent step_of n (map job rs) p.rstate
        → Gives (LaunchedAll index p (map job rs)) (run_all B s kernel_event p rs wait_list)
    unfolding run_all
    run_all_lem index p [] wait_list ready f active = record {
      jobs_same = refl;
      code = refl;
      cache = refl;
      launches = sym (append-nil (map call p.launches));
    }
    run_all_lem index p (r ∷ rs) wait_list ready f active =
        Gives-bind P (Launched B K extent step_of n index (enter B p r) (job r))
          (run_runnable B kernel_event (enter B p r) r wait_list) _
          (run_runnable_lem B K extent step_of n kernel_event index (enter B p r) r wait_list
            ready.0.1 f active.0)
          λ q done.
            Gives-ℤ P q.0 _ _
              (λ k e.
                Gives-bind P (LaunchedAll index q.1 (map job rs))
                  (run_all B s kernel_event q.1 rs (q.1.last_event ∷ [])) _
                  (run_all_lem index q.1 rs (q.1.last_event ∷ []) ready.2
                    (subst (Fronts B K extent step_of n index) (sym done.rstate) f)
                    (subst (AllActives B K extent step_of n (map job rs)) (sym done.rstate)
                      active.1))
                  λ pass later. record {
                    jobs_same = ap (λ z. job r ∷ z) later.jobs_same;
                    code = later.code;
                    cache = later.cache ∙ done.cache;
                    launches =
                        later.launches
                        ∙ ap (λ z. z ++ map (call_at B K extent step_of n index) (map job rs))
                            done.launches
                        ∙ append_assoc (map call p.launches) _ _;
                  })
              (λ k e. absurd cc)
      where
        P : Pass B → Type 0
        P = LaunchedAll index p (map job (r ∷ rs))

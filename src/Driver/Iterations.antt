-- ===== src/Driver/Iterations.antt =====
-- The iterations of the buffered three-stage driver on a cache that keeps the contract.
use cl_kmeans.Prelude.{ℕ, zero, suc, ◌+◌, ◌%◌, ◌^◌, List, [], ◌∷◌, ◌++◌, some, ◌≡◌, ◌⊎◌}
use cl_kmeans.Cache.State.{Event, Queue}
use cl_kmeans.Scheduler.State.{BufferCache, Launch, Scheduler, Arguments, Runnable, unary}
use cl_kmeans.Scheduler.Run
use cl_kmeans.Scheduler.Contract.{Contract}
use cl_kmeans.Scheduler.Activation.{Steady}
use cl_kmeans.Scheduler.Launches.{Call, Ready}
use cl_kmeans.Driver.Buffered.{
  labeling, mass_update, centroid_update, Settings, Step, fills_masses, fills_centroids, processes,
  divides, swaps, Ending, aborted, completed, Drive, both,
}
use cl_kmeans.Driver.Calls.{Sized}
use cl_kmeans.Driver.Calls

-- The steps of `k` iterations that call the functions alike.
pub all_steps : (k : ℕ) → List Call → List Step
all_steps zero calls = []
all_steps (suc k) calls =
    (fills_masses ∷ fills_centroids ∷ processes calls ∷ divides ∷ swaps ∷ []) ++ all_steps k calls

module _ (s : Settings) (extent : ℕ → ℕ × ℕ) (num_labels n : ℕ)
    (sized : Sized s extent num_labels n) (B : BufferCache) (K : Contract B)
    (kernel_event : List Launch → Launch → Event) (fst_queue snd_queue : Queue) where
  abbrev calls : List Call
  calls = Calls.calls s extent num_labels n sized

  abbrev step : ℕ
  step = Calls.step s extent num_labels n sized

  abbrev step_of : ℕ → ℕ
  step_of = Calls.step_of s extent num_labels n sized

  abbrev jobs_Ready :
      (d : ℕ) → Ready B K extent step_of n (Calls.jobs s extent num_labels n sized d)
  jobs_Ready = Calls.jobs_Ready s extent num_labels n sized B K

  abbrev pub idle : Scheduler
  idle = record { fst_queue = fst_queue; snd_queue = snd_queue; run_queue = [] }

  -- After an iteration from `d`.
  record Next (d d' : Drive B kernel_event) : Type 0 where
    scheduler : d'.scheduler ≡ idle
    steady : Steady B K extent step_of n d'.cache
    steps :
        d'.steps
        ≡ d.steps ++ (fills_masses ∷ fills_centroids ∷ processes calls ∷ divides ∷ swaps ∷ [])
    iterations : d'.iterations ≡ (d.iterations + 1) % 2 ^ 32

  abbrev Nexts : Drive B kernel_event → Ending (Drive B kernel_event) → Type 0
  Nexts d r = (r ≡ aborted) ⊎ ((d' : Drive B kernel_event) × (r ≡ completed d') × Next d d')

  abbrev fresh : ℕ → Arguments → ℕ → Runnable
  fresh kernel_function arguments datapoint = record {
    kernel_function = kernel_function;
    arguments = arguments;
    events = [];
    datapoint = some datapoint;
  }

  -- The scheduler with the functions of one iteration.
  abbrev queued : (d : ℕ) → Scheduler
  queued d = record idle {
    run_queue =
        fresh labeling (both B kernel_event s) d
        ∷ fresh mass_update (unary s.labels_handle step) (d + 1)
        ∷ fresh centroid_update (both B kernel_event s) (d + 2)
        ∷ [];
  }

  -- After `k` iterations from `d`.
  pub record After (k : ℕ) (d d' : Drive B kernel_event) : Type 0 where
    pub scheduler : d'.scheduler ≡ idle
    pub steady : Steady B K extent step_of n d'.cache
    pub steps : d'.steps ≡ d.steps ++ all_steps k calls
    pub iterations : d'.iterations ≡ d.iterations + k

  abbrev pub Afters : ℕ → Drive B kernel_event → Ending (Drive B kernel_event) → Type 0
  Afters k d r = (r ≡ aborted) ⊎ ((d' : Drive B kernel_event) × (r ≡ completed d') × After k d d')

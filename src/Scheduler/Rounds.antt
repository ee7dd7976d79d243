-- ===== src/Scheduler/Rounds.antt =====
-- `run` on a cache that keeps its contract.
use cl_kmeans.Prelude.{
  ℕ, zero, suc, ◌+◌, ◌≤◌, ◌<◌, true, false, List, [], ◌∷◌, ◌++◌, map, none, some, ℤ, negsuc, ◌≡◌,
  ◌⊎◌, inl, inr, refl, ◌∙◌, ap, sym, subst, arith, length, leb, append_assoc, append-nil, Gives,
  Gives-bind, Gives-ℤ, Gives-if, Gives-map,
}
use cl_kmeans.Cache.State.{Event, BufferDesc}
use cl_kmeans.Scheduler.State.{Waits, Progress, find, BufferCache, RState, Launch, Scheduler}
use cl_kmeans.Scheduler.Run.{
  Pass, Loop, begin_pass, end_pass, deactivate_all, make_room, activate_all, run_active, run_all,
  insert_unless_empty, activate_round, round, rounds, drain, queue_at,
}
use cl_kmeans.Scheduler.Contract.{Contract}
use cl_kmeans.Scheduler.Activation.{Steady}
use cl_kmeans.Scheduler.Launches.{
  job, Job, Call, call, call_at, Ready, AllActives, ActivatedAll, ActivatesAll, activate_all_lem,
}
use cl_kmeans.Scheduler.Passes.{DeactivatesAll, deactivate_all_lem, LaunchedAll, run_all_lem}

find_nothing : (oid : ℕ) {buffers : List BufferDesc} → find oid [] ≡ some buffers → ⊥
unfolding find
find_nothing oid e = cc

module _ (B : BufferCache) (K : Contract B) (extent : ℕ → ℕ × ℕ) (step_of : ℕ → ℕ) (n : ℕ)
    (jobs : List Job) (ready : Ready B K extent step_of n jobs) where
  abbrev pub Failed : ℤ → Type 0
  Failed code = (k : ℕ) × (code ≡ negsuc k)

  -- The calls of `m` rounds from part `index` on.
  abbrev pub expected : (index m : ℕ) → List Call
  expected index zero = []
  expected index (suc m) = map (call_at B K extent step_of n index) jobs ++ expected (suc index) m

  -- What every round keeps.
  pub record Running (l : Loop B) : Type 0 where
    pub jobs_same : map job l.run_queue ≡ jobs
    pub steady : Steady B K extent step_of n l.cache

  still_ready : (l : Loop B) → Running l → Ready B K extent step_of n (map job l.run_queue)
  still_ready l inv = subst (Ready B K extent step_of n) (sym inv.jobs_same) ready

  -- What `make_room` leaves.
  pub record Roomy (l : Loop B) (r : Event × Loop B) : Type 0 where
    pub running : Running r.1
    pub launches : r.1.launches ≡ l.launches

  make_room_lem :
      (l : Loop B) (rss : List RState)
      → Running l
      → Gives (Roomy l) (make_room B (record l { active_rstates = rss }))
  unfolding make_room
  make_room_lem l [] inv = record {
    running = record { jobs_same = inv.jobs_same; steady = inv.steady };
    launches = refl;
  }
  make_room_lem l (rs ∷ rest) inv =
      Gives-if (Roomy l) (leb 2 (length (rs ∷ rest))) _ _
        (λ _.
          Gives-bind (Roomy l) (DeactivatesAll B K extent step_of n p (map job l.run_queue))
            (deactivate_all B false p l.run_queue (rs.last_event ∷ [])) _
            (deactivate_all_lem B K extent step_of n false p l.run_queue (rs.last_event ∷ [])
              (still_ready l inv) inv.steady)
            λ pass d. record {
              running = record { jobs_same = d.jobs_same ∙ inv.jobs_same; steady = d.steady };
              launches = d.launches;
            })
        (λ _. record {
          running = record { jobs_same = inv.jobs_same; steady = inv.steady };
          launches = refl;
        })
    where
      p : Progress B.State
      p = begin_pass B l rs none

  -- What `m` rounds from part `index` on may leave.
  abbrev pub Ran : Loop B → (index m : ℕ) → Loop B → Type 0
  Ran l index m l' =
      Failed l'.code
      ⊎ (Running l' × (map call l'.launches ≡ map call l.launches ++ expected index m))

  module _ (s : Scheduler) (kernel_event : List Launch → Launch → Event) where
    run_active_lem :
        (l : Loop B) (index : ℕ) (p0 : Progress B.State) (pass : Pass B)
        → p0.launches ≡ l.launches
        → map job pass.run_queue ≡ jobs
        → ActivatedAll B K extent step_of n index p0 jobs pass
        → Gives (Ran l index 1) (run_active B s kernel_event l pass)
    unfolding run_active
    run_active_lem l index p0 pass e same a =
        Gives-bind (Ran l index 1)
          (LaunchedAll B K extent step_of n index p (map job pass.run_queue))
          (run_all B s kernel_event p pass.run_queue waits) _
          (run_all_lem B K extent step_of n s kernel_event index p pass.run_queue waits
            (subst (Ready B K extent step_of n) (sym same) ready) a.activated.fronts
            (subst (λ z. AllActives B K extent step_of n z pass.progress.rstate) (sym same)
              a.active))
          λ pass' done. inr (
            record {
              jobs_same = done.jobs_same ∙ same;
              steady = subst (Steady B K extent step_of n) (sym done.cache) a.activated.steady;
            },
            done.launches
                ∙ ap
                    (λ z.
                      map call pass.progress.launches ++ map (call_at B K extent step_of n index) z)
                    same
                ∙ ap (λ z. map call z ++ map (call_at B K extent step_of n index) jobs)
                    (a.activated.launches ∙ e)
                ∙ ap (λ z. map call l.launches ++ z)
                    (sym (append-nil (map (call_at B K extent step_of n index) jobs))),
          )
      where
        p : Progress B.State
        p = begin_pass B (end_pass B l pass) pass.progress.rstate none

        waits : Waits
        waits = insert_unless_empty pass.wait_list l.trans_loop_run_event

    activate_round_lem :
        (l : Loop B) (index : ℕ) (event : Event)
        → index < n
        → Running l
        → Gives (Ran l index 1) (activate_round B s kernel_event index event l)
    unfolding activate_round
    activate_round_lem l index event less inv =
        Gives-bind (Ran l index 1) (ActivatesAll B K extent step_of n index p (map job l.run_queue))
          (activate_all B p l.run_queue index waits) _
          (activate_all_lem B K extent step_of n p l.run_queue index waits (still_ready l inv) less
            inv.steady (λ oid buffers e. absurd (find_nothing oid e)))
          λ pass a.
            Gives-ℤ (Ran l index 1) pass.code _ _
              (λ k e. elim a.result [
                | inl e' ↦ absurd cc
                | inr b ↦
                    run_active_lem l index p pass refl (a.jobs_same ∙ inv.jobs_same) (
                      subst (λ z. ActivatedAll B K extent step_of n index p z pass) inv.jobs_same b)
              ])
              (λ k e. inl (k, e))
      where
        rs : RState
        rs = record {
          queue = queue_at B s kernel_event l.current_queue;
          last_event = none;
          active_buffers = [];
        }

        p : Progress B.State
        p = begin_pass B l rs none

        waits : Waits
        waits = insert_unless_empty [] event

    round_lem :
        (l : Loop B) (index : ℕ)
        → index < n
        → Running l
        → Gives (Ran l index 1) (round B s kernel_event index l)
    unfolding round
    round_lem l index less inv =
        Gives-bind (Ran l index 1) (Roomy l) (make_room B l) _
          (make_room_lem l l.active_rstates inv)
          λ r roomy.
            subst
              (λ z.
                Gives
                  (λ l'.
                    Failed l'.code
                    ⊎ (Running l' × (map call l'.launches ≡ map call z ++ expected index 1)))
                  (activate_round B s kernel_event index r.0 r.1))
              roomy.launches (activate_round_lem r.1 index r.0 less roomy.running)

    pub rounds_lem :
        (index m : ℕ) (l : Loop B)
        → index + m ≤ n
        → Running l
        → Gives (Ran l index m) (rounds B s kernel_event index m l)
    unfolding rounds
    rounds_lem index zero l less inv = inr (inv, sym (append-nil (map call l.launches)))
    rounds_lem index (suc m) l less inv =
        Gives-bind (Ran l index (suc m)) (Ran l index 1) (round B s kernel_event index l) _
          (round_lem l index (omega arith) inv)
          λ l1 h.
            Gives-ℤ (Ran l index (suc m)) l1.code _ _
              (λ k e. elim h [
                | inl (k', e') ↦ absurd cc
                | inr (inv', one) ↦
                    Gives-map (Ran l1 (suc index) m) (Ran l index (suc m))
                      (λ l'. elim [
                        | inl x ↦ inl x
                        | inr (inv2, later) ↦ inr (
                          inv2,
                          later
                              ∙ (ap (λ z. z ++ expected (suc index) m)
                                    (one
                                      ∙ ap (λ z. map call l.launches ++ z)
                                          (append-nil
                                            (map (call_at B K extent step_of n index) jobs)))
                                  ∙ append_assoc (map call l.launches) _ _),
                        )
                      ])
                      (rounds B s kernel_event (suc index) m l1)
                      (rounds_lem (suc index) m l1 (omega arith) inv')
              ])
              (λ k e. inl (k, e))

  -- What `drain` leaves: an error, or the calls as they were and a cache that behaves.
  abbrev pub Drained : Loop B → Loop B → Type 0
  Drained l l' =
      Failed l'.code ⊎ ((l'.launches ≡ l.launches) × Steady B K extent step_of n l'.cache)

  pub drain_lem : (rss : List RState) (l : Loop B) → Running l → Gives (Drained l) (drain B rss l)
  unfolding drain
  drain_lem [] l inv = inr (refl, inv.steady)
  drain_lem (rs ∷ rest) l inv =
      Gives-bind P (DeactivatesAll B K extent step_of n p (map job l.run_queue))
        (deactivate_all B true p l.run_queue (rs.last_event ∷ [])) _
        (deactivate_all_lem B K extent step_of n true p l.run_queue (rs.last_event ∷ [])
          (still_ready l inv) inv.steady)
        λ pass d.
          Gives-ℤ P pass.code _ _
            (λ k e.
              Gives-map (Drained (end_pass B l pass)) P
                (λ l'. elim [ inl x ↦ inl x | inr (x, y) ↦ inr (x ∙ d.launches, y) ])
                (drain B rest (end_pass B l pass))
                (drain_lem rest (end_pass B l pass)
                  (record { jobs_same = d.jobs_same ∙ inv.jobs_same; steady = d.steady })))
            (λ k e. inl (k, e))
    where
      p : Progress B.State
      p = begin_pass B l rs none

      P : Loop B → Type 0
      P = Drained l

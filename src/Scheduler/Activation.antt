-- ===== src/Scheduler/Activation.antt =====
-- `activate_buffers` and `deactivate_buffers` on a cache that keeps its contract.
use cl_kmeans.Prelude.{
  ℕ, ◌+◌, ◌-◌, ◌*◌, ◌≤◌, ◌<◌, List, [], ◌∷◌, none, some, ℤ, pos, negsuc, ◌≡◌, ◌⊎◌, inl, inr, refl,
  arith, ◌∙◌, ap, sym, subst, Bool-cases, ◌==◌, ℤ-cases, Gives, Gives-map, Gives-bind, Gives-option,
}
use cl_kmeans.Cache.State.{failure, BufferDesc, Event}
use cl_kmeans.Scheduler.State.{
  Waits, Got, BufferCache, RState, Progress, Arguments, unary, binary, find,
}
use cl_kmeans.Scheduler.Active.{
  offset, end_offset, code_of, activated, activate_buffers, deactivated, deactivate_buffers,
}
use cl_kmeans.Scheduler.Runnables.{num_steps, activate_snd, activate, deactivate_snd, deactivate}
use cl_kmeans.Scheduler.Parts.{IsCut, part_length, part_bounds}
use cl_kmeans.Scheduler.Contract.{Delivers, Contract}

find-head :
    (oid : ℕ) (b : List BufferDesc) (active : List (ℕ × List BufferDesc))
    → find oid ((oid, b) ∷ active) ≡ some b
unfolding find
find-head oid b active = ground arith

find-cases :
    (o oid : ℕ) (b buffers : List BufferDesc) (active : List (ℕ × List BufferDesc))
    → find o ((oid, b) ∷ active) ≡ some buffers
    → ((oid ≡ o) × (b ≡ buffers)) ⊎ (find o active ≡ some buffers)
unfolding find
find-cases o oid b buffers active e = elim (Bool-cases (oid == o)) [
  | inl h ↦ inl (ground arith)
  | inr h ↦ inr (ground arith)
]

find-grows :
    (o oid : ℕ) (b : List BufferDesc) (active : List (ℕ × List BufferDesc))
    {buffers : List BufferDesc}
    → find o active ≡ some buffers
    → (found : List BufferDesc) × (find o ((oid, b) ∷ active) ≡ some found)
unfolding find
find-grows o oid b active {buffers} e = elim (Bool-cases (oid == o)) [
  | inl h ↦ (b, ground arith)
  | inr h ↦ (buffers, ground arith)
]

-- The objects' addresses and lengths, the step of each object, and the number of parts.
module _ (B : BufferCache) (K : Contract B) (extent : ℕ → ℕ × ℕ) (step_of : ℕ → ℕ) (n : ℕ) where
  -- An object that is cut into `n` parts of `step` bytes.
  pub record Fits (oid step : ℕ) : Type 0 where
    pub agrees : step ≡ step_of oid
    pub cut : IsCut (extent oid).1 step
    pub parts : num_steps (extent oid).1 step ≡ some n

  abbrev pub AllFit : Arguments → Type 0
  AllFit (unary object_id step) = Fits object_id step
  AllFit (binary fst_object_id snd_object_id fst_step snd_step) =
      Fits fst_object_id fst_step × Fits snd_object_id snd_step

  pub record Steady (c : B.State) : Type 0 where
    pub inv : K.Inv c
    pub objects : (oid : ℕ) → B.object c oid ≡ extent oid

  -- The length of part `index` of an object.
  abbrev pub length_of : (index oid : ℕ) → ℕ
  length_of index oid = part_length (extent oid).1 (step_of oid) index

  -- Where part `index` begins in an object.
  abbrev pub begin_of : (index oid : ℕ) → ℕ
  begin_of index oid = step_of oid * index

  -- The buffers that are active are those of part `index`.
  abbrev pub Fronts : ℕ → RState → Type 0
  Fronts index rs =
      (oid : ℕ) (buffers : List BufferDesc)
      → find oid rs.active_buffers ≡ some buffers
      → Delivers buffers (begin_of index oid) (length_of index oid)

  abbrev pub IsActive : ℕ → RState → Type 0
  IsActive oid rs = (buffers : List BufferDesc) × (find oid rs.active_buffers ≡ some buffers)

  -- What a success of an activation leaves.
  pub record Activated (index : ℕ) (p p' : Progress B.State) : Type 0 where
    pub steady : Steady p'.cache
    pub fronts : Fronts index p'.rstate
    pub grows : (oid : ℕ) → IsActive oid p.rstate → IsActive oid p'.rstate
    pub launches : p'.launches ≡ p.launches

  got-Activated :
      (p : Progress B.State) (index oid : ℕ) (g : Got B.State)
      → Fronts index p.rstate
      → Steady g.cache
      → Delivers g.buffers (begin_of index oid) (length_of index oid)
      → Activated index p (activated B p oid g) × IsActive oid (activated B p oid g).rstate
  unfolding activated
  got-Activated p index oid g f s d = (
    record {
      steady = s;
      fronts = λ o buffers e. elim (find-cases o oid g.buffers buffers p.rstate.active_buffers e) [
        | inl (same, e') ↦
            subst (λ z. Delivers buffers (begin_of index z) (length_of index z)) same
              (subst (λ z. Delivers z (begin_of index oid) (length_of index oid)) e' d)
        | inr e' ↦ f o buffers e'
      ];
      grows = λ o a. find-grows o oid g.buffers p.rstate.active_buffers a.1;
      launches = refl;
    },
    (g.buffers, find-head oid g.buffers p.rstate.active_buffers),
  )

  activate_buffers_lem :
      (p : Progress B.State) (oid step index : ℕ) (wait_list : Waits)
      → Fits oid step
      → index < n
      → Steady p.cache
      → Fronts index p.rstate
      → Gives
          (λ r. (r.0 ≡ failure) ⊎ (Activated index p r.1 × IsActive oid r.1.rstate))
          (activate_buffers B p oid step index wait_list)
  unfolding activate_buffers activated
  activate_buffers_lem p oid step index wait_list fits l s f =
      Gives-option P (find oid p.rstate.active_buffers) _ _
        (λ _.
          Gives-bind P _
            (B.get p.cache p.rstate.queue oid (address + offset step index)
              (address + end_offset size step index) [] none wait_list)
            _
            (K.get p.cache p.rstate.queue oid _ _ none wait_list s.inv (omega arith)
              (omega (arith, bounds.0, bounds.1, bounds.3)) (ground (arith, bounds.1, bounds.2)))
            λ g answer. elim (ℤ-cases g.code) [
              | inl (k, e) ↦ inr (
                  let (desc, one, at, long) = answer.2 k e in
                  got-Activated p index oid g f
                    (record { inv = answer.0; objects = λ o. answer.1 o ∙ s.objects o })
                    (desc, one, at ∙ part_begin, long ∙ part))
              | inr (k, e) ↦ inl (ap code_of e)
            ])
        (λ buffers e.
          inr (record { steady = s; fronts = f; grows = λ _ a. a; launches = refl }, (buffers, e)))
    where
      P : ℤ × Progress B.State → Type 0
      P r = (r.0 ≡ failure) ⊎ (Activated index p r.1 × IsActive oid r.1.rstate)

      address : ℕ
      address = (B.object p.cache oid).0

      size : ℕ
      size = (B.object p.cache oid).1

      same : size ≡ (extent oid).1
      same = ap (λ z. z.1) (s.objects oid)

      bounds :
          (offset step index ≡ step * index)
          × (end_offset size step index ≡ step * index + part_length size step index)
          × (step * index < size)
          × (0 < part_length size step index)
          × (part_length size step index ≤ step)
      bounds =
          part_bounds size step (subst (λ z. IsCut z step) (sym same) fits.cut) n index
            (subst (λ z. num_steps z step ≡ some n) (sym same) fits.parts) l

      part :
          (address + end_offset size step index) - (address + offset step index)
          ≡ length_of index oid
      part =
          omega (arith, bounds.0, bounds.1)
          ∙ ap (λ z. part_length z step index) same
          ∙ ap (λ z. part_length (extent oid).1 z index) fits.agrees

      part_begin : (address + offset step index) - address ≡ begin_of index oid
      part_begin = omega (arith, bounds.0) ∙ ap (λ z. z * index) fits.agrees

  -- The objects of a runnable are active.
  abbrev pub AllActive : Arguments → RState → Type 0
  AllActive (unary object_id step) rs = IsActive object_id rs
  AllActive (binary fst_object_id snd_object_id fst_step snd_step) rs =
      IsActive fst_object_id rs × IsActive snd_object_id rs

  -- What an activation of one object may leave.
  abbrev pub ActivatesOne : ℕ → Progress B.State → ℕ → ℤ × Progress B.State → Type 0
  ActivatesOne index p oid r = (r.0 ≡ failure) ⊎ (Activated index p r.1 × IsActive oid r.1.rstate)

  -- And of all objects of a runnable.
  abbrev pub Activates : ℕ → Progress B.State → Arguments → ℤ × Progress B.State → Type 0
  Activates index p args r = (r.0 ≡ failure) ⊎ (Activated index p r.1 × AllActive args r.1.rstate)

  activate_snd_lem :
      (p : Progress B.State) (oid oid' step step' index : ℕ) (event : Event)
      → Fits oid' step'
      → index < n
      → (r : ℤ × Progress B.State) → ActivatesOne index p oid r
      → Gives
          (Activates index p (binary oid oid' step step'))
          (activate_snd B oid' step' index event r)
  unfolding activate_snd
  activate_snd_lem p oid oid' step step' index event fits l (negsuc k, p1) h = inl refl
  activate_snd_lem p oid oid' step step' index event fits l (pos k, p1) (inl e) = absurd cc
  activate_snd_lem p oid oid' step step' index event fits l (pos k, p1) (inr (a, active)) =
      Gives-map (ActivatesOne index p2 oid') (Activates index p (binary oid oid' step step')) both
        (activate_buffers B p2 oid' step' index (p1.last_event ∷ []))
        (activate_buffers_lem p2 oid' step' index (p1.last_event ∷ []) fits l a.steady a.fronts)
    where
      p2 : Progress B.State
      p2 = record p1 { last_event = event }

      both :
          (r : ℤ × Progress B.State)
          → ActivatesOne index p2 oid' r
          → Activates index p (binary oid oid' step step') r
      both r (inl e) = inl e
      both r (inr (b, active')) = inr (
        record {
          steady = b.steady;
          fronts = b.fronts;
          grows = λ o x. b.grows o (a.grows o x);
          launches = b.launches ∙ a.launches;
        },
        (b.grows oid active, active'),
      )

  pub activate_lem :
      (p : Progress B.State) (args : Arguments) (index : ℕ) (wait_list : Waits)
      → AllFit args
      → index < n
      → Steady p.cache
      → Fronts index p.rstate
      → Gives (Activates index p args) (activate B p args index wait_list)
  unfolding activate
  activate_lem p (unary oid step) index wait_list fits l s f =
      activate_buffers_lem p oid step index wait_list fits l s f
  activate_lem p (binary oid oid' step step') index wait_list fits l s f =
      Gives-bind (Activates index p (binary oid oid' step step')) (ActivatesOne index p0 oid)
        (activate_buffers B p0 oid step index wait_list) _
        (activate_buffers_lem p0 oid step index wait_list fits.0 l s f)
        λ r h. activate_snd_lem p oid oid' step step' index p.last_event fits.1 l r (elim h [
          | inl e ↦ inl e
          | inr (a, active) ↦ inr (
            record { steady = a.steady; fronts = a.fronts; grows = a.grows; launches = a.launches },
            active,
          )
        ])
    where
      p0 : Progress B.State
      p0 = record p { last_event = none }

  -- What a deactivation leaves, whatever its code.
  pub record Deactivated (p : Progress B.State) (r : ℤ × Progress B.State) : Type 0 where
    pub steady : Steady r.1.cache
    pub launches : r.1.launches ≡ p.launches

  deactivate_buffers_lem :
      (p : Progress B.State) (oid : ℕ) (wait_list : Waits)
      → Steady p.cache
      → Gives (Deactivated p) (deactivate_buffers B p oid wait_list)
  unfolding deactivate_buffers deactivated
  deactivate_buffers_lem p oid wait_list s =
      Gives-option (Deactivated p) (find oid p.rstate.active_buffers) _ _
        (λ _. record { steady = s; launches = refl })
        (λ buffers _.
          Gives-bind (Deactivated p) _ (B.unlock p.cache p.rstate.queue oid buffers none wait_list)
            _ (K.unlock p.cache p.rstate.queue oid buffers none wait_list s.inv)
            λ u kept. record {
              steady = record { inv = kept.0; objects = λ o. kept.1 o ∙ s.objects o };
              launches = refl;
            })

  pub deactivate_lem :
      (p : Progress B.State) (args : Arguments) (wait_list : Waits)
      → Steady p.cache
      → Gives (Deactivated p) (deactivate B p args wait_list)
  unfolding deactivate deactivate_snd
  deactivate_lem p (unary oid step) wait_list s = deactivate_buffers_lem p oid wait_list s
  deactivate_lem p (binary oid oid' step step') wait_list s =
      Gives-bind (Deactivated p) (Deactivated p0) (deactivate_buffers B p0 oid wait_list) _
        (deactivate_buffers_lem p0 oid wait_list s) snd
    where
      p0 : Progress B.State
      p0 = record p { last_event = none }

      snd :
          (r : ℤ × Progress B.State)
          → Deactivated p0 r
          → Gives (Deactivated p) (deactivate_snd B oid' p.last_event r)
      snd (negsuc k, p1) d = record { steady = d.steady; launches = d.launches }
      snd (pos k, p1) d =
          Gives-map (Deactivated p2) (Deactivated p)
            (λ r d'. record { steady = d'.steady; launches = d'.launches ∙ d.launches })
            (deactivate_buffers B p2 oid' (p1.last_event ∷ []))
            (deactivate_buffers_lem p2 oid' (p1.last_event ∷ []) d.steady)
        where
          p2 : Progress B.State
          p2 = record p1 { last_event = p.last_event }

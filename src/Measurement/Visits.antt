-- ===== src/Measurement/Visits.antt =====
-- `get_datapoints_with_events`: the loop over the stack against a walk over the trees.
use cl_kmeans.Prelude.{
  ℕ, zero, suc, ◌+◌, ◌<◌, Bool, true, false, List, [], ◌∷◌, ◌++◌, some, ◌≡◌, refl, ◌∙◌, ap, sym,
  arith, ltb, if◌then◌else◌, append_assoc, append-nil,
}
use cl_kmeans.Measurement.Points.{DataPoint, data_point, Children, nil, cons, num_events}
use cl_kmeans.Measurement.Series.{
  push_children, size, sizes, stack_size, drain, get_datapoints_with_events,
}

-- A point before those below it, its children from the last to the first.
unfoldable mutual
  pub visit : DataPoint → List DataPoint
  visit (data_point f cs) = data_point f cs ∷ visit_children cs

  pub visit_children : Children → List DataPoint
  visit_children nil = []
  visit_children (cons c cs) = visit_children cs ++ visit c

unfoldable pub visit_all : List DataPoint → List DataPoint
visit_all [] = []
visit_all (p ∷ ps) = visit p ++ visit_all ps

-- Those with events.
unfoldable pub eventful : List DataPoint → List DataPoint
eventful [] = []
eventful (p ∷ ps) = let rest = eventful ps in if ltb 0 (num_events p) then p ∷ rest else rest

stack_size-push_children :
    (cs : Children) (ps : List DataPoint)
    → stack_size (push_children cs ps) ≡ sizes cs + stack_size ps
unfolding push_children size stack_size
stack_size-push_children nil ps = omega arith
stack_size-push_children (cons c cs) ps = omega (arith, stack_size-push_children cs (c ∷ ps))

visit_all-push_children :
    (cs : Children) (ps : List DataPoint)
    → visit_all (push_children cs ps) ≡ visit_children cs ++ visit_all ps
unfolding push_children visit visit_all
visit_all-push_children nil ps = refl
visit_all-push_children (cons c cs) ps =
    visit_all-push_children cs (c ∷ ps)
    ∙ sym (append_assoc (visit_children cs) (visit c) (visit_all ps))

keep :
    (b : Bool) (acc : List DataPoint) (p : DataPoint) (ps : List DataPoint)
    → (if b then acc ++ p ∷ [] else acc) ++ ps ≡ acc ++ (if b then p ∷ ps else ps)
keep true acc p ps = append_assoc acc (p ∷ []) ps
keep false acc p ps = refl

drain_lem :
    (fuel : ℕ) (ps acc : List DataPoint)
    → stack_size ps < fuel
    → drain fuel ps acc ≡ some (acc ++ eventful (visit_all ps))
unfolding drain visit visit_all eventful stack_size size
drain_lem zero ps acc h = absurd (omega (arith, h))
drain_lem (suc fuel) [] acc h = ap some (sym (append-nil acc))
drain_lem (suc fuel) (data_point f cs ∷ ps) acc h =
    drain_lem fuel (push_children cs ps) _ (omega (arith, h, stack_size-push_children cs ps))
    ∙ ap some (
        rw (visit_all-push_children cs ps) (
          keep (ltb 0 (num_events (data_point f cs))) acc (data_point f cs)
            (eventful (visit_children cs ++ visit_all ps))))

-- The loop ends, and finds the points with events of all the trees, tree by tree, each point
-- before those below it, its children from the last to the first.
pub get_datapoints_with_events_lem :
    (dps : List DataPoint) → get_datapoints_with_events dps ≡ some (eventful (visit_all dps))
unfolding get_datapoints_with_events
get_datapoints_with_events_lem dps = drain_lem (suc (stack_size dps)) dps [] (omega arith)

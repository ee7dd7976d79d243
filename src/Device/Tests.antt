-- ===== src/Device/Tests.antt =====
-- Instances of the theorems on the kernels, and runs of them.
use cl_kmeans.Prelude.{
  ℕ, zero, suc, ◌+◌, ◌*◌, ◌%◌, ◌<◌, List, [], ◌∷◌, ◌++◌, true, false, none, some, ◌≡◌, refl, inl,
  ltb, if◌then◌else◌, arith, Gives, ℕ_discrete, ◌==◌,
}
use cl_kmeans.Device.Buffers.{Buffer, times, IsOrder}
use cl_kmeans.Device.Sums.{row_sum}
use cl_kmeans.Device.Reduce.{Schedule, compact_rounds, reduce}
use cl_kmeans.Device.Rounds.{IsFair}
use cl_kmeans.Device.Reduction.{reduce-row_sum}
use cl_kmeans.Device.OddRows.{reduce-odd}
use cl_kmeans.Device.Histogram.{Sizes}
use cl_kmeans.Device.Strides.{Fits}
use cl_kmeans.Device.Totals.{uint32-IsOrderless}
use cl_kmeans.Device.MassUpdate.{
  Range, uint32, Run, mass_update_global_atomic, mass_update_part_global,
}
use cl_kmeans.Device.Masses.{AreTurns, Given, Updated, mass_update_global_atomic-Updated}
use cl_kmeans.Device.PartMasses.{IsRun, mass_update_part_global-Updated}

-- The work-items from the last to the first.
abbrev down : ℕ → List ℕ
down zero = []
down (suc n) = n ∷ down n

down-IsOrder : (n : ℕ) → IsOrder n (down n)
down-IsOrder zero i = ground arith
down-IsOrder (suc n) i =
    let ih = down-IsOrder n i in
    elim (ℕ_discrete n i) [ yes e ↦ ground (arith, ih, e) | no e ↦ ground (arith, ih, e) ]

abbrev descending : Schedule
descending = record { items = down; local_items = λ n remaining. down n }

descending-IsFair : IsFair descending
descending-IsFair = record { items = down-IsOrder; local_items = λ n remaining. down-IsOrder n }

-- Two columns of four values.
abbrev columns : Buffer ℕ
columns = record { size = 8; cell = λ i. 10 * i }

reduce-row_sum_example :
    Gives
      (λ b. (b.size ≡ 8) × ((r : ℕ) → r < 4 → b.cell r ≡ row_sum uint32 4 2 columns.cell r))
      (reduce uint32 descending (λ i. 0) 2 4 8 columns)
reduce-row_sum_example =
    reduce-row_sum uint32 uint32-IsOrderless descending descending-IsFair (λ i. 0) 1 4 columns
      (omega arith) (omega arith) (omega arith) (inl refl)

-- Two columns of 301 values.
abbrev odd_columns : Buffer ℕ
odd_columns = record { size = 602; cell = λ i. i }

reduce-odd_example :
    Gives
      (λ r. ((r.0 == 301) ≡ false) × ((256 % 301 == 0) ≡ false))
      (compact_rounds uint32 descending 603 301 602 301 odd_columns)
    × (reduce uint32 descending (λ i. 0) 2 301 602 odd_columns ≡ none)
reduce-odd_example =
    reduce-odd uint32 uint32-IsOrderless descending descending-IsFair 301 (omega arith) refl
      (omega arith) (λ i. 0) 0 odd_columns (omega arith) (omega arith)

times-append : (i : ℕ) (xs ys : List ℕ) → times i (xs ++ ys) ≡ times i xs + times i ys
times-append i [] ys = omega arith
times-append i (x ∷ xs) ys = let ih = times-append i xs ys in omega (arith, ih)

-- The rounds of `g` work-items, `m` of each.
abbrev in_turn : (g m : ℕ) → List ℕ
in_turn g zero = []
in_turn g (suc m) = down g ++ in_turn g m

times-in_turn : (i g m : ℕ) → times i (in_turn g m) ≡ (if ltb i g then m else 0)
times-in_turn i g zero = ground arith
times-in_turn i g (suc m) =
    let ih = times-in_turn i g m in
    let first = down-IsOrder g i in
    let both = times-append i (down g) (in_turn g m) in ground (arith, ih, first, both)

-- Two groups of two work-items, and six points of four clusters.
abbrev sizes : Sizes
sizes = record { global_size = 4; local_size = 2 }

sizes-Fits : Fits sizes 6
sizes-Fits = record {
  some_local = omega arith;
  some_group = omega arith;
  whole = refl;
  narrow = omega arith;
}

abbrev labels : Range ℕ
labels = record { vector = record { size = 6; cell = λ q. q % 3 }; length = 6 }

abbrev masses : Range ℕ
masses = record { vector = record { size = 4; cell = λ c. 100 }; length = 4 }

six-Given : Given sizes 6 4 labels masses
six-Given = record {
  fits = sizes-Fits;
  points = refl;
  clusters_length = refl;
  labels_room = omega arith;
  masses_room = omega arith;
  known = λ q l. omega arith;
  words = λ c l. omega arith;
}

in_turn-AreTurns : AreTurns sizes 6 (in_turn 4 6)
in_turn-AreTurns = record {
  known = λ i l. let t = times-in_turn i 4 6 in ground (arith, t, l);
  enough = λ i l. let t = times-in_turn i 4 6 in ground (arith, t, l);
}

mass_update_global_atomic-Updated_example :
    Gives
      (Updated 6 4 labels.vector.cell masses.vector.cell)
      (mass_update_global_atomic true sizes (in_turn 4 6) 6 4 labels masses)
mass_update_global_atomic-Updated_example =
    mass_update_global_atomic-Updated sizes 6 4 labels masses six-Given true (in_turn 4 6)
      in_turn-AreTurns

abbrev device : Run
device = record {
  items = down 4;
  turns = in_turn 4 6;
  fresh = λ i. 77;
  before = λ i. 55;
  schedule = descending;
}

device-IsRun : IsRun sizes 6 device
device-IsRun = record {
  items = down-IsOrder 4;
  turns = in_turn-AreTurns;
  schedule = descending-IsFair;
}

mass_update_part_global-Updated_example :
    Gives
      (λ r. Updated 6 4 labels.vector.cell masses.vector.cell r.1)
      (mass_update_part_global device false sizes 6 4 labels masses
        (record { size = 0; cell = λ i. 0 }))
mass_update_part_global-Updated_example =
    mass_update_part_global-Updated sizes 6 4 0 labels masses six-Given device device-IsRun
      (omega arith) (inl refl) refl (omega arith) false (record { size = 0; cell = λ i. 0 })

-- The masses of a run.
masses_after : List ℕ
unfolding mass_update_part_global
masses_after =
    elim (mass_update_part_global device false sizes 6 4 labels masses
      (record { size = 0; cell = λ i. 0 })) [
        | none ↦ []
        | some r ↦ r.1.cell 0 ∷ r.1.cell 1 ∷ r.1.cell 2 ∷ r.1.cell 3 ∷ []
      ]

masses-after : masses_after ≡ 102 ∷ 102 ∷ 102 ∷ 100 ∷ []
unfolding masses_after
masses-after = refl

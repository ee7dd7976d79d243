-- ===== src/Measurement/Parameters.antt =====
-- The map of parameters under `set_parameter`.
use Prim.Native.String.{String}
use cl_kmeans.Prelude.{
  Bool, true, false, not, ◌&&◌, List, [], ◌∷◌, Option, none, some, ◌≡◌, inl, inr, refl, sym,
  if◌then◌else◌, Bool-cases,
}
use cl_kmeans.Measurement.Series.{Measurement, insert, set_parameter}

-- A strict weak order, which is what a map needs of its keys.
pub record StrictWeak (less : String → String → Bool) : Type 0 where
  pub irreflexive : (a : String) → less a a ≡ false
  pub transitive : (a b c : String) → less a b ≡ true → less b c ≡ true → less a c ≡ true
  pub incomparable :
      (a b c : String)
      → less a b ≡ false
      → less b a ≡ false
      → (less a c ≡ less b c) × (less c a ≡ less c b)

module _ (less : String → String → Bool) where
  -- Keys that a map takes for the same.
  abbrev pub same : String → String → Bool
  same a b = not (less a b) && not (less b a)

  unfoldable pub lookup : List (String × String) → String → Option String
  lookup [] name = none
  lookup (p ∷ ps) name = let rest = lookup ps name in if same p.0 name then some p.1 else rest

  -- No key, or the first one is greater.
  abbrev pub Above : String → List (String × String) → Type 0
  Above name [] = Unit
  Above name (p ∷ ps) = less name p.0 ≡ true

  -- Each key is greater than the one before it.
  abbrev pub Ordered : List (String × String) → Type 0
  Ordered [] = Unit
  Ordered (p ∷ ps) = Above p.0 ps × Ordered ps

  module _ (order : StrictWeak less) where
    lookup-insert_self :
        (ps : List (String × String)) (name value : String)
        → lookup (insert less ps name value) name ≡ some value
    unfolding lookup insert
    lookup-insert_self [] name value = rw (order.irreflexive name) refl
    lookup-insert_self (p ∷ ps) name value = elim (Bool-cases (less name p.0)) [
      | inl a ↦ rw a (rw (order.irreflexive name) refl)
      | inr a ↦ elim (Bool-cases (less p.0 name)) [
        | inl b ↦ rw (a, b) (rw b (lookup-insert_self ps name value))
        | inr b ↦ rw (a, b) (rw (a, b) refl)
      ]
    ]

    lookup-insert_ne :
        (ps : List (String × String)) (name value other : String)
        → same name other ≡ false
        → lookup (insert less ps name value) other ≡ lookup ps other
    unfolding lookup insert
    lookup-insert_ne [] name value other h = rw h refl
    lookup-insert_ne (p ∷ ps) name value other h = elim (Bool-cases (less name p.0)) [
      | inl a ↦ rw a (rw h refl)
      | inr a ↦ elim (Bool-cases (less p.0 name)) [
        | inl b ↦ rw (a, b) (rw (lookup-insert_ne ps name value other h) refl)
        | inr b ↦
            let (l, r) = order.incomparable name p.0 other a b in
            let differs : same p.0 other ≡ false = rw (sym l, sym r) h in
            rw (a, b) (rw differs refl)
      ]
    ]

    Above-insert :
        (ps : List (String × String)) (name value : String) (key : String)
        → Above key ps
        → less key name ≡ true
        → Above key (insert less ps name value)
    unfolding insert
    Above-insert [] name value key h l = l
    Above-insert (p ∷ ps) name value key h l = elim (Bool-cases (less name p.0)) [
      | inl a ↦ rw a l
      | inr a ↦ elim (Bool-cases (less p.0 name)) [ inl b ↦ rw (a, b) h | inr b ↦ rw (a, b) h ]
    ]

    insert-Ordered :
        (ps : List (String × String)) (name value : String)
        → Ordered ps
        → Ordered (insert less ps name value)
    unfolding insert
    insert-Ordered [] name value h = (tt, tt)
    insert-Ordered (p ∷ ps) name value (h, k) = elim (Bool-cases (less name p.0)) [
      | inl a ↦ rw a (a, (h, k))
      | inr a ↦ elim (Bool-cases (less p.0 name)) [
        | inl b ↦ rw (a, b) (Above-insert ps name value p.0 h b, insert-Ordered ps name value k)
        | inr b ↦ rw (a, b) (h, k)
      ]
    ]

    -- For a strict weak order of the names: `set_parameter` keeps the parameters in order, has the
    -- new value under the name, keeps the values under the names that the order tells from it, and
    -- keeps the data points.
    pub set_parameter_lem :
        (m : Measurement) (name value : String)
        → Ordered m.parameters
        → Ordered (set_parameter less m name value).parameters
          × (lookup (set_parameter less m name value).parameters name ≡ some value)
          × ((other : String)
              → same name other ≡ false
              → lookup (set_parameter less m name value).parameters other
                ≡ lookup m.parameters other)
          × ((set_parameter less m name value).data_points ≡ m.data_points)
    unfolding set_parameter
    set_parameter_lem m name value h = (
      insert-Ordered m.parameters name value h,
      lookup-insert_self m.parameters name value,
      lookup-insert_ne m.parameters name value,
      refl,
    )

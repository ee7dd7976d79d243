-- ===== src/Device/Buffers.antt =====
-- Buffers of a device and the work-items of a kernel (cl_kernels/*.cl).
use cl_kmeans.Prelude.{
  ℕ, suc, ◌+◌, ◌<◌, ◌≤◌, List, [], ◌∷◌, Option, none, some, ◌≡◌, ◌≢◌, ◌⊎◌, inl, inr, ℕ_discrete,
  refl, Bool-cases, arith, ltb, ◌==◌, Bool, if◌then◌else◌, ◌>>=◌,
}

pub record Buffer (T : Type 0) : Type 0 where
  pub size : ℕ
  pub cell : ℕ → T

abbrev pub written {ℓ} : {T : Type ℓ} → (ℕ → T) → (i : ℕ) → T → ℕ → T
written f i v j = if j == i then v else f j

module _ {T : Type 0} where
  -- An access out of the bounds of a buffer is undefined.
  abbrev pub load_at : Buffer T → (i : ℕ) → Option T
  load_at b i = if ltb i b.size then some (b.cell i) else none

  abbrev pub store_at : Buffer T → (i : ℕ) → T → Option (Buffer T)
  store_at b i v = if ltb i b.size then some (record b { cell = written b.cell i v }) else none

-- An assertion; a run that fails it has no result.
abbrev pub assert_that {ℓ} : {A : Type ℓ} → Bool → Option A → Option A
assert_that holds rest = if holds then rest else none

-- The work-items of a kernel between two barriers, in the order in which they take place.
unfoldable pub run_items {ℓ} : {S : Type ℓ} → (ℕ → S → Option S) → List ℕ → S → Option S
run_items item [] s = some s
run_items item (i ∷ order) s = do s' ← item i s; run_items item order s'

abbrev pub times : ℕ → List ℕ → ℕ
times i [] = 0
times i (x ∷ xs) = (if x == i then 1 else 0) + times i xs

-- The order of `n` work-items: each of them once.
abbrev pub IsOrder : (n : ℕ) → List ℕ → Type 0
IsOrder n order = (i : ℕ) → times i order ≡ (if ltb i n then 1 else 0)

pub times_self : (x i : ℕ) (order : List ℕ) → x ≡ i → times i (x ∷ order) ≡ suc (times i order)
times_self x i order e = ground (arith, e)

pub times_other : (x i : ℕ) (order : List ℕ) → x ≢ i → times i (x ∷ order) ≡ times i order
times_other x i order e = ground (arith, e)

pub eq_cases : (x i : ℕ) → (x ≡ i) ⊎ (x ≢ i)
eq_cases x i = elim (ℕ_discrete x i) [ yes e ↦ inl e | no e ↦ inr e ]

-- Work-items below `n`, none of them twice.
abbrev pub Distinct : (n : ℕ) → List ℕ → Type 0
Distinct n order = (i : ℕ) → times i order ≤ (if ltb i n then 1 else 0)

module _ (n x : ℕ) (order : List ℕ) (d : Distinct n (x ∷ order)) where
  pub Distinct-head : (x < n) × (times x order ≡ 0)
  Distinct-head =
      let s : times x (x ∷ order) ≡ suc (times x order) = times_self x x order refl in
      let l = d x in
      elim (Bool-cases (ltb x n)) [
        | inl b ↦ (ground (arith, b), ground (arith, s, l, b))
        | inr b ↦ absurd (ground (arith, s, l, b))
      ]

  pub Distinct-rest : Distinct n order
  Distinct-rest i = let l = d i in ground (arith, l)

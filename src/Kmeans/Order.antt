-- ===== src/Kmeans/Order.antt =====
-- The orders in which two nested loops go over the elements of a matrix.
use cl_kmeans.Prelude.{ℕ, suc, ◌<◌, ◌≡◌, ◌≢◌, ◌⊎◌, inl, inr, arith, ◌==◌, Bool-cases}

-- The columns before `d`, and of column `d` the rows before `c`.
abbrev pub Columns : (d c : ℕ) → ℕ → ℕ → Type 0
Columns d c c' d' = (d' < d) ⊎ ((d' ≡ d) × (c' < c))

-- The same the other way around.
abbrev pub Rows : (c d : ℕ) → ℕ → ℕ → Type 0
Rows c d c' d' = (c' < c) ⊎ ((c' ≡ c) × (d' < d))

pub split-Columns :
    (d c c' d' : ℕ)
    → Columns d (suc c) c' d'
    → ((c ≡ c') × (d ≡ d')) ⊎ (((c ≢ c') ⊎ (d ≢ d')) × Columns d c c' d')
split-Columns d c c' d' (inl l) = inr (inr (λ e. omega arith), inl l)
split-Columns d c c' d' (inr (e, l)) = elim (Bool-cases (c == c')) [
  | inl h ↦ inl (ground arith)
  | inr h ↦ inr (inl (λ e'. ground arith), inr (e, ground arith))
]

pub split-Rows :
    (c d c' d' : ℕ)
    → Rows c (suc d) c' d'
    → ((c ≡ c') × (d ≡ d')) ⊎ (((c ≢ c') ⊎ (d ≢ d')) × Rows c d c' d')
split-Rows c d c' d' (inl l) = inr (inl (λ e. omega arith), inl l)
split-Rows c d c' d' (inr (e, l)) = elim (Bool-cases (d == d')) [
  | inl h ↦ inl (ground arith)
  | inr h ↦ inr (inr (λ e'. ground arith), inr (e, ground arith))
]

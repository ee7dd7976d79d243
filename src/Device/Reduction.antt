-- ===== src/Device/Reduction.antt =====
-- `ReduceVectorParcol` as a whole: its loop over the first kernel, and the last one.
use cl_kmeans.Prelude.{
  ltb_lt, ltb_ge, leb_le, beq_eq, beq_ne, ℕ, zero, suc, ◌+◌, ◌*◌, ◌/◌, ◌%◌, ◌^◌, ◌<◌, ◌≤◌, ◌≡◌, ◌⊎◌,
  ◌∙◌, inl, inr, refl, subst, ap, arith, ltb, leb, ◌==◌, true, false, Bool-cases, Gives, Gives-bind,
  Gives-map,
}
use native.Mathlib.Nat.{mul-mod_left, mod-eq_of_lt}
use cl_kmeans.Device.Buffers.{Buffer}
use cl_kmeans.Device.Sums.{Addition, IsOrderless, row_sum}
use cl_kmeans.Device.Reduce.{
  Schedule, reduce_vector_parcol_compact, reduce_vector_parcol_inner, compact_rounds, inner_round,
  reduce,
}
use cl_kmeans.Device.Rounds.{IsFair, Sums, compact-Sums}
use cl_kmeans.Device.Rows.{lt_two_pow, twice_rows, half_rows, pow_rows, reduce_inner-Sums}

-- The numbers of rows for which the assertions hold.
abbrev pub Divides256 : (rows : ℕ) → Type 0
Divides256 rows = (256 % rows ≡ 0) ⊎ ((256 ≤ rows) × (rows % 2 ≡ 0))

-- Where the source divides, nothing is left.
IsEven-rows : (rows : ℕ) → Divides256 rows → 256 < rows → rows % 2 ≡ 0
IsEven-rows rows (inl e) l = absurd (omega (arith, e, mod-eq_of_lt l))
IsEven-rows rows (inr (h, e)) l = e

divides_small : {rows : ℕ} → Divides256 rows → rows ≤ 256 → 256 % rows ≡ 0
divides_small (inl e) l = e
divides_small {rows} (inr (h, e)) l = let same : rows ≡ 256 = omega (arith, h, l) in rw same refl

module _ {T : Type 0} (A : Addition T) (L : IsOrderless A) (schedule : Schedule)
    (fair : IsFair schedule) (rows : ℕ) (some_row : 0 < rows) (sums : ℕ → T) where
  -- What the loop leaves: one column, or few values.
  abbrev Compacted : (size : ℕ) → ℕ × Buffer T → Type 0
  Compacted size r =
      (j : ℕ) × (r.0 ≡ 2 ^ j * rows)
      × ((j ≡ 0) ⊎ (r.0 ≤ 512))
      × (r.0 ≤ size)
      × Sums A rows sums (2 ^ j) size r.1

  -- One round, where the loop goes on.
  pub compact_rounds-step :
      (j fuel : ℕ) (b : Buffer T) (P : ℕ × Buffer T → Type 0)
      → 2 ^ suc j * rows ≤ b.size
      → 2 ^ suc j * rows + 2 ^ j * rows < 2 ^ 32
      → 512 < 2 ^ suc j * rows
      → Sums A rows sums (2 ^ suc j) b.size b
      → ((b' : Buffer T)
          → Sums A rows sums (2 ^ j) b.size b'
          → Gives P
              (compact_rounds A schedule fuel rows (2 ^ j * rows / 2 * 2) (2 ^ j * rows / 2) b'))
      → Gives P (compact_rounds A schedule (suc fuel) rows (2 ^ suc j * rows) (2 ^ j * rows) b)
  unfolding compact_rounds
  compact_rounds-step j fuel b P fits narrow large s rest =
      let twice = twice_rows A L schedule fair rows some_row sums j in
      let least = pow_rows A L schedule fair rows some_row sums j in
      let cols : 2 ^ suc j ≡ 2 ^ j + 2 ^ j = omega arith in
      let halves : (2 ^ j + 2 ^ j) * rows ≡ 2 ^ suc j * rows = rw (← cols) refl in
      let more : ltb rows (2 ^ suc j * rows) ≡ true =
        ltb_lt (omega (arith, twice, least, some_row)) in
      let many : ltb 512 (2 ^ suc j * rows) ≡ true = ltb_lt large in
      let even : (2 ^ j * rows * 2 == 2 ^ suc j * rows) ≡ true = beq_eq (omega (arith, twice)) in
      let divided : (2 ^ j * rows % rows == 0) ≡ true = beq_eq (mul-mod_left (2 ^ j) rows) in
      let some' : ltb 0 rows ≡ true = ltb_lt some_row in
      let same : 2 ^ suc j * rows % 2 ^ 32 ≡ 2 ^ suc j * rows = omega (arith, narrow) in
      rw (more, many, even, divided, some', same)
        (Gives-bind P (Sums A rows sums (2 ^ j) b.size) _ _
          (subst
            (λ n.
              Gives (Sums A rows sums (2 ^ j) b.size)
                (reduce_vector_parcol_compact A schedule n (2 ^ j * rows) b))
            halves
            (compact-Sums A L schedule fair rows some_row sums (2 ^ j) b.size b
              (omega (arith, lt_two_pow j)) (omega (arith, halves, fits))
              (omega (arith, halves, narrow)) (subst (λ c. Sums A rows sums c b.size b) cols s)))
          rest)

  compact_rounds-Sums :
      (k fuel : ℕ) (b : Buffer T)
      → k < fuel
      → Divides256 rows
      → 2 ^ k * rows ≤ b.size
      → 2 ^ k * rows + 2 ^ k * rows / 2 < 2 ^ 32
      → Sums A rows sums (2 ^ k) b.size b
      → Gives
          (Compacted b.size)
          (compact_rounds A schedule fuel rows (2 ^ k * rows) (2 ^ k * rows / 2) b)
  unfolding compact_rounds
  compact_rounds-Sums k zero b f d fits narrow s = absurd (omega (arith, f))
  compact_rounds-Sums zero (suc fuel) b f d fits narrow s =
      let one : ltb rows (1 * rows) ≡ false = ltb_ge (omega arith) in
      rw one (0, refl, inl refl, fits, s)
  compact_rounds-Sums (suc j) (suc fuel) b f d fits narrow s =
      let twice = twice_rows A L schedule fair rows some_row sums j in
      let half = half_rows A L schedule fair rows some_row sums j in
      rw half (elim (Bool-cases (ltb 512 (2 ^ suc j * rows))) [
        | inl large ↦
            let l : 512 < 2 ^ suc j * rows = ground (arith, large) in
            compact_rounds-step j fuel b (Compacted b.size) fits (omega (arith, half, narrow)) l s
              (λ b' s'. rw (again j twice l) (
                subst
                  (λ n.
                    Gives (Compacted n)
                      (compact_rounds A schedule fuel rows (2 ^ j * rows) (2 ^ j * rows / 2) b'))
                  s'.0
                  (compact_rounds-Sums j fuel b' (omega (arith, f)) d
                    (omega (arith, s'.0, fits, twice)) (omega (arith, narrow, half)) (refl, s'.1))))
        | inr small ↦
            let few : 2 ^ suc j * rows ≤ 512 = ground (arith, small) in
            let least = pow_rows A L schedule fair rows some_row sums j in
            let more : ltb rows (2 ^ suc j * rows) ≡ true =
              ltb_lt (omega (arith, twice, least, some_row)) in
            rw (more, small) (suc j, refl, inr few, fits, s)
      ])
    where
      again :
          (j : ℕ)
          → 2 ^ suc j * rows ≡ 2 ^ j * rows + 2 ^ j * rows
          → 512 < 2 ^ suc j * rows
          → 2 ^ j * rows / 2 * 2 ≡ 2 ^ j * rows
      again zero e l = let even = IsEven-rows rows d (omega (arith, e, l)) in omega (arith, even)
      again (suc i) e l =
          let twice = twice_rows A L schedule fair rows some_row sums i in omega (arith, twice)

  inner_round-Sums :
      (before : ℕ → T) (size : ℕ) (r : ℕ × Buffer T)
      → Divides256 rows
      → rows < 2 ^ 32
      → Compacted size r
      → Gives (Sums A rows sums 1 size) (inner_round A schedule before rows r.0 r.1)
  unfolding inner_round
  inner_round-Sums before size (n, b) d narrow (zero, e, w, fits, s) =
      let one : (n == rows) ≡ true = beq_eq (omega (arith, e)) in rw one s
  inner_round-Sums before size (n, b) d narrow (suc j, e, inl w, fits, s) =
      absurd (omega (arith, w))
  inner_round-Sums before size (n, b) d narrow (suc j, e, inr w, fits, s) =
      let twice = twice_rows A L schedule fair rows some_row sums j in
      let half = half_rows A L schedule fair rows some_row sums j in
      let least = pow_rows A L schedule fair rows some_row sums j in
      let more : (n == rows) ≡ false = beq_ne (omega (arith, e, twice, least, some_row)) in
      let divides : (256 % rows == 0) ≡ true =
        beq_eq (divides_small d (omega (arith, e, w, twice, least))) in
      let same : rows % 2 ^ 32 ≡ rows = omega (arith, narrow) in
      let half' : n / 2 ≡ 2 ^ j * rows = omega (arith, e, half) in
      rw (more, divides, same, half')
        (subst
          (λ z.
            Gives (Sums A rows sums 1 z)
              (reduce_vector_parcol_inner A schedule before rows (2 ^ j * rows) b))
          s.0
          (reduce_inner-Sums A L schedule fair rows some_row sums j before b (omega (arith, e, w))
            (omega (arith, e, s.0, fits)) (refl, s.1)))

module _ {T : Type 0} (A : Addition T) (L : IsOrderless A) (schedule : Schedule)
    (fair : IsFair schedule) (before : ℕ → T) (k rows : ℕ) (b : Buffer T) (some_row : 0 < rows)
    (fits : 2 ^ k * rows ≤ b.size) (narrow : 2 ^ k * rows + 2 ^ k * rows / 2 < 2 ^ 32) where
  abbrev pub Reduced : Buffer T → Type 0
  Reduced b' =
      (b'.size ≡ b.size) × ((r : ℕ) → r < rows → b'.cell r ≡ row_sum A rows (2 ^ k) b.cell r)

  -- For an addition that does not depend on the order, 2^k columns of a positive number of rows
  -- that divides 256 or is even and at least 256, and a size that stays below 2^32 with its half
  -- added: whatever the order of the work-items, the reduction ends with no failed assertion and
  -- no access out of bounds, the size of the buffer is unchanged, and its first values are the
  -- sums of the rows.
  pub reduce-row_sum :
      Divides256 rows → Gives Reduced (reduce A schedule before (2 ^ k) rows (2 ^ k * rows) b)
  unfolding reduce
  reduce-row_sum d =
      let all : leb (2 ^ k * rows) (2 ^ k * rows) ≡ true = leb_le (omega arith) in
      let sums : ℕ → T = λ r. row_sum A rows (2 ^ k) b.cell r in
      let narrow' : rows < 2 ^ 32 =
        omega (arith, narrow, pow_rows A L schedule fair rows some_row sums k) in
      let enough : k < suc (2 ^ k * rows) = grind (arith, lt_two_pow k, some_row) in
      rw all (
        Gives-bind Reduced (Compacted A L schedule fair rows some_row sums b.size)
          (compact_rounds A schedule (suc (2 ^ k * rows)) rows (2 ^ k * rows) (2 ^ k * rows / 2) b)
          (λ r. inner_round A schedule before rows r.0 r.1)
          (compact_rounds-Sums A L schedule fair rows some_row sums k (suc (2 ^ k * rows)) b enough
            d fits narrow (refl, λ r l. refl))
          (λ r c.
            Gives-map (Sums A rows sums 1 b.size) Reduced
              (λ b' s. (s.0, λ r' l. ap b'.cell (first r') ∙ s.1 r' l))
              (inner_round A schedule before rows r.0 r.1)
              (inner_round-Sums A L schedule fair rows some_row sums before b.size r d narrow' c)))
    where
      first : (r : ℕ) → r ≡ 0 * rows + r
      first r = omega arith

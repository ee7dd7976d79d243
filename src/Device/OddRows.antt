-- ===== src/Device/OddRows.antt =====
-- `ReduceVectorParcol` on an odd number of rows above 256, where `global_size /= 2` loses a row.
use cl_kmeans.Prelude.{
  ltb_ge, leb_le, beq_ne, ℕ, zero, suc, ◌+◌, ◌-◌, ◌*◌, ◌/◌, ◌%◌, ◌^◌, ◌<◌, ◌≤◌, Option, none, some,
  ◌≡◌, refl, arith, ltb, leb, ◌==◌, true, false, ◌>>=◌, Gives, Gives-map,
}
use native.Mathlib.Nat.{mod-eq_of_lt}
use cl_kmeans.Device.Buffers.{Buffer}
use cl_kmeans.Device.Sums.{Addition, IsOrderless, row_sum}
use cl_kmeans.Device.Reduce.{Schedule, workgroup_size, compact_rounds, inner_round, reduce}
use cl_kmeans.Device.Rounds.{IsFair}
use cl_kmeans.Device.Rows.{lt_two_pow, twice_rows, half_rows, pow_rows}
use cl_kmeans.Device.Reduction.{compact_rounds-step}

fails_after {ℓ κ} :
    {A : Type ℓ} {B : Type κ} (P : A → Type 0) (m : Option A) (f : A → Option B)
    → Gives P m
    → ((a : A) → P a → f a ≡ none)
    → (m >>= f) ≡ none
fails_after P none f h k = refl
fails_after P (some a) f h k = k a h

module _ {T : Type 0} (A : Addition T) (L : IsOrderless A) (schedule : Schedule)
    (fair : IsFair schedule) (rows : ℕ) (some_row : 0 < rows) (odd : rows % 2 ≡ 1)
    (many : 256 < rows) where
  compact_rounds-odd :
      (j fuel : ℕ) (b : Buffer T)
      → suc j < fuel
      → 2 ^ suc j * rows ≤ b.size
      → 2 ^ suc j * rows + 2 ^ j * rows < 2 ^ 32
      → Gives
          (λ r. r.0 ≡ rows - 1)
          (compact_rounds A schedule fuel rows (2 ^ suc j * rows) (2 ^ j * rows) b)
  unfolding compact_rounds
  compact_rounds-odd j zero b f fits narrow = absurd (omega (arith, f))
  compact_rounds-odd zero (suc zero) b f fits narrow = absurd (omega (arith, f))
  compact_rounds-odd zero (suc (suc fuel)) b f fits narrow =
      compact_rounds-step A L schedule fair rows some_row (λ r. row_sum A rows 2 b.cell r) 0
        (suc fuel) b (λ r. r.0 ≡ rows - 1) fits narrow (omega (arith, many)) (refl, λ r l. refl)
        (λ b' s.
          let lost : 1 * rows / 2 * 2 ≡ rows - 1 = omega (arith, odd) in
          let ends : ltb rows (rows - 1) ≡ false = ltb_ge (omega arith) in rw (lost, ends) refl)
  compact_rounds-odd (suc i) (suc fuel) b f fits narrow =
      let twice = twice_rows A L schedule fair rows some_row (λ r. b.cell r) i in
      let twice' = twice_rows A L schedule fair rows some_row (λ r. b.cell r) (suc i) in
      let least = pow_rows A L schedule fair rows some_row (λ r. b.cell r) i in
      let half = half_rows A L schedule fair rows some_row (λ r. b.cell r) i in
      let same : 2 ^ i * rows * 2 ≡ 2 ^ suc i * rows = omega (arith, twice) in
      compact_rounds-step A L schedule fair rows some_row
        (λ r. row_sum A rows (2 ^ suc (suc i)) b.cell r) (suc i) fuel b (λ r. r.0 ≡ rows - 1) fits
        narrow (omega (arith, twice', twice, least, many)) (refl, λ r l. refl)
        (λ b' s.
          rw (half, same)
            (compact_rounds-odd i fuel b' (omega (arith, f)) (omega (arith, s.0, fits, twice'))
              (omega (arith, twice, twice', narrow))))

  -- For an addition that does not depend on the order, work-items that each run once in any order,
  -- an odd number of rows above 256 and 2^(j+1) columns of them, in a buffer that holds them and
  -- with 32-bit sizes: the loop over the compact kernel ends without a failed assertion or an
  -- access out of bounds, with a size other than the number of rows, of which WORKGROUP_SIZE is no
  -- multiple, so that the assertion after the loop fails, and the reduction has no result.
  pub reduce-odd :
      (before : ℕ → T) (j : ℕ) (b : Buffer T)
      → 2 ^ suc j * rows ≤ b.size
      → 2 ^ suc j * rows + 2 ^ j * rows < 2 ^ 32
      → Gives
          (λ r. ((r.0 == rows) ≡ false) × ((workgroup_size % rows == 0) ≡ false))
          (compact_rounds A schedule
            (suc (2 ^ suc j * rows))
            rows
            (2 ^ suc j * rows)
            (2 ^ suc j * rows / 2)
            b)
        × (reduce A schedule before (2 ^ suc j) rows (2 ^ suc j * rows) b ≡ none)
  unfolding reduce inner_round
  reduce-odd before j b fits narrow =
      let half = half_rows A L schedule fair rows some_row (λ r. b.cell r) j in
      let all : leb (2 ^ suc j * rows) (2 ^ suc j * rows) ≡ true = leb_le (omega arith) in
      let enough : suc j < suc (2 ^ suc j * rows) = grind (arith, lt_two_pow (suc j), some_row) in
      let rest : 256 % rows ≡ 256 = mod-eq_of_lt many in
      let loop =
        compact_rounds A schedule (suc (2 ^ suc j * rows)) rows (2 ^ suc j * rows)
          (2 ^ suc j * rows / 2) b in
      let Fails : ℕ × Buffer T → Type 0 =
        λ r. ((r.0 == rows) ≡ false) × ((workgroup_size % rows == 0) ≡ false) in
      let ends : Gives Fails loop =
        Gives-map (λ r. r.0 ≡ rows - 1) Fails
          (λ r e. (beq_ne (λ h. omega (arith, h, e, some_row)), rw rest refl)) loop
          (rw half (compact_rounds-odd j (suc (2 ^ suc j * rows)) b enough fits narrow)) in
      (
        ends,
        rw all (
            fails_after Fails loop (λ r. inner_round A schedule before rows r.0 r.1) ends
              (λ r (more, uneven). rw (more, uneven) refl)),
      )

-- ===== src/Device/Rows.antt =====
-- The last kernel of `ReduceVectorParcol`, which leaves one column.
use cl_kmeans.Prelude.{
  leb_le, ℕ, zero, suc, ◌+◌, ◌-◌, ◌*◌, ◌/◌, ◌^◌, ◌<◌, ◌≤◌, ◌≡◌, ◌∙◌, refl, subst, ap, arith, ltb,
  leb, true, false, if◌then◌else◌, Gives, Gives-bind,
}
use cl_kmeans.Device.Buffers.{Buffer}
use cl_kmeans.Device.Sums.{Addition, IsOrderless, row_sum, sum_to_eq}
use cl_kmeans.Device.Reduce.{Schedule, copy_first, inner_rounds, reduce_vector_parcol_inner}
use cl_kmeans.Device.Rounds.{IsFair, Sums, inner_items-Sums}

pub lt_two_pow : (j : ℕ) → j < 2 ^ j
lt_two_pow zero = omega arith
lt_two_pow (suc j) = let ih : j < 2 ^ j = lt_two_pow j in omega (arith, ih)

module _ {T : Type 0} (A : Addition T) (L : IsOrderless A) (schedule : Schedule)
    (fair : IsFair schedule) (rows : ℕ) (some_row : 0 < rows) (sums : ℕ → T) where
  pub pow_rows : (j : ℕ) → rows ≤ 2 ^ j * rows
  pow_rows j = let p = lt_two_pow j in grind (arith, p)

  pub twice_rows : (j : ℕ) → 2 ^ suc j * rows ≡ 2 ^ j * rows + 2 ^ j * rows
  twice_rows j = let twice : 2 ^ suc j ≡ 2 ^ j + 2 ^ j = omega arith in rw twice (grind arith)

  pub half_rows : (j : ℕ) → 2 ^ suc j * rows / 2 ≡ 2 ^ j * rows
  half_rows j =
      let twice : 2 ^ suc j * rows ≡ 2 ^ j * rows + 2 ^ j * rows = twice_rows j in
      omega (arith, twice)

  inner_rounds-step :
      (j fuel local_size size : ℕ) (b : Buffer T)
      → 2 ^ j * rows ≤ local_size
      → (2 ^ j + 2 ^ j) * rows ≤ size
      → Sums A rows sums (2 ^ j + 2 ^ j) size b
      → ((b' : Buffer T)
          → Sums A rows sums (2 ^ j) size b'
          → Gives
              (Sums A rows sums 1 size)
              (inner_rounds A schedule fuel rows local_size (2 ^ j * rows / 2) b'))
      → Gives
          (Sums A rows sums 1 size)
          (inner_rounds A schedule (suc fuel) rows local_size (2 ^ j * rows) b)
  unfolding inner_rounds
  inner_rounds-step j fuel local_size size b l fits s rest =
      let big : leb rows (2 ^ j * rows) ≡ true = leb_le (pow_rows j) in
      rw big (
        Gives-bind (Sums A rows sums 1 size) (Sums A rows sums (2 ^ j) size) _ _
          (inner_items-Sums A L schedule fair rows some_row sums local_size (2 ^ j) size b
            (omega (arith, lt_two_pow j)) fits l s)
          rest)

  inner_rounds-Sums :
      (j fuel local_size size : ℕ) (b : Buffer T)
      → j + 1 < fuel
      → 2 ^ j * rows ≤ local_size
      → (2 ^ j + 2 ^ j) * rows ≤ size
      → Sums A rows sums (2 ^ j + 2 ^ j) size b
      → Gives
          (Sums A rows sums 1 size)
          (inner_rounds A schedule fuel rows local_size (2 ^ j * rows) b)
  unfolding inner_rounds
  inner_rounds-Sums j zero local_size size b f l fits s = absurd (omega (arith, f))
  inner_rounds-Sums zero (suc zero) local_size size b f l fits s = absurd (omega (arith, f))
  inner_rounds-Sums zero (suc (suc fuel)) local_size size b f l fits s =
      inner_rounds-step 0 (suc fuel) local_size size b l fits s (λ b' s'.
        let small : leb rows (1 * rows / 2) ≡ false = ground (arith, some_row) in rw small s')
  inner_rounds-Sums (suc j) (suc fuel) local_size size b f l fits s =
      let twice : 2 ^ suc j ≡ 2 ^ j + 2 ^ j = omega arith in
      let half : 2 ^ suc j * rows / 2 ≡ 2 ^ j * rows = half_rows j in
      let more = twice_rows j in
      let most = twice_rows (suc j) in
      let here : (2 ^ j + 2 ^ j) * rows ≡ 2 ^ suc j * rows = rw (← twice) refl in
      let there : (2 ^ suc j + 2 ^ suc j) * rows ≡ 2 ^ suc (suc j) * rows =
        ap (λ (c : ℕ). c * rows) (omega arith) in
      inner_rounds-step (suc j) fuel local_size size b l fits s (λ b' s'. rw half (
        inner_rounds-Sums j fuel local_size size b' (omega (arith, f)) (omega (arith, more, l))
          (omega (arith, here, there, most, fits))
          (subst (λ c. Sums A rows sums c size b') twice s')))

  row_sum_eq :
      (cols : ℕ) (f g : ℕ → T)
      → 0 < cols
      → ((i : ℕ) → i < cols * rows → f i ≡ g i)
      → (r : ℕ) → r < rows
      → row_sum A rows cols f r ≡ row_sum A rows cols g r
  row_sum_eq cols f g p e r l =
      sum_to_eq A (cols - 1) _ _ (λ c k. e (c * rows + r) (grind (arith, k, l, p)))

  -- A copy of the first values keeps the sums that are over them.
  copy_first-Sums :
      (cols n : ℕ) (from to : Buffer T)
      → 0 < cols
      → cols * rows ≤ n
      → n ≤ from.size
      → n ≤ to.size
      → Sums A rows sums cols from.size from
      → Gives (Sums A rows sums cols to.size) (copy_first n from to)
  copy_first-Sums cols n from to p l h k s =
      let there : leb n from.size ≡ true = leb_le h in
      let here : leb n to.size ≡ true = leb_le k in
      rw (there, here)
        (
          refl,
          λ r m.
              row_sum_eq cols _ from.cell p (λ i q. copied i (omega (arith, q, l))) r m ∙ s.1 r m,
        )
    where
      copied : (i : ℕ) → i < n → (if ltb i n then from.cell i else to.cell i) ≡ from.cell i
      copied i q = ground (arith, q)

  pub reduce_inner-Sums :
      (j : ℕ) (before : ℕ → T) (b : Buffer T)
      → 2 ^ suc j * rows ≤ 512
      → 2 ^ suc j * rows ≤ b.size
      → Sums A rows sums (2 ^ suc j) b.size b
      → Gives
          (Sums A rows sums 1 b.size)
          (reduce_vector_parcol_inner A schedule before rows (2 ^ j * rows) b)
  unfolding reduce_vector_parcol_inner
  reduce_inner-Sums j before b small fits s =
      let twice = twice_rows j in
      let cols : 2 ^ suc j ≡ 2 ^ j + 2 ^ j = omega arith in
      let halves : (2 ^ j + 2 ^ j) * rows ≡ 2 ^ suc j * rows = rw (← cols) refl in
      let all : 2 * (2 ^ j * rows) ≡ 2 ^ suc j * rows = omega (arith, twice) in
      let enough : j + 1 < suc (2 ^ j * rows) = grind (arith, lt_two_pow j, some_row) in
      Gives-bind (Sums A rows sums 1 b.size) (Sums A rows sums (2 ^ suc j) 512) _ _
        (copy_first-Sums (2 ^ suc j) (2 * (2 ^ j * rows)) b _ (omega (arith, lt_two_pow (suc j)))
          (omega (arith, all)) (omega (arith, all, fits)) (omega (arith, all, small)) s)
        (λ l t.
          Gives-bind (Sums A rows sums 1 b.size) (Sums A rows sums 1 512) _ _
            (inner_rounds-Sums j (suc (2 ^ j * rows)) (2 ^ j * rows) 512 l enough (omega arith)
              (omega (arith, halves, small)) (subst (λ c. Sums A rows sums c 512 l) cols t))
            (λ l' t'.
              copy_first-Sums 1 rows l' b (omega arith) (omega arith)
                (omega (arith, t'.0, pow_rows (suc j), small))
                (omega (arith, pow_rows (suc j), fits)) (refl, t'.1)))

-- ===== src/Device/Rounds.antt =====
-- What `ReduceVectorParcol` computes: the sum of each row.
use cl_kmeans.Prelude.{
  ltb_lt, ltb_ge, ℕ, suc, ◌+◌, ◌-◌, ◌*◌, ◌%◌, ◌^◌, ◌<◌, ◌≤◌, some, ◌≡◌, ◌∙◌, inl, inr, refl, sym,
  subst, ap, arith, ltb, Bool-cases, Gives, Gives-map,
}
use cl_kmeans.Device.Buffers.{Buffer, run_items, IsOrder}
use cl_kmeans.Device.Sums.{Addition, IsOrderless, row_sum, row_sum-halve}
use cl_kmeans.Device.Halving.{halve, Halved, run_items-Halved}
use cl_kmeans.Device.Reduce.{
  Schedule, sum_stride, compact_item, inner_item, reduce_vector_parcol_compact,
}

pub record IsFair (schedule : Schedule) : Type 0 where
  pub items : (n : ℕ) → IsOrder n (schedule.items n)
  pub local_items : (n remaining : ℕ) → IsOrder n (schedule.local_items n remaining)

-- The sums of the rows of the first `cols` columns, in a buffer of `size` values.
abbrev pub Sums :
    {T : Type 0} → Addition T → (rows : ℕ) → (ℕ → T) → (cols size : ℕ) → Buffer T → Type 0
Sums A rows sums cols size b =
    (b.size ≡ size) × ((r : ℕ) → r < rows → row_sum A rows cols b.cell r ≡ sums r)

module _ {T : Type 0} (A : Addition T) (L : IsOrderless A) where
  sum_stride_two :
      (fuel N stride i : ℕ) (b : Buffer T)
      → i < stride
      → N ≡ stride + stride
      → N ≤ b.size
      → N + stride < 2 ^ 32
      → sum_stride A (suc (suc (suc fuel))) N stride i b A.nothing
        ≡ some (A.add (b.cell i) (b.cell (i + stride)))
  unfolding sum_stride
  sum_stride_two fuel N stride i b l e s m =
      let below : i < N = omega (arith, l, e) in
      let within : i < b.size = omega (arith, below, s) in
      let next : (i + stride) % 2 ^ 32 ≡ i + stride = omega (arith, l, m, e) in
      let below' : i + stride < N = omega (arith, l, e) in
      let within' : i + stride < b.size = omega (arith, below', s) in
      let past : N ≤ (i + stride + stride) % 2 ^ 32 = omega (arith, l, m, e) in
      rw (next, ltb_lt below, ltb_lt within, ltb_lt below', ltb_lt within', ltb_ge past)
        (ap some (L.start (b.cell i) (b.cell (i + stride))))

  compact_item-halve :
      (N stride i : ℕ) (b : Buffer T)
      → i < stride
      → N ≡ stride + stride
      → N ≤ b.size
      → N + stride < 2 ^ 32
      → compact_item A N stride i b ≡ some (halve A stride i b)
  unfolding compact_item
  compact_item-halve N stride i b l e s m =
      let fuel : N ≡ suc (suc (N - 2)) = omega (arith, l, e) in
      let sum : sum_stride A (suc N) N stride i b A.nothing
          ≡ some (A.add (b.cell i) (b.cell (i + stride))) =
        subst
          (λ f.
            sum_stride A (suc f) N stride i b A.nothing
            ≡ some (A.add (b.cell i) (b.cell (i + stride))))
          (sym fuel) (sum_stride_two (N - 2) N stride i b l e s m) in
      let within : i < b.size = omega (arith, l, e, s) in rw (sum, ltb_lt l, ltb_lt within) refl

  inner_item-halve :
      (remaining i : ℕ) (b : Buffer T)
      → remaining + remaining ≤ b.size
      → inner_item A remaining i b ≡ some (halve A remaining i b)
  unfolding inner_item
  inner_item-halve remaining i b s = elim (Bool-cases (ltb i remaining)) [
    | inl e ↦
        let l : i < remaining = ground (arith, e) in
        let swap : remaining + i ≡ i + remaining = omega arith in
        let within : i < b.size = omega (arith, l, s) in
        let within' : i + remaining < b.size = omega (arith, l, s) in
        rw (e, swap, ltb_lt within, ltb_lt within') refl
    | inr e ↦ rw e refl
  ]

  module _ (schedule : Schedule) (fair : IsFair schedule) (rows : ℕ) (some_row : 0 < rows)
      (sums : ℕ → T) where
    Sums-Halved :
        (cols size : ℕ) (b b' : Buffer T)
        → 0 < cols
        → Sums A rows sums (cols + cols) size b
        → Halved A (cols * rows) b b'
        → Sums A rows sums cols size b'
    Sums-Halved cols size b b' p (e, s) h =
        (h.size ∙ e, λ r l. row_sum-halve A L rows cols b.cell b'.cell p h.added r l ∙ s r l)

    pub compact-Sums :
        (cols size : ℕ) (b : Buffer T)
        → 0 < cols
        → (cols + cols) * rows ≤ size
        → (cols + cols) * rows + cols * rows < 2 ^ 32
        → Sums A rows sums (cols + cols) size b
        → Gives
            (Sums A rows sums cols size)
            (reduce_vector_parcol_compact A schedule ((cols + cols) * rows) (cols * rows) b)
    unfolding reduce_vector_parcol_compact
    compact-Sums cols size b p fits narrow s =
        let twice : (cols + cols) * rows ≡ cols * rows + cols * rows = grind arith in
        Gives-map (Halved A (cols * rows) b) (Sums A rows sums cols size)
          (λ b' h. Sums-Halved cols size b b' p s h) _
          (run_items-Halved A (cols * rows) (cols * rows) size
            (compact_item A ((cols + cols) * rows) (cols * rows))
            (λ i b' l e.
              compact_item-halve ((cols + cols) * rows) (cols * rows) i b' l twice (rw e fits)
                narrow)
            (schedule.items (cols * rows)) b (omega arith) (fair.items (cols * rows)) s.0)

    pub inner_items-Sums :
        (local_size cols size : ℕ) (b : Buffer T)
        → 0 < cols
        → (cols + cols) * rows ≤ size
        → cols * rows ≤ local_size
        → Sums A rows sums (cols + cols) size b
        → Gives (Sums A rows sums cols size) (
            run_items
              (inner_item A (cols * rows))
              (schedule.local_items local_size (cols * rows))
              b)
    inner_items-Sums local_size cols size b p fits most s =
        let twice : (cols + cols) * rows ≡ cols * rows + cols * rows = grind arith in
        Gives-map (Halved A (cols * rows) b) (Sums A rows sums cols size)
          (λ b' h. Sums-Halved cols size b b' p s h) _
          (run_items-Halved A local_size (cols * rows) size (inner_item A (cols * rows))
            (λ i b' l e. inner_item-halve (cols * rows) i b' (rw (e, ← twice) fits))
            (schedule.local_items local_size (cols * rows)) b most
            (fair.local_items local_size (cols * rows)) s.0)

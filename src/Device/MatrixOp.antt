-- ===== src/Device/MatrixOp.antt =====
-- What the method `matrix` of `MatrixBinaryOp` computes, in any order of its work-items.
use cl_kmeans.Prelude.{
  ltb_lt, ℕ, ◌*◌, ◌<◌, ◌≤◌, List, [], ◌∷◌, some, ◌≡◌, ◌≢◌, ==_iff, ◌∙◌, inl, inr, refl, ap, arith,
  ltb, ◌==◌, true, Gives, Gives-map, Gives-known,
}
use cl_kmeans.Device.Buffers.{
  Buffer, written, run_items, times, times_self, times_other, eq_cases, Distinct, Distinct-head,
  Distinct-rest,
}
use cl_kmeans.Device.MassUpdate.{Range, matrix_item, matrix}
use cl_kmeans.Device.Reduce.{Schedule}
use cl_kmeans.Device.Rounds.{IsFair}

module _ {T : Type 0} (op : T → T → T) (snd : Buffer T) (n : ℕ) (room : n ≤ snd.size) where
  record Applied (order : List ℕ) (b b' : Buffer T) : Type 0 where
    size : b'.size ≡ b.size
    done : (i : ℕ) → times i order ≡ 1 → b'.cell i ≡ op (b.cell i) (snd.cell i)
    others : (i : ℕ) → times i order ≡ 0 → b'.cell i ≡ b.cell i

  abbrev applied : (x : ℕ) → Buffer T → Buffer T
  applied x b = record b { cell = written b.cell x (op (b.cell x) (snd.cell x)) }

  matrix_item_lem :
      (x : ℕ) (b : Buffer T) → x < n → n ≤ b.size → matrix_item op snd x b ≡ some (applied x b)
  unfolding matrix_item
  matrix_item_lem x b l s =
      let here : ltb x snd.size ≡ true = ltb_lt (omega (arith, l, room)) in
      let there : ltb x b.size ≡ true = ltb_lt (omega (arith, l, s)) in rw (here, there) refl

  applied_other : (x i : ℕ) (b : Buffer T) → x ≢ i → (applied x b).cell i ≡ b.cell i
  applied_other x i b e = ground (arith, e)

  applied_self :
      (x i : ℕ) (b : Buffer T) → x ≡ i → (applied x b).cell i ≡ op (b.cell i) (snd.cell i)
  applied_self x i b e = ground (arith, e)

  Applied-cons :
      (x : ℕ) (order : List ℕ) (b b' : Buffer T)
      → times x order ≡ 0
      → Applied order (applied x b) b'
      → Applied (x ∷ order) b b'
  Applied-cons x order b b' once p = record {
    size = p.size;
    done = λ i t. elim (eq_cases x i) [
      | inl e ↦ p.others i (omega (arith, times_self x i order e, t)) ∙ applied_self x i b e
      | inr e ↦
          p.done i (omega (arith, times_other x i order e, t))
          ∙ ap (λ v. op v (snd.cell i)) (applied_other x i b e)
    ];
    others = λ i t. elim (eq_cases x i) [
      | inl e ↦ absurd (omega (arith, times_self x i order e, t))
      | inr e ↦ p.others i (omega (arith, times_other x i order e, t)) ∙ applied_other x i b e
    ];
  }

  run_items-Applied :
      (order : List ℕ) (b : Buffer T)
      → Distinct n order
      → n ≤ b.size
      → Gives (Applied order b) (run_items (matrix_item op snd) order b)
  unfolding run_items
  run_items-Applied [] b o s = record {
    size = refl;
    done = λ i t. absurd (omega (arith, t));
    others = λ i t. refl;
  }
  run_items-Applied (x ∷ order) b o s =
      let (l, t) = Distinct-head n x order o in
      Gives-known (Applied (x ∷ order) b) (matrix_item op snd x b) _ (matrix_item_lem x b l s) (
        Gives-map (Applied order (applied x b)) (Applied (x ∷ order) b)
          (λ b' p. Applied-cons x order b b' t p)
          (run_items (matrix_item op snd) order (applied x b))
          (run_items-Applied order (applied x b) (Distinct-rest n x order o) s))

module _ {T : Type 0} (op : T → T → T) (schedule : Schedule) (fair : IsFair schedule)
    (num_cols num_rows : ℕ) (fst snd : Range T) (fst_length : fst.length ≡ num_cols * num_rows)
    (snd_length : snd.length ≡ num_cols * num_rows)
    (fst_room : num_cols * num_rows ≤ fst.vector.size)
    (snd_room : num_cols * num_rows ≤ snd.vector.size) where
  -- The operation is applied to each element of the first matrix once.
  pub matrix_lem :
      Gives
        (λ b.
          (b.size ≡ fst.vector.size)
          × ((i : ℕ)
              → i < num_cols * num_rows
              → b.cell i ≡ op (fst.vector.cell i) (snd.vector.cell i)))
        (matrix op schedule num_cols num_rows fst snd)
  unfolding matrix
  matrix_lem =
      let l : (fst.length == num_cols * num_rows) ≡ true = (==_iff _ _).1 fst_length in
      let k : (snd.length == num_cols * num_rows) ≡ true = (==_iff _ _).1 snd_length in
      let swap : num_rows * num_cols ≡ num_cols * num_rows = grind arith in
      rw (l, k)
        (Gives-map
          (Applied op snd.vector (num_rows * num_cols) (omega (arith, swap, snd_room))
            (schedule.items (num_rows * num_cols)) fst.vector)
          _
          (λ b p. (
            p.size,
            λ i m.
                p.done i (let t = fair.items (num_rows * num_cols) i in ground (arith, t, m, swap)),
          ))
          (run_items (matrix_item op snd.vector) (schedule.items (num_rows * num_cols)) fst.vector)
          (run_items-Applied op snd.vector (num_rows * num_cols) (omega (arith, swap, snd_room))
            (schedule.items (num_rows * num_cols)) fst.vector
            (λ i. let t = fair.items (num_rows * num_cols) i in ground (arith, t))
            (omega (arith, swap, fst_room))))

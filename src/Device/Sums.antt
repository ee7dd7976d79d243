-- ===== src/Device/Sums.antt =====
-- Sums of the values of a buffer's type, and of the columns of a matrix.
use cl_kmeans.Prelude.{ℕ, zero, suc, ◌+◌, ◌-◌, ◌*◌, ◌<◌, ◌≤◌, ◌≡◌, refl, ap, sym, ◌∙◌, arith}

-- The addition of `T`. The kernels start a sum from `nothing`.
pub record Addition (T : Type 0) : Type 0 where
  pub nothing : T
  pub add : T → T → T

-- What the order of a sum does not change.
pub record IsOrderless {T : Type 0} (A : Addition T) : Type 0 where
  pub start : (a b : T) → A.add (A.add A.nothing a) b ≡ A.add a b
  pub comm : (a b : T) → A.add a b ≡ A.add b a
  pub assoc : (a b c : T) → A.add (A.add a b) c ≡ A.add a (A.add b c)

module _ {T : Type 0} (A : Addition T) where
  -- `g 0 + … + g n`
  abbrev pub sum_to : ℕ → (ℕ → T) → T
  sum_to zero g = g 0
  sum_to (suc n) g = A.add (sum_to n g) (g (suc n))

  -- The sum of row `r` of a matrix whose columns have `rows` values.
  abbrev pub row_sum : (rows cols : ℕ) → (ℕ → T) → (r : ℕ) → T
  row_sum rows cols f r = sum_to (cols - 1) (λ c. f (c * rows + r))

  pub sum_to_eq : (n : ℕ) (g h : ℕ → T) → ((c : ℕ) → c ≤ n → g c ≡ h c) → sum_to n g ≡ sum_to n h
  sum_to_eq zero g h e = e 0 (omega arith)
  sum_to_eq (suc n) g h e =
      let ih : sum_to n g ≡ sum_to n h = sum_to_eq n g h (λ c l. e c (omega (arith, l))) in
      let last : g (suc n) ≡ h (suc n) = e (suc n) (omega arith) in
      ap (λ x. A.add x (g (suc n))) ih ∙ ap (A.add (sum_to n h)) last

  module _ (L : IsOrderless A) where
    sum_to-split :
        (m n : ℕ) (g : ℕ → T)
        → sum_to (m + suc n) g ≡ A.add (sum_to m g) (sum_to n (λ c. g (suc m + c)))
    sum_to-split m zero g =
        let e : m + 1 ≡ suc m = omega arith in
        let e' : suc m + 0 ≡ suc m = omega arith in rw (e, e') refl
    sum_to-split m (suc n) g =
        let e : m + suc (suc n) ≡ suc (m + suc n) = omega arith in
        let e' : suc m + suc n ≡ suc (m + suc n) = omega arith in
        rw e (
          ap (λ k. A.add (sum_to (m + suc n) g) (g k)) (sym e')
          ∙ ap (λ x. A.add x (g (suc m + suc n))) (sum_to-split m n g)
          ∙ L.assoc (sum_to m g) (sum_to n (λ c. g (suc m + c))) (g (suc m + suc n)))

    sum_to-add :
        (n : ℕ) (g h : ℕ → T) → sum_to n (λ c. A.add (g c) (h c)) ≡ A.add (sum_to n g) (sum_to n h)
    sum_to-add zero g h = refl
    sum_to-add (suc n) g h =
        ap (λ x. A.add x (A.add (g (suc n)) (h (suc n)))) (sum_to-add n g h)
        ∙ regroup (sum_to n g) (sum_to n h) (g (suc n)) (h (suc n))
      where
        regroup : (a b c d : T) → A.add (A.add a b) (A.add c d) ≡ A.add (A.add a c) (A.add b d)
        regroup a b c d = cc (
          L.assoc a b (A.add c d),
          L.assoc b c d,
          L.comm b c,
          L.assoc c b d,
          L.assoc a c (A.add b d),
        )

    -- A sum over `cols + cols` columns, after the second half has been added to the first.
    pub row_sum-halve :
        (rows cols : ℕ) (f f' : ℕ → T)
        → 0 < cols
        → ((i : ℕ) → i < cols * rows → f' i ≡ A.add (f i) (f (i + cols * rows)))
        → (r : ℕ) → r < rows
        → row_sum rows cols f' r ≡ row_sum rows (cols + cols) f r
    row_sum-halve rows cols f f' p e r l =
        let n : ℕ = cols - 1 in
        let half : cols ≡ suc n = omega (arith, p) in
        let whole : cols + cols - 1 ≡ n + suc n = omega (arith, p) in
        rw whole (
          sum_to_eq n _ _ (λ c k.
            e (c * rows + r) (grind (arith, k, l, p))
            ∙ ap (λ i. A.add (f (c * rows + r)) (f i)) (second half c))
          ∙ sum_to-add n (λ c. f (c * rows + r)) (λ c. f ((suc n + c) * rows + r))
          ∙ sym (sum_to-split n n (λ c. f (c * rows + r))))
      where
        second :
            {n : ℕ} → cols ≡ suc n → (c : ℕ) → c * rows + r + cols * rows ≡ (suc n + c) * rows + r
        second half c = rw half (grind arith)

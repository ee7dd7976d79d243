-- ===== src/Device/Halving.antt =====
-- The step that both kernels of reduce_vector_parcol.cl make, whatever the order of their
-- work-items: the second half of some values is added to the first.
use cl_kmeans.Prelude.{
  ℕ, ◌+◌, ◌<◌, ◌≤◌, List, [], ◌∷◌, Option, some, ◌≡◌, ◌≢◌, ◌∙◌, refl, arith, ltb, inl, inr,
  if◌then◌else◌, Gives, Gives-known, Gives-map,
}
use cl_kmeans.Device.Buffers.{
  Buffer, written, run_items, times, times_self, times_other, eq_cases, Distinct, Distinct-head,
  Distinct-rest, IsOrder,
}
use cl_kmeans.Device.Sums.{Addition}

module _ {T : Type 0} (A : Addition T) where
  -- What the work-item `i` does, of `half` that do something.
  abbrev pub halve : (half i : ℕ) → Buffer T → Buffer T
  halve half i b =
      if ltb i half
      then record b { cell = written b.cell i (A.add (b.cell i) (b.cell (i + half))) }
      else b

  -- What they make of `b` together.
  pub record Halved (half : ℕ) (b b' : Buffer T) : Type 0 where
    pub size : b'.size ≡ b.size
    pub added : (i : ℕ) → i < half → b'.cell i ≡ A.add (b.cell i) (b.cell (i + half))

  record Part (half : ℕ) (order : List ℕ) (b b' : Buffer T) : Type 0 where
    size : b'.size ≡ b.size
    done : (i : ℕ) → i < half → times i order ≡ 1 → b'.cell i ≡ A.add (b.cell i) (b.cell (i + half))
    others : (i : ℕ) → times i order ≡ 0 → b'.cell i ≡ b.cell i
    above : (i : ℕ) → half ≤ i → b'.cell i ≡ b.cell i

  module _ (half x : ℕ) (b : Buffer T) where
    halve-size : (halve half x b).size ≡ b.size
    halve-size = ground arith

    halve-other : (i : ℕ) → x ≢ i → (halve half x b).cell i ≡ b.cell i
    halve-other i h = ground (arith, h)

    halve-above : (i : ℕ) → half ≤ i → (halve half x b).cell i ≡ b.cell i
    halve-above i h = ground (arith, h)

    halve_self :
        (i : ℕ) → x ≡ i → i < half → (halve half x b).cell i ≡ A.add (b.cell i) (b.cell (i + half))
    halve_self i e l = ground (arith, e, l)

  Part-cons :
      (half x : ℕ) (order : List ℕ) (b b' : Buffer T)
      → times x order ≡ 0
      → Part half order (halve half x b) b'
      → Part half (x ∷ order) b b'
  Part-cons half x order b b' once p = record {
    size = p.size ∙ halve-size half x b;
    done = λ i l t. elim (eq_cases x i) [
      | inl e ↦ p.others i (omega (arith, times_self x i order e, t)) ∙ halve_self half x b i e l
      | inr e ↦ p.done i l (omega (arith, times_other x i order e, t)) ∙ (λ k.
          A.add (halve-other half x b i e k) (halve-above half x b (i + half) (omega arith) k))
    ];
    others = λ i t. elim (eq_cases x i) [
      | inl e ↦ absurd (omega (arith, times_self x i order e, t))
      | inr e ↦ p.others i (omega (arith, times_other x i order e, t)) ∙ halve-other half x b i e
    ];
    above = λ i l. p.above i l ∙ halve-above half x b i l;
  }

  module _ (n half size : ℕ) (item : ℕ → Buffer T → Option (Buffer T))
      (does : (i : ℕ) (b : Buffer T)
        → i < n
        → b.size ≡ size
        → item i b ≡ some (halve half i b)) where
    run_items-Part :
        (order : List ℕ) (b : Buffer T)
        → Distinct n order
        → b.size ≡ size
        → Gives (Part half order b) (run_items item order b)
    unfolding run_items
    run_items-Part [] b once e = record {
      size = refl;
      done = λ i l t. absurd (omega (arith, t));
      others = λ i t. refl;
      above = λ i l. refl;
    }
    run_items-Part (x ∷ order) b once e =
        let (l, t) = Distinct-head n x order once in
        Gives-known (Part half (x ∷ order) b) (item x b) _ (does x b l e) (
          Gives-map (Part half order (halve half x b)) (Part half (x ∷ order) b)
            (λ b' p. Part-cons half x order b b' t p) (run_items item order (halve half x b))
            (run_items-Part order (halve half x b) (Distinct-rest n x order once)
              (halve-size half x b ∙ e)))

    pub run_items-Halved :
        (order : List ℕ) (b : Buffer T)
        → half ≤ n
        → IsOrder n order
        → b.size ≡ size
        → Gives (Halved half b) (run_items item order b)
    run_items-Halved order b l o e =
        Gives-map (Part half order b) (Halved half b)
          (λ b' p. record {
            size = p.size;
            added = λ i k. p.done i k (let t = o i in ground (arith, t, l, k));
          })
          (run_items item order b)
          (run_items-Part order b (λ i. let t = o i in ground (arith, t)) e)

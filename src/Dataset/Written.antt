-- ===== src/Dataset/Written.antt =====
-- What `generate_bin` writes.
use cl_kmeans.Prelude.{
  ℕ, suc, ◌+◌, ◌-◌, ◌*◌, ◌^◌, ◌<◌, List, [], ◌∷◌, ◌++◌, ◌≡◌, inl, inr, refl, Bool-cases, ◌==◌, ◌∙◌,
  ap, sym, subst, arith, length, length-append, append_assoc, append-nil, for_range, Gives-for,
  Gives-loop, Gives, Gives-known, Gives-bind, Gives-map,
}
use cl_kmeans.Dataset.Bytes.{bytes}
use cl_kmeans.Dataset.Generator.{
  Settings, Random, Counts, counts, start_of, Writer, write_point, write_cluster, write_feature,
  generate_bin,
}
use cl_kmeans.Dataset.Counts.{IsEven, start_of_lem, counts_lem}

-- The bytes of floats, one after the other.
unfoldable pub floats : List ℕ → List ℕ
floats [] = []
floats (v ∷ vs) = bytes 4 v ++ floats vs

floats-append : (us vs : List ℕ) → floats (us ++ vs) ≡ floats us ++ floats vs
unfolding floats
floats-append [] vs = refl
floats-append (u ∷ us) vs =
    ap (λ bs. bytes 4 u ++ bs) (floats-append us vs)
    ∙ sym (append_assoc (bytes 4 u) (floats us) (floats vs))

-- Each of the numbers is one of four bytes.
abbrev pub AllNarrow : List ℕ → Type 0
AllNarrow [] = Unit
AllNarrow (v ∷ vs) = (v < 2 ^ 32) × AllNarrow vs

AllNarrow-append : (us vs : List ℕ) → AllNarrow us → AllNarrow vs → AllNarrow (us ++ vs)
AllNarrow-append [] vs h k = k
AllNarrow-append (u ∷ us) vs (h, hs) k = (h, AllNarrow-append us vs hs k)

-- A file grown by `n` floats.
pub record Grown (fh : List ℕ) (n : ℕ) (fh' : List ℕ) : Type 0 where
  pub values : List ℕ
  pub count : length values ≡ n
  pub narrow : AllNarrow values
  pub written : fh' ≡ fh ++ floats values

Grown-none : (fh : List ℕ) → Grown fh 0 fh
unfolding floats
Grown-none fh = record { values = []; count = refl; narrow = tt; written = sym (append-nil fh) }

Grown-trans :
    (fh fh' fh'' : List ℕ) (m n k : ℕ)
    → m + n ≡ k
    → Grown fh m fh'
    → Grown fh' n fh''
    → Grown fh k fh''
Grown-trans fh fh' fh'' m n k e g h = record {
  values = g.values ++ h.values;
  count = length-append g.values h.values ∙ omega (arith, e, g.count, h.count);
  narrow = AllNarrow-append g.values h.values g.narrow h.narrow;
  written =
      h.written
      ∙ ap (λ bs. bs ++ floats h.values) g.written
      ∙ append_assoc fh (floats g.values) (floats h.values)
      ∙ ap (λ bs. fh ++ bs) (sym (floats-append g.values h.values));
}

-- Sums of floats are floats.
abbrev pub Narrow : Random → Type 0
Narrow random = (a b : ℕ) → random.plus a b < 2 ^ 32

module _ (random : Random) (narrow : Narrow random) where
  write_point_lem :
      (centroid p : ℕ) (w : Writer random)
      → Gives
          (λ w'. Grown w.fh 1 w'.fh × (w'.remainder ≡ w.remainder))
          (write_point random centroid p w)
  unfolding write_point floats
  write_point_lem centroid p w = (
    record {
      values = random.plus centroid (random.gaussian w.rgen).0 ∷ [];
      count = refl;
      narrow = (narrow centroid (random.gaussian w.rgen).0, tt);
      written =
          ap (λ bs. w.fh ++ bs)
            (sym (append-nil (bytes 4 (random.plus centroid (random.gaussian w.rgen).0))));
    },
    refl,
  )

  write_points :
      (start n centroid : ℕ) (w : Writer random)
      → Gives
          (λ w'. Grown w.fh n w'.fh × (w'.remainder ≡ w.remainder))
          (for_range start n (write_point random centroid) w)
  write_points start n centroid w =
      Gives-map (I (start + n)) _
        (λ w' (g, e). (subst (λ k. Grown w.fh k w'.fh) (omega arith) g, e))
        (for_range start n (write_point random centroid) w)
        (Gives-for I start n (write_point random centroid) w
          (λ p t l h (g, e).
            Gives-map (λ w'. Grown t.fh 1 w'.fh × (w'.remainder ≡ t.remainder)) (I (suc p))
              (λ w' (g', e'). (
                Grown-trans w.fh t.fh w'.fh (p - start) 1 (suc p - start) (omega (arith, l)) g g',
                e' ∙ e,
              ))
              (write_point random centroid p t) (write_point_lem centroid p t))
          (subst (λ k. Grown w.fh k w.fh) (omega arith) (Grown-none w.fh), refl))
    where
      I : ℕ → Writer random → Type 0
      I p w' = Grown w.fh (p - start) w'.fh × (w'.remainder ≡ w.remainder)

  module _ (s : Settings) (n : Counts) where
    write_cluster_lem :
        (c : ℕ) (w : Writer random)
        → Gives
            (λ w'.
              Grown w.fh (n.points_per_cluster - start_of s c w.remainder) w'.fh
              × (w'.remainder ≡ w.remainder - start_of s c w.remainder))
            (write_cluster random s n c w)
    unfolding write_cluster
    write_cluster_lem c w =
        write_points (start_of s c w.remainder) (n.points_per_cluster - start_of s c w.remainder)
          (random.uniform w.rgen).0
          (record {
            rgen = (random.uniform w.rgen).1;
            remainder = w.remainder - start_of s c w.remainder;
            fh = w.fh;
          })

    module _ (even : IsEven s n) where
      -- After `c` clusters of a feature.
      record Clusters (fh : List ℕ) (c : ℕ) (w : Writer random) : Type 0 where
        count : ℕ
        grown : Grown fh count w.fh
        all : count + n.remainder ≡ n.points_per_cluster * c + w.remainder
        left : w.remainder ≡ n.remainder - (c - 1)

      next_cluster :
          (fh : List ℕ) (c : ℕ) (w w' : Writer random)
          → c < s.clusters
          → Clusters fh c w
          → Grown w.fh (n.points_per_cluster - start_of s c w.remainder) w'.fh
          → w'.remainder ≡ w.remainder - start_of s c w.remainder
          → Clusters fh (suc c) w'
      next_cluster fh c w w' l h g e =
          let r_lt : w.remainder < s.clusters = omega (arith, h.left, even.few) in
          elim (start_of_lem s c w.remainder r_lt l) [
            | inl (z, why) ↦ record {
              count = h.count + n.points_per_cluster;
              grown =
                  Grown-trans fh w.fh w'.fh h.count
                    (n.points_per_cluster - start_of s c w.remainder) _ (omega (arith, z)) h.grown
                    g;
              all = grind (arith, h.all, e, z);
              left = elim why [
                | inl a ↦ omega (arith, h.left, e, z, a)
                | inr a ↦ omega (arith, h.left, e, z, a)
              ];
            }
            | inr (z, r, p) ↦ record {
              count = h.count + (n.points_per_cluster - 1);
              grown =
                  Grown-trans fh w.fh w'.fh h.count
                    (n.points_per_cluster - start_of s c w.remainder) _ (omega (arith, z)) h.grown
                    g;
              all = grind (arith, h.all, e, z, r, some_point r);
              left = omega (arith, h.left, e, z, r, p);
            }
          ]
        where
          some_point : 0 < w.remainder → 0 < n.points_per_cluster
          some_point r = elim (Bool-cases (n.points_per_cluster == 0)) [
            | inl b ↦
                let none_left : n.remainder ≡ 0 =
                  (counts_lem s n even.counted).1 (ground (arith, b)) in
                absurd (omega (arith, none_left, h.left, r))
            | inr b ↦ ground (arith, b)
          ]

      write_feature_lem :
          (f : ℕ) (w : Writer random)
          → Gives (λ w'. Grown w.fh n.num_points w'.fh) (write_feature random s n f w)
      unfolding write_feature
      write_feature_lem f w =
          Gives-map (Clusters w.fh s.clusters) (λ w'. Grown w.fh n.num_points w'.fh)
            (λ w' h.
              let (sum_of, _) = counts_lem s n even.counted in
              subst (λ k. Grown w.fh k w'.fh) (omega (arith, h.all, h.left, even.few, sum_of))
                h.grown)
            (for_range 0 s.clusters (write_cluster random s n)
              (record w { remainder = n.remainder }))
            (Gives-loop (Clusters w.fh) s.clusters (write_cluster random s n)
              (record w { remainder = n.remainder })
              (λ c t l h.
                Gives-map _ (Clusters w.fh (suc c)) (λ w' (g, e). next_cluster w.fh c t w' l h g e)
                  (write_cluster random s n c t) (write_cluster_lem c t))
              (record {
                count = 0;
                grown = Grown-none w.fh;
                all = omega arith;
                left = omega arith;
              }))

      -- Where fewer points are left out than there are clusters, and sums of floats are floats,
      -- `generate_bin` returns: a header of the number of features, 0, and the number of points,
      -- and then as many floats as there are points and features.
      pub generate_bin_lem :
          Gives
            (λ fh.
              Grown
                (bytes 8 s.features ++ bytes 8 0 ++ bytes 8 n.num_points)
                (n.num_points * s.features)
                fh)
            (generate_bin random s)
      unfolding generate_bin
      generate_bin_lem = Gives-known _ (counts s) _ even.counted (
          Gives-bind _ (λ w. Grown header (n.num_points * s.features) w.fh)
            (for_range 0 s.features (write_feature random s n) first) _
            (Gives-loop (λ f w. Grown header (n.num_points * f) w.fh) s.features
              (write_feature random s n) first
              (λ f t l g.
                Gives-map (λ w'. Grown t.fh n.num_points w'.fh) _
                  (λ w' g'.
                    Grown-trans header t.fh w'.fh (n.num_points * f) n.num_points
                      (n.num_points * suc f) (grind arith) g g')
                  (write_feature random s n f t) (write_feature_lem f t))
              (subst (λ k. Grown header k header) (grind arith) (Grown-none header)))
            (λ w g. g))
        where
          header : List ℕ
          header = bytes 8 s.features ++ bytes 8 0 ++ bytes 8 n.num_points

          first : Writer random
          first = record { rgen = random.start; remainder = n.remainder; fh = header }

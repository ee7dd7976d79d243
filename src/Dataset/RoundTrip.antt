-- ===== src/Dataset/RoundTrip.antt =====
-- What `generate_bin` writes, `read` reads.
use cl_kmeans.Prelude.{
  ℕ, ◌*◌, ◌^◌, ◌<◌, List, ◌++◌, map, some, ◌≡◌, ◌∙◌, ap, arith, length, append_assoc, Gives,
  Gives-map,
}
use cl_kmeans.Kmeans.Matrix.{Matrix}
use cl_kmeans.Dataset.Bytes.{bytes, read-bytes}
use cl_kmeans.Dataset.Generator.{Settings, Random, Counts, generate_bin}
use cl_kmeans.Dataset.Format.{read}
use cl_kmeans.Dataset.Counts.{IsEven}
use cl_kmeans.Dataset.Written.{floats, AllNarrow, Narrow, Grown, generate_bin_lem}
use cl_kmeans.Dataset.Reading.{read_features_lem}

module _ {T : Type 0} (convert : ℕ → T) (default : T) where
  -- A file with a header and floats.
  pub read_lem :
      (num_points num_features : ℕ) (values : List ℕ) (m : Matrix T)
      → num_points < 2 ^ 64
      → num_features < 2 ^ 64
      → num_points * num_features < 2 ^ 64
      → length values ≡ num_points * num_features
      → AllNarrow values
      → read convert default
          ((bytes 8 num_features ++ bytes 8 0 ++ bytes 8 num_points) ++ floats values)
          m
        ≡ some (record { raw = map convert values; x_dim = num_points; y_dim = num_features })
  unfolding read
  read_lem num_points num_features values m p q room size narrow =
      rw
        (
          append_assoc (bytes 8 num_features ++ bytes 8 0) (bytes 8 num_points) (floats values),
          append_assoc (bytes 8 num_features) (bytes 8 0) (bytes 8 num_points ++ floats values),
        )
        (rw
          (read-bytes 8 num_features (bytes 8 0 ++ (bytes 8 num_points ++ floats values))
            (omega (arith, q)))
          (rw (read-bytes 8 0 (bytes 8 num_points ++ floats values) (omega arith)) (
            rw (read-bytes 8 num_points (floats values) (omega (arith, p))) (
              read_features_lem convert default num_points num_features room values m size
                narrow))))

  module _ (random : Random) (narrow : Narrow random) (s : Settings) (n : Counts)
      (even : IsEven s n) where
    -- Where fewer points are left out than there are clusters, sums of floats are floats, and the
    -- sizes are below 2 ^ 64: `generate_bin` returns a file, and `read` of that file returns a
    -- matrix of the number of points and of features, with all the floats that stand behind the
    -- header, in their order, column by column.
    pub read-generate_bin :
        (m : Matrix T)
        → s.features < 2 ^ 64
        → n.num_points < 2 ^ 64
        → n.num_points * s.features < 2 ^ 64
        → Gives
            (λ fh.
              (g : Grown
                (bytes 8 s.features ++ bytes 8 0 ++ bytes 8 n.num_points)
                (n.num_points * s.features)
                fh)
              × (read convert default fh m
                  ≡ some (record {
                    raw = map convert g.values;
                    x_dim = n.num_points;
                    y_dim = s.features;
                  })))
            (generate_bin random s)
    read-generate_bin m p q room =
        Gives-map _ _
          (λ fh g. (
            g,
            ap (λ bs. read convert default bs m) g.written
                ∙ read_lem n.num_points s.features g.values m q p room g.count g.narrow,
          ))
          (generate_bin random s) (generate_bin_lem random narrow s n even)

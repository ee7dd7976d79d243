-- ===== src/Dataset/Reading.antt =====
-- What `read` makes of a file of floats.
use native.Mathlib.Nat.{mul-le-mul_left}
use cl_kmeans.Prelude.{
  ℕ, suc, ◌+◌, ◌*◌, ◌%◌, ◌^◌, ◌<◌, List, [], ◌∷◌, ◌++◌, map, some, ◌≡◌, refl, ◌∙◌, ap, sym, subst,
  arith, length, length-append, append_assoc, append-nil, modify_middle, map-append, leb, false,
  for_range, Gives-loop, Gives, Gives-bind, Gives-eq, Gives-result,
}
use cl_kmeans.Kmeans.Matrix.{Matrix, resize, assign, resize-IsShaped}
use cl_kmeans.Dataset.Bytes.{read-bytes}
use cl_kmeans.Dataset.Format.{read_point, read_feature, read_features}
use cl_kmeans.Dataset.Written.{floats, AllNarrow}

length_zero : {A : Type 0} (xs : List A) → length xs ≡ 0 → xs ≡ []
length_zero [] e = refl
length_zero (x ∷ xs) e = absurd (omega (arith, e))

matrix_eq :
    {T : Type 0} (m : Matrix T) {raw : List T} {x_dim y_dim : ℕ}
    → m.raw ≡ raw
    → m.x_dim ≡ x_dim
    → m.y_dim ≡ y_dim
    → m ≡ record { raw = raw; x_dim = x_dim; y_dim = y_dim }
matrix_eq m e e' e'' = λ i. record { raw = e i; x_dim = e' i; y_dim = e'' i }

length-map : {A B : Type 0} (f : A → B) (xs : List A) → length (map f xs) ≡ length xs
length-map f [] = refl
length-map f (x ∷ xs) = ap suc (length-map f xs)

-- `read_point` where the file begins with a float and the vector has an element in its place.
read_one :
    {T : Type 0} (convert : ℕ → T) (default : T) (f p v : ℕ) (done vs : List ℕ) (old : List T)
    (o : T) (s : List ℕ × Matrix T)
    → s.0 ≡ floats (v ∷ vs)
    → v < 2 ^ 32
    → s.1.raw ≡ map convert done ++ o ∷ old
    → length done ≡ s.1.x_dim * f + p
    → s.1.x_dim * f + p < 2 ^ 64
    → read_point convert default f p s
      ≡ some (floats vs, record s.1 { raw = map convert done ++ convert v ∷ old })
unfolding read_point assign floats
read_one convert default f p v done vs old o s file narrow raw count small =
    let here : (s.1.x_dim * f + p) % 2 ^ 64 ≡ length (map convert done) =
      omega (arith, small, count, length-map convert done) in
    let inside : leb (length (map convert done ++ o ∷ old)) (length (map convert done)) ≡ false =
      ground (arith, length-append (map convert done) (o ∷ old)) in
    rw file (
      rw (read-bytes 4 v (floats vs) narrow)
        (rw (raw, here) (rw inside (rw (modify_middle (map convert done) old o (convert v)) refl))))

module _ {T : Type 0} (convert : ℕ → T) (default : T) (num_points num_features : ℕ)
    (room : num_points * num_features < 2 ^ 64) where
  -- After `k` floats: the elements that were read lie at the begin of the vector.
  record Reading (values : List ℕ) (k : ℕ) (s : List ℕ × Matrix T) : Type 0 where
    done : List ℕ
    todo : List ℕ
    old : List T
    split : values ≡ done ++ todo
    count : length done ≡ k
    narrow : AllNarrow todo
    file : s.0 ≡ floats todo
    raw : s.1.raw ≡ map convert done ++ old
    same : length old ≡ length todo
    x_dim : s.1.x_dim ≡ num_points
    y_dim : s.1.y_dim ≡ num_features

  index_lt :
      (f p : ℕ) → f < num_features → p < num_points → num_points * f + p < num_points * num_features
  index_lt f p l h = grind (arith, mul-le-mul_left num_points l)

  next_point :
      (values : List ℕ) (f p : ℕ) (s : List ℕ × Matrix T)
      → length values ≡ num_points * num_features
      → f < num_features
      → p < num_points
      → (r : Reading values (num_points * f + p) s) → (todo : List ℕ) → r.todo ≡ todo
      → (old : List T) → r.old ≡ old
      → Gives (Reading values (num_points * f + suc p)) (read_point convert default f p s)
  next_point values f p s size l h r [] e old e' = absurd (
      omega (
        arith,
        size,
        r.count,
        index_lt f p l h,
        ap length r.split,
        length-append r.done r.todo,
        ap length e,
      ))
  next_point values f p s size l h r (v ∷ vs) e [] e' =
      absurd (omega (arith, ap length e, ap length e', r.same))
  next_point values f p s size l h r (v ∷ vs) e (o ∷ old) e' =
      let i_lt = index_lt f p l h in
      let (v_narrow, vs_narrow) : AllNarrow (v ∷ vs) = subst AllNarrow e r.narrow in
      Gives-eq _
        (read_one convert default f p v r.done vs old o s (r.file ∙ ap floats e) v_narrow
          (r.raw ∙ ap (λ l. map convert r.done ++ l) e') (omega (arith, r.count, x_at))
          (omega (arith, x_at, i_lt, room)))
        (record {
          done = r.done ++ v ∷ [];
          todo = vs;
          old = old;
          split = r.split ∙ ap (λ l. r.done ++ l) e ∙ sym (append_assoc r.done (v ∷ []) vs);
          count = length-append r.done (v ∷ []) ∙ omega (arith, r.count);
          narrow = vs_narrow;
          file = refl;
          raw =
              sym (append_assoc (map convert r.done) (convert v ∷ []) old)
              ∙ ap (λ l. l ++ old) (sym (map-append convert r.done (v ∷ [])));
          same = omega (arith, ap length e, ap length e', r.same);
          x_dim = r.x_dim;
          y_dim = r.y_dim;
        })
    where
      x_at : s.1.x_dim * f ≡ num_points * f
      x_at = ap (λ n. n * f) r.x_dim

  read_point_lem :
      (values : List ℕ) (f p : ℕ) (s : List ℕ × Matrix T)
      → length values ≡ num_points * num_features
      → f < num_features
      → p < num_points
      → Reading values (num_points * f + p) s
      → Gives (Reading values (num_points * f + suc p)) (read_point convert default f p s)
  read_point_lem values f p s size l h r = next_point values f p s size l h r r.todo refl r.old refl

  read_feature_lem :
      (values : List ℕ) (f : ℕ) (s : List ℕ × Matrix T)
      → length values ≡ num_points * num_features
      → f < num_features
      → Reading values (num_points * f) s
      → Gives (Reading values (num_points * suc f)) (read_feature convert default num_points f s)
  unfolding read_feature
  read_feature_lem values f s size l r =
      subst
        (λ k. Gives (Reading values k) (for_range 0 num_points (read_point convert default f) s))
        (grind arith)
        (Gives-loop (λ p. Reading values (num_points * f + p)) num_points
          (read_point convert default f) s (λ p t h q. read_point_lem values f p t size l h q)
          (subst (λ k. Reading values k s) (omega arith) r))

  -- A file of as many floats as the matrix has elements is read whole: the vector has the floats
  -- in their order.
  pub read_features_lem :
      (values : List ℕ) (m : Matrix T)
      → length values ≡ num_points * num_features
      → AllNarrow values
      → read_features convert default num_features num_points (floats values) m
        ≡ some (record { raw = map convert values; x_dim = num_points; y_dim = num_features })
  unfolding read_features resize
  read_features_lem values m size narrow = Gives-result _ (
      Gives-bind _ (Reading values (num_points * num_features))
        (for_range 0 num_features (read_feature convert default num_points) (floats values, first))
        _
        (Gives-loop (λ f. Reading values (num_points * f)) num_features
          (read_feature convert default num_points) (floats values, first)
          (λ f t l r. read_feature_lem values f t size l r)
          (record {
            done = [];
            todo = values;
            old = first.raw;
            split = refl;
            count = grind arith;
            narrow = narrow;
            file = refl;
            raw = refl;
            same = (resize-IsShaped default num_points num_features m room).size ∙ sym size;
            x_dim = refl;
            y_dim = refl;
          }))
        (λ s r.
          let nothing : r.todo ≡ [] =
            length_zero r.todo
              (omega (arith, size, r.count, ap length r.split, length-append r.done r.todo)) in
          let nothing_old : r.old ≡ [] = length_zero r.old (r.same ∙ ap length nothing) in
          let all : values ≡ r.done = r.split ∙ ap (λ l. r.done ++ l) nothing ∙ append-nil r.done in
          let raw : s.1.raw ≡ map convert values =
            r.raw
            ∙ ap (λ l. map convert r.done ++ l) nothing_old
            ∙ append-nil (map convert r.done)
            ∙ ap (map convert) (sym all) in
          matrix_eq s.1 raw r.x_dim r.y_dim))
    where
      first : Matrix T
      first = resize default num_points num_features m

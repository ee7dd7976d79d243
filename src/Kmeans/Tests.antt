-- ===== src/Kmeans/Tests.antt =====
-- Runs of the initializer on small matrices, and instances of its theorems.
use cl_kmeans.Prelude.{ℕ, ◌+◌, ◌-◌, ◌/◌, ltb, ◌%◌, ◌*◌, ◌<◌, [], ◌∷◌, some, ◌≡◌, refl, arith, Gives}
use cl_kmeans.Kmeans.Matrix.{Matrix, rows, cols, at, assign, IsShaped, Assigned, assign_lem}
use cl_kmeans.Kmeans.Naive.{Arithmetic, nearest, cluster}
use cl_kmeans.Kmeans.Labels.{Laws, IsNearest, nearest-IsNearest}
use cl_kmeans.Kmeans.Initializer.{first_x, forgy, Filled, first_x-fills, forgy-fills}

-- Two points of two dimensions, and three centroids.
abbrev points : Matrix ℕ
points = record { raw = 1 ∷ 2 ∷ 3 ∷ 4 ∷ []; x_dim = 2; y_dim = 2 }

abbrev centroids : Matrix ℕ
centroids = record { raw = 0 ∷ 0 ∷ 0 ∷ 0 ∷ 0 ∷ 0 ∷ []; x_dim = 3; y_dim = 2 }

points_IsShaped : IsShaped points
points_IsShaped = record { size = refl; narrow = omega arith }

centroids_IsShaped : IsShaped centroids
centroids_IsShaped = record { size = refl; narrow = omega arith }

first_x_run :
    first_x points centroids
    ≡ some (record { raw = 1 ∷ 2 ∷ 1 ∷ 3 ∷ 4 ∷ 3 ∷ []; x_dim = 3; y_dim = 2 })
unfolding first_x at assign
first_x_run = refl

assign_lem_example : Gives (Assigned points 1 0 9) (assign points 1 0 9)
assign_lem_example = assign_lem points 1 0 9 points_IsShaped (omega arith) (omega arith)

first_x-fills_example :
    Gives
      (λ m.
        IsShaped m
        × (rows m ≡ 3)
        × (cols m ≡ 2)
        × ((c d : ℕ) → c < 3 → d < 2 → at m c d ≡ at points (c % 2) d))
      (first_x points centroids)
first_x-fills_example =
    first_x-fills points centroids points_IsShaped (omega arith) (omega arith) centroids_IsShaped

forgy-fills_example :
    Gives
      (Filled points centroids points_IsShaped (λ c. (7 * c) % 2) (λ _ _. Unit))
      (forgy points (λ c. 7 * c) centroids)
forgy-fills_example =
    forgy-fills points centroids points_IsShaped (omega arith) (omega arith) (λ c. 7 * c)
      centroids_IsShaped

-- Natural numbers, with the absolute value of a difference.
abbrev naturals : Arithmetic
naturals = record {
  Point = ℕ;
  zero_point = 0;
  max_point = 1000000;
  add = λ x y. x + y;
  sub = λ x y. (x - y) + (y - x);
  mul = λ x y. x * y;
  div = λ x y. x / y;
  less = ltb;
  of_mass = λ m. m;
}

naturals_Laws : Laws naturals
naturals_Laws = record { irreflexive = λ a. ground arith; transitive = λ a b c h k. ground arith }

abbrev three : Matrix ℕ
three = record { raw = 9 ∷ 2 ∷ 1 ∷ 3 ∷ 4 ∷ 3 ∷ []; x_dim = 3; y_dim = 2 }

three_IsShaped : IsShaped three
three_IsShaped = record { size = refl; narrow = omega arith }

nearest_run :
    nearest naturals points 32 1 three ≡ some (record { min_distance = 0; min_centroid = 1 })
unfolding nearest at
nearest_run = refl

nearest-IsNearest_example :
    Gives
      (IsNearest naturals naturals_Laws 32 points three points_IsShaped three_IsShaped
        (omega arith)
        1
        (omega arith)
        3)
      (nearest naturals points 32 1 three)
nearest-IsNearest_example =
    nearest-IsNearest naturals naturals_Laws 32 points three points_IsShaped three_IsShaped
      (omega arith) 1 (omega arith)

-- One round: both points go to centroid 0, which moves between them.
one_round :
    cluster naturals points 32 1 (record {
      centroids = record { raw = 1 ∷ 9 ∷ 4 ∷ 9 ∷ []; x_dim = 2; y_dim = 2 };
      cluster_mass = 0 ∷ 0 ∷ [];
      labels = 1 ∷ 1 ∷ [];
      compensation = three;
    })
    ≡ some (record {
      centroids = record { raw = 1 ∷ 0 ∷ 3 ∷ 0 ∷ []; x_dim = 2; y_dim = 2 };
      cluster_mass = 2 ∷ 0 ∷ [];
      labels = 0 ∷ 0 ∷ [];
      compensation = record { raw = 0 ∷ 0 ∷ 0 ∷ 0 ∷ []; x_dim = 2; y_dim = 2 };
    })
unfolding cluster at assign
one_round = refl

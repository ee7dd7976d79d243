-- ===== src/Kmeans/Matrix.antt =====
-- `cle::Matrix` (matrix.hpp) in column-major order, with `size_t` dimensions.
use native.Mathlib.Nat.{mul-le-mul_left}
use mathlib.Core.Option
use cl_kmeans.Prelude.{
  ℕ, zero, suc, ◌+◌, ◌*◌, ◌%◌, ◌^◌, ◌≤◌, ◌<◌, List, [], ◌∷◌, Option, none, some, ◌≡◌, ◌≢◌, ◌⊎◌, inl,
  inr, refl, ◌∙◌, ap, sym, arith, length, get_elem?, modify, ltb, leb, Bool-cases, if◌then◌else◌,
  length-modify, get_elem?-modify_self, get_elem?-modify_ne, get_elem?-some, Gives, Gives-if,
}

pub record Matrix (T : Type 0) : Type 0 where
  pub raw : List T
  pub x_dim : ℕ
  pub y_dim : ℕ

-- An index of a greater column is greater.
column_le : (k x y x' y' : ℕ) → x < k → k * y + x ≡ k * y' + x' → y' ≤ y
column_le k x y x' y' p e = elim (Bool-cases (ltb y y')) [
  | inl h ↦ absurd (let less : y < y' = ground arith in omega (arith, mul-le-mul_left k less, p, e))
  | inr h ↦ ground arith
]

module _ {T : Type 0} where
  abbrev pub rows : Matrix T → ℕ
  rows m = m.x_dim

  abbrev pub cols : Matrix T → ℕ
  cols m = m.y_dim

  -- `x_dim_ * y + x`
  unfoldable pub position : Matrix T → (x y : ℕ) → ℕ
  position m x y = (m.x_dim * y + x) % 2 ^ 64

  -- A read through `operator()`; `none` is out of the vector's bounds.
  unfoldable pub at : Matrix T → (x y : ℕ) → Option T
  unfolding position
  at m x y = get_elem? m.raw (position m x y)

  -- A write through the reference that `operator()` returns.
  unfoldable pub assign : Matrix T → (x y : ℕ) → T → Option (Matrix T)
  unfolding position
  assign m x y v =
      if leb (length m.raw) (position m x y)
      then none
      else some (record m { raw = modify m.raw (position m x y) (λ _. v) })

  -- `std::vector::resize`: elements are dropped, or `default` ones added.
  unfoldable pub resize_vector : T → (n : ℕ) → List T → List T
  resize_vector default zero raw = []
  resize_vector default (suc n) [] = default ∷ resize_vector default n []
  resize_vector default (suc n) (v ∷ raw) = v ∷ resize_vector default n raw

  unfoldable pub resize : T → (x_dim y_dim : ℕ) → Matrix T → Matrix T
  unfolding resize_vector
  resize default x_dim y_dim m = record {
    raw = resize_vector default ((x_dim * y_dim) % 2 ^ 64) m.raw;
    x_dim = x_dim;
    y_dim = y_dim;
  }

  length-resize_vector :
      (default : T) (n : ℕ) (raw : List T) → length (resize_vector default n raw) ≡ n
  unfolding resize_vector
  length-resize_vector default zero raw = refl
  length-resize_vector default (suc n) [] = ap suc (length-resize_vector default n [])
  length-resize_vector default (suc n) (v ∷ raw) = ap suc (length-resize_vector default n raw)

  -- The vector has an element for each pair of indices.
  pub record IsShaped (m : Matrix T) : Type 0 where
    pub size : length m.raw ≡ m.x_dim * m.y_dim
    pub narrow : m.x_dim * m.y_dim < 2 ^ 64

  pub resize-IsShaped :
      (default : T) (x_dim y_dim : ℕ) (m : Matrix T)
      → x_dim * y_dim < 2 ^ 64
      → IsShaped (resize default x_dim y_dim m)
  unfolding resize
  resize-IsShaped default x_dim y_dim m narrow = record {
    size = length-resize_vector default ((x_dim * y_dim) % 2 ^ 64) m.raw ∙ omega (arith, narrow);
    narrow = narrow;
  }

  position_lem :
      (m : Matrix T) (x y : ℕ)
      → IsShaped m
      → x < m.x_dim
      → y < m.y_dim
      → (position m x y ≡ m.x_dim * y + x) × (position m x y < length m.raw)
  unfolding position
  position_lem m x y shaped p q =
      let next = mul-le-mul_left m.x_dim q in ground (arith, next, shaped.size, shaped.narrow)

  -- Elements of different columns or rows are apart.
  position-injective :
      (m : Matrix T) (x y x' y' : ℕ)
      → IsShaped m
      → x < m.x_dim
      → y < m.y_dim
      → x' < m.x_dim
      → y' < m.y_dim
      → position m x y ≡ position m x' y'
      → (x ≡ x') × (y ≡ y')
  position-injective m x y x' y' shaped p q p' q' e =
      let (here, _) = position_lem m x y shaped p q in
      let (there, _) = position_lem m x' y' shaped p' q' in
      let same : m.x_dim * y + x ≡ m.x_dim * y' + x' = sym here ∙ e ∙ there in
      let column : y ≡ y' =
        omega
          (arith, column_le m.x_dim x y x' y' p same, column_le m.x_dim x' y' x y p' (sym same)) in
      (omega (arith, ap (λ z. m.x_dim * z) column, same), column)

  pub at_lem :
      (m : Matrix T) (x y : ℕ)
      → IsShaped m
      → x < m.x_dim
      → y < m.y_dim
      → (v : T) × (at m x y ≡ some v)
  unfolding at
  at_lem m x y shaped p q = get_elem?-some m.raw (position m x y) (position_lem m x y shaped p q).1

  -- What an assignment of `v` to row `x` and column `y` leaves: the dimensions, `v` in its place,
  -- and the others as they were.
  pub record Assigned (m : Matrix T) (x y : ℕ) (v : T) (m' : Matrix T) : Type 0 where
    pub shaped : IsShaped m'
    pub x_dim : m'.x_dim ≡ m.x_dim
    pub y_dim : m'.y_dim ≡ m.y_dim
    pub here : at m' x y ≡ some v
    pub others :
        (x' y' : ℕ) → x' < m.x_dim → y' < m.y_dim → (x ≢ x') ⊎ (y ≢ y') → at m' x' y' ≡ at m x' y'

  -- An assignment within the dimensions of a matrix with an element for each pair of indices
  -- returns, changes that element alone, and keeps the dimensions.
  pub assign_lem :
      (m : Matrix T) (x y : ℕ) (v : T)
      → IsShaped m
      → x < m.x_dim
      → y < m.y_dim
      → Gives (Assigned m x y v) (assign m x y v)
  unfolding assign at
  assign_lem m x y v shaped p q =
      Gives-if (Assigned m x y v) (leb (length m.raw) (position m x y)) _ _
        (λ out. absurd (ground (arith, inside)))
        (λ _. record {
          shaped = record {
            size = length-modify m.raw (position m x y) (λ _. v) ∙ shaped.size;
            narrow = shaped.narrow;
          };
          x_dim = refl;
          y_dim = refl;
          here =
              get_elem?-modify_self m.raw (position m x y) (λ _. v)
              ∙ ap (Option.map (λ _. v)) (at_lem m x y shaped p q).1;
          others = λ x' y' p' q' apart.
              get_elem?-modify_ne m.raw (position m x y) (position m x' y') (λ _. v)
                λ e. elim apart [
                  | inl h ↦ h (position-injective m x y x' y' shaped p q p' q' e).0
                  | inr h ↦ h (position-injective m x y x' y' shaped p q p' q' e).1
                ];
        })
    where
      inside : position m x y < length m.raw
      inside = (position_lem m x y shaped p q).1

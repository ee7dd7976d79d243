-- ===== src/ThreeStage/Copies.antt =====
-- A copy of all values of a vector.
use cl_kmeans.Prelude.{
  ℕ, zero, suc, List, [], ◌∷◌, some, true, length, leb, leb_le, ◌≡◌, refl, ap, arith,
}
use cl_kmeans.ThreeStage.BufferMap.{overwrite, copy_values}

module _ {T : Type 0} where
  overwrite_all :
      (n : ℕ) (src dst : List T) → length src ≡ n → length dst ≡ n → overwrite n src dst ≡ src
  overwrite_all zero [] [] e h = refl
  overwrite_all zero [] (y ∷ dst) e h = absurd (omega (arith, h))
  overwrite_all zero (x ∷ src) dst e h = absurd (omega (arith, e))
  overwrite_all (suc n) [] dst e h = absurd (omega (arith, e))
  overwrite_all (suc n) (x ∷ src) [] e h = absurd (omega (arith, h))
  overwrite_all (suc n) (x ∷ src) (y ∷ dst) e h =
      ap (◌∷◌ x) (overwrite_all n src dst (omega (arith, e)) (omega (arith, h)))

  -- A copy of all values.
  pub copy_values_all :
      (n : ℕ) (src dst : List T)
      → length src ≡ n
      → length dst ≡ n
      → copy_values n src dst ≡ some src
  unfolding copy_values
  copy_values_all n src dst e h =
      let a : leb n (length src) ≡ true = leb_le (omega (arith, e)) in
      let b : leb n (length dst) ≡ true = leb_le (omega (arith, h)) in
      rw (a, b) (ap some (overwrite_all n src dst e h))

-- ===== src/Dataset/Bytes.antt =====
-- Numbers as they lie in memory, the least byte first.
use cl_kmeans.Prelude.{
  ℕ, zero, suc, ◌+◌, ◌*◌, ◌/◌, ◌%◌, ◌^◌, ◌<◌, List, [], ◌∷◌, ◌++◌, Option, none, some, ◌≡◌, refl,
  ap, arith, ◌>>=◌,
}

unfoldable pub bytes : (n : ℕ) → ℕ → List ℕ
bytes zero v = []
bytes (suc n) v = v % 256 ∷ bytes n (v / 256)

unfoldable pub number : List ℕ → ℕ
number [] = 0
number (b ∷ bs) = b + 256 * number bs

-- The first `n` bytes of a file and the rest, where it has as many.
unfoldable pub split_at : (n : ℕ) → List ℕ → Option (List ℕ × List ℕ)
split_at zero bs = some ([], bs)
split_at (suc n) [] = none
split_at (suc n) (b ∷ bs) = do r ← split_at n bs; some (b ∷ r.0, r.1)

-- `fh.read` of an object of `n` bytes. Where the file is too short, the object stays unset.
unfoldable pub read : (n : ℕ) → List ℕ → Option (ℕ × List ℕ)
read n fh = do r ← split_at n fh; some (number r.0, r.1)

number-bytes : (n v : ℕ) → v < 256 ^ n → number (bytes n v) ≡ v
unfolding number bytes
number-bytes zero v h = omega (arith, h)
number-bytes (suc n) v h =
    let below : v / 256 < 256 ^ n = omega (arith, h, pow_suc) in
    omega (arith, number-bytes n (v / 256) below)
  where
    pow_suc : 256 ^ suc n ≡ 256 * 256 ^ n
    pow_suc = omega arith

split_at-bytes : (n v : ℕ) (fh : List ℕ) → split_at n (bytes n v ++ fh) ≡ some (bytes n v, fh)
unfolding split_at bytes
split_at-bytes zero v fh = refl
split_at-bytes (suc n) v fh = rw (split_at-bytes n (v / 256) fh) refl

-- A number that was written is read again.
pub read-bytes : (n v : ℕ) (fh : List ℕ) → v < 256 ^ n → read n (bytes n v ++ fh) ≡ some (v, fh)
unfolding read
read-bytes n v fh h = rw (split_at-bytes n v fh) (ap (λ w. some (w, fh)) (number-bytes n v h))

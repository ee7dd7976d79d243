-- ===== src/Utility/Powers.antt =====
-- `Utility::is_power_of_two` of utility.hpp.
use cl_kmeans.Prelude.{
  ℕ, zero, suc, ◌+◌, ◌-◌, ◌*◌, ◌/◌, ◌%◌, ◌^◌, ◌<◌, Bool, true, false, ◌≡◌, ◌⊎◌, inl, inr, refl,
  subst, ◌↔◌, Bool-cases, ==_iff, arith, ◌==◌, if◌then◌else◌,
}

-- The operator `&` on integers of `w` bits.
unfoldable pub bit_and : (w a b : ℕ) → ℕ
bit_and zero a b = 0
bit_and (suc w) a b = (a % 2) * (b % 2) + 2 * bit_and w (a / 2) (b / 2)

unfoldable pub is_power_of_two : (w v : ℕ) → Bool
is_power_of_two w v = if v == 0 then false else bit_and w v (v - 1) == 0

parity : (v : ℕ) → (v % 2 ≡ 0) ⊎ (v % 2 ≡ 1)
parity v = ground arith

power_positive : (k : ℕ) → 0 < 2 ^ k
power_positive zero = omega arith
power_positive (suc k) = let ih : 0 < 2 ^ k = power_positive k in omega (arith, ih)

bit_and_self : (w v : ℕ) → v < 2 ^ w → bit_and w v v ≡ v
unfolding bit_and
bit_and_self zero v l = omega (arith, l)
bit_and_self (suc w) v l =
    let rest : bit_and w (v / 2) (v / 2) ≡ v / 2 = bit_and_self w (v / 2) (omega (arith, l)) in
    elim (parity v) [
      | inl e ↦ rw (e, rest) (omega (arith, e))
      | inr e ↦ rw (e, rest) (omega (arith, e))
    ]

no_rest : (a b : ℕ) → a + 2 * b ≡ 0 → b ≡ 0
no_rest a b h = omega (arith, h)

-- `v & (v - 1)` is zero for the powers of two only.
zero-power : (w v : ℕ) → 0 < v → v < 2 ^ w → bit_and w v (v - 1) ≡ 0 → (k : ℕ) × (v ≡ 2 ^ k)
unfolding bit_and
zero-power zero v p l z = absurd (omega (arith, p, l))
zero-power (suc w) v p l z = elim (parity v) [
  | inl e ↦
      let half : (v - 1) / 2 ≡ v / 2 - 1 = omega (arith, e, p) in
      let z' : bit_and w (v / 2) ((v - 1) / 2) ≡ 0 = no_rest _ _ z in
      let z'' : bit_and w (v / 2) (v / 2 - 1) ≡ 0 = subst (λ m. bit_and w (v / 2) m ≡ 0) half z' in
      let (k, e') = zero-power w (v / 2) (omega (arith, e, p)) (omega (arith, l)) z'' in
      (suc k, omega (arith, e, e'))
  | inr e ↦
      let half : (v - 1) / 2 ≡ v / 2 = omega (arith, e) in
      let z' : bit_and w (v / 2) ((v - 1) / 2) ≡ 0 = no_rest _ _ z in
      let z'' : bit_and w (v / 2) (v / 2) ≡ 0 = subst (λ m. bit_and w (v / 2) m ≡ 0) half z' in
      let same : bit_and w (v / 2) (v / 2) ≡ v / 2 = bit_and_self w (v / 2) (omega (arith, l)) in
      (0, omega (arith, e, z'', same))
]

power-zero : (w k : ℕ) → bit_and w (2 ^ k) (2 ^ k - 1) ≡ 0
unfolding bit_and
power-zero zero k = refl
power-zero (suc w) zero = rw (bit_and_self w 0 (power_positive w)) refl
power-zero (suc w) (suc k) =
    let p = power_positive k in
    let even : 2 ^ suc k % 2 ≡ 0 = omega arith in
    let half : 2 ^ suc k / 2 ≡ 2 ^ k = omega arith in
    let below : (2 ^ suc k - 1) / 2 ≡ 2 ^ k - 1 = omega (arith, p) in
    rw (even, half, below, power-zero w k) (omega arith)

-- For a value of at most `w` bits, the test holds exactly for the powers of two.
pub is_power_of_two_iff :
    (w v : ℕ) → v < 2 ^ w → (is_power_of_two w v ≡ true) ↔ ((k : ℕ) × (v ≡ 2 ^ k))
unfolding is_power_of_two
is_power_of_two_iff w v l = elim (Bool-cases (v == 0)) [
  | inl b ↦ rw b (λ h. cc, λ (k, e). absurd (ground (arith, b, e, power_positive k)))
  | inr b ↦
      let power : bit_and w v (v - 1) ≡ 0 → (k : ℕ) × (v ≡ 2 ^ k) =
        zero-power w v (ground (arith, b)) l in
      rw b (
        λ h. power ((==_iff (bit_and w v (v - 1)) 0).0 h),
        λ (k, e). (==_iff (bit_and w v (v - 1)) 0).1 (rw e (power-zero w k)),
      )
]

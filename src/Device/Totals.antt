-- ===== src/Device/Totals.antt =====
-- Sums of counts over groups.
use cl_kmeans.Prelude.{
  ℕ, zero, suc, ◌+◌, ◌%◌, ◌^◌, ◌<◌, ◌≤◌, ◌≡◌, ◌∙◌, refl, ap, arith, Bool, ◌==◌, ◌&&◌, if◌then◌else◌,
  ℕ_discrete,
}
use cl_kmeans.Device.Sums.{IsOrderless, sum_to}
use cl_kmeans.Device.MassUpdate.{uint32}
use cl_kmeans.Device.Owners.{how_many}

pub uint32-IsOrderless : IsOrderless uint32
uint32-IsOrderless = record {
  start = λ a b. omega arith;
  comm = λ a b. omega arith;
  assoc = λ a b c. omega arith;
}

-- `x 0 + … + x n`
total : ℕ → (ℕ → ℕ) → ℕ
total zero x = x 0
total (suc n) x = total n x + x (suc n)

sum_to-total : (n : ℕ) (x : ℕ → ℕ) → sum_to uint32 n (λ g. x g % 2 ^ 32) ≡ total n x % 2 ^ 32
unfolding total
sum_to-total zero x = refl
sum_to-total (suc n) x = let ih = sum_to-total n x in omega (arith, ih)

total-add : (n : ℕ) (x y : ℕ → ℕ) → total n (λ g. x g + y g) ≡ total n x + total n y
unfolding total
total-add zero x y = refl
total-add (suc n) x y = let ih = total-add n x y in omega (arith, ih)

abbrev unit : Bool → ℕ
unit b = if b then 1 else 0

total-above : (n h : ℕ) (b : Bool) → n < h → total n (λ g. unit ((h == g) && b)) ≡ 0
unfolding total
total-above zero h b l = ground (arith, l)
total-above (suc n) h b l = let ih = total-above n h b (omega (arith, l)) in ground (arith, ih, l)

-- Of the groups up to `n`, one is `h`.
total-one : (n h : ℕ) (b : Bool) → h ≤ n → total n (λ g. unit ((h == g) && b)) ≡ unit b
unfolding total
total-one zero h b l = ground (arith, l)
total-one (suc n) h b l = elim (ℕ_discrete h (suc n)) [
  | yes e ↦ let above = total-above n h b (omega (arith, e)) in ground (arith, above, e)
  | no e ↦ let ih = total-one n h b (omega (arith, l, e)) in ground (arith, ih, e)
]

total-zero : (n : ℕ) → total n (λ g. 0) ≡ 0
unfolding total
total-zero zero = refl
total-zero (suc n) = let ih = total-zero n in omega (arith, ih)

-- Each point is counted in one group.
total-how_many :
    (m n : ℕ) (group : ℕ → ℕ) (p : ℕ → Bool)
    → ((q : ℕ) → q < n → group q ≤ m)
    → total m (λ g. how_many n (λ q. (group q == g) && p q)) ≡ how_many n p
total-how_many m zero group p few = total-zero m
total-how_many m (suc n) group p few =
    total-add m (λ g. unit ((group n == g) && p n)) (λ g. how_many n (λ q. (group q == g) && p q))
    ∙ (λ i.
        total-one m (group n) (p n) (few n (omega arith)) i
        + total-how_many m n group p (λ q l. few q (omega (arith, l))) i)

pub group_sum :
    (m n : ℕ) (group : ℕ → ℕ) (p : ℕ → Bool)
    → ((q : ℕ) → q < n → group q ≤ m)
    → sum_to uint32 m (λ g. how_many n (λ q. (group q == g) && p q) % 2 ^ 32)
      ≡ how_many n p % 2 ^ 32
group_sum m n group p few =
    sum_to-total m (λ g. how_many n (λ q. (group q == g) && p q))
    ∙ ap (λ k. k % 2 ^ 32) (total-how_many m n group p few)

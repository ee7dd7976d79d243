-- ===== src/Prelude/Loops.antt =====
-- A loop that counts, and its rule.
use Prim.Native.Nat.{ℕ, zero, suc, ◌+◌, ◌%◌, ◌^◌, ◌≤◌, ◌<◌}
use mathlib.Core.Path.{◌≡◌, refl, subst}
use mathlib.Core.Bool.{true, false}
use mathlib.Core.Option.{Option, none, some}
use native.Mathlib.Omega.{arith}
use cl_kmeans.Prelude.Tests.{◌>>=◌, ltb, ltb_lt, ltb_ge, if◌then◌else◌}
use cl_kmeans.Prelude.Results.{Gives, Gives-bind}

-- `for (i = index; i < index + n; ++i) body`
unfoldable pub for_range {ℓ} : {S : Type ℓ} → (index n : ℕ) → (ℕ → S → Option S) → S → Option S
for_range index zero body s = some s
for_range index (suc n) body s = do s' ← body index s; for_range (suc index) n body s'

-- `for (uint32_t i = index; i < bound; ++i) body` with a bound of 64 bits, for at most `fuel` rounds;
-- `none` is also a loop that needs more.
unfoldable pub for_uint32 {ℓ} :
    {S : Type ℓ} → (fuel index bound : ℕ) → (ℕ → S → Option S) → S → Option S
for_uint32 zero index bound body s = if ltb index bound then none else some s
for_uint32 (suc fuel) index bound body s =
    let rest = (do s' ← body index s; for_uint32 fuel ((index + 1) % 2 ^ 32) bound body s') in
    if ltb index bound then rest else some s

-- A bound of 32 bits is reached.
pub for_uint32-for_range {ℓ} :
    {S : Type ℓ} (n index bound : ℕ) (body : ℕ → S → Option S) (s : S)
    → index + n ≡ bound
    → bound < 2 ^ 32
    → for_uint32 n index bound body s ≡ for_range index n body s
unfolding for_uint32 for_range
for_uint32-for_range zero index bound body s e l =
    let ends : ltb index bound ≡ false = ltb_ge (omega (arith, e)) in rw ends refl
for_uint32-for_range (suc n) index bound body s e l =
    let goes : ltb index bound ≡ true = ltb_lt (omega (arith, e)) in
    let next : (index + 1) % 2 ^ 32 ≡ suc index = omega (arith, e, l) in
    rw (goes, next)
      (λ j. body index s >>= λ s'.
        for_uint32-for_range n (suc index) bound body s' (omega (arith, e)) l j)

pub Gives-for {ℓ} :
    {S : Type ℓ} (I : ℕ → S → Type 0) (index n : ℕ) (body : ℕ → S → Option S) (s : S)
    → ((i : ℕ) (t : S) → index ≤ i → i < index + n → I i t → Gives (I (suc i)) (body i t))
    → I index s
    → Gives (I (index + n)) (for_range index n body s)
unfolding for_range
Gives-for I index zero body s step h = subst (λ k. I k s) (omega arith) h
Gives-for I index (suc n) body s step h =
    Gives-bind (I (index + suc n)) (I (suc index)) (body index s) _
      (step index s (omega arith) (omega arith) h)
      λ t k.
        subst (λ m. Gives (I m) (for_range (suc index) n body t)) (omega arith)
          (Gives-for I (suc index) n body t (λ i u p q. step i u (omega arith) (omega arith)) k)

-- A loop that counts from 0.
pub Gives-loop {ℓ} :
    {S : Type ℓ} (I : ℕ → S → Type 0) (n : ℕ) (body : ℕ → S → Option S) (s : S)
    → ((i : ℕ) (t : S) → i < n → I i t → Gives (I (suc i)) (body i t))
    → I 0 s
    → Gives (I n) (for_range 0 n body s)
Gives-loop I n body s step h =
    subst (λ m. Gives (I m) (for_range 0 n body s)) (omega arith)
      (Gives-for I 0 n body s (λ i t _ l. step i t (omega arith)) h)

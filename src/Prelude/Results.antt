-- ===== src/Prelude/Results.antt =====
-- Total correctness: a partial function has a result, and something holds of it.
use mathlib.Core.Path.{◌≡◌, refl, subst, sym, ap}
use mathlib.Core.Bool.{Bool, true, false}
use mathlib.Core.Option.{Option, none, some}
use cl_kmeans.Prelude.Tests.{if◌then◌else◌, ◌>>=◌}
use cl_kmeans.Prelude.Partial.{Ensures, IsDefined}
use cl_kmeans.Prelude.Int.{ℤ, pos, negsuc}
use Prim.Native.Nat.{ℕ}

abbrev pub Gives {ℓ} : {A : Type ℓ} → (A → Type 0) → Option A → Type 0
Gives P none = ⊥
Gives P (some a) = P a

module _ {ℓ} {A : Type ℓ} (P : A → Type 0) where
  pub Gives-bind {μ} :
      {B : Type μ} (Q : B → Type 0) (m : Option B) (f : B → Option A)
      → Gives Q m
      → ((b : B) → Q b → Gives P (f b))
      → Gives P (m >>= f)
  Gives-bind Q none f d h = absurd d
  Gives-bind Q (some b) f d h = h b d

  -- Where the value of the first part is known.
  pub Gives-known {μ} :
      {B : Type μ} (m : Option B) (f : B → Option A) {b : B}
      → m ≡ some b
      → Gives P (f b)
      → Gives P (m >>= f)
  Gives-known m f e h = subst (λ o. Gives P (o >>= f)) (sym e) h

  pub Gives-if :
      (b : Bool) (x y : Option A)
      → (b ≡ true → Gives P x)
      → (b ≡ false → Gives P y)
      → Gives P (if b then x else y)
  Gives-if true x y h k = h refl
  Gives-if false x y h k = k refl

  pub Gives-ℤ :
      (z : ℤ) (f g : ℕ → Option A)
      → ((n : ℕ) → z ≡ pos n → Gives P (f n))
      → ((n : ℕ) → z ≡ negsuc n → Gives P (g n))
      → Gives P (elim z [ pos n ↦ f n | negsuc n ↦ g n ])
  Gives-ℤ (pos n) f g h k = h n refl
  Gives-ℤ (negsuc n) f g h k = k n refl

  -- By the value of an `Option`.
  pub Gives-option {μ} :
      {B : Type μ} (o : Option B) (x : Option A) (f : B → Option A)
      → (o ≡ none → Gives P x)
      → ((b : B) → o ≡ some b → Gives P (f b))
      → Gives P (elim o [ none ↦ x | some b ↦ f b ])
  Gives-option none x f h k = h refl
  Gives-option (some b) x f h k = k b refl

pub Gives-map {ℓ} :
    {A : Type ℓ} (P Q : A → Type 0) → ((a : A) → P a → Q a) → (o : Option A) → Gives P o → Gives Q o
Gives-map P Q f none h = absurd h
Gives-map P Q f (some a) h = f a h

-- What a partial function ensures, where it is defined.
pub Gives-both {ℓ} :
    {A : Type ℓ} (P Q R : A → Type 0) (o : Option A)
    → ((a : A) → P a → Q a → R a)
    → IsDefined o
    → Ensures P o
    → Ensures Q o
    → Gives R o
Gives-both P Q R none f d p q = d
Gives-both P Q R (some a) f d p q = f a p q

-- Where the result is known.
pub Gives-eq {ℓ} :
    {A : Type ℓ} (P : A → Type 0) {o : Option A} {a : A} → o ≡ some a → P a → Gives P o
Gives-eq P e h = subst (Gives P) (sym e) h

module _ {A : Type 0} {a : A} where
  pub Gives-result : (o : Option A) → Gives (λ x. x ≡ a) o → o ≡ some a
  Gives-result none h = absurd h
  Gives-result (some x) h = ap some h

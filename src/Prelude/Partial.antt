-- ===== src/Prelude/Partial.antt =====
-- What holds of the result of a partial function, wherever there is one.
use mathlib.Core.Path.{◌≡◌, refl, subst, sym}
use mathlib.Core.Bool.{Bool, true, false}
use mathlib.Core.Option.{Option, none, some}
use cl_kmeans.Prelude.Tests.{if◌then◌else◌, ◌>>=◌}
use cl_kmeans.Prelude.Int.{ℤ, pos, negsuc}
use Prim.Native.Nat.{ℕ}

abbrev pub Ensures {ℓ κ} : {A : Type ℓ} → (A → Type κ) → Option A → Type κ
Ensures P none = Unit
Ensures P (some a) = P a

module _ {ℓ κ} {A : Type ℓ} (P : A → Type κ) where
  pub Ensures-bind {μ} :
      {B : Type μ} (m : Option B) (f : B → Option A)
      → ((b : B) → m ≡ some b → Ensures P (f b))
      → Ensures P (m >>= f)
  Ensures-bind none f h = tt
  Ensures-bind (some b) f h = h b refl

  pub Ensures-known {μ} :
      {B : Type μ} (m : Option B) (f : B → Option A) {b : B}
      → m ≡ some b
      → Ensures P (f b)
      → Ensures P (m >>= f)
  Ensures-known m f e h = subst (λ o. Ensures P (o >>= f)) (sym e) h

  pub Ensures-if :
      (b : Bool) (x y : Option A)
      → (b ≡ true → Ensures P x)
      → (b ≡ false → Ensures P y)
      → Ensures P (if b then x else y)
  Ensures-if true x y h k = h refl
  Ensures-if false x y h k = k refl

  pub Ensures-ℤ :
      (z : ℤ) (f g : ℕ → Option A)
      → ((n : ℕ) → z ≡ pos n → Ensures P (f n))
      → ((n : ℕ) → z ≡ negsuc n → Ensures P (g n))
      → Ensures P (elim z [ pos n ↦ f n | negsuc n ↦ g n ])
  Ensures-ℤ (pos n) f g h k = h n refl
  Ensures-ℤ (negsuc n) f g h k = k n refl

  pub Ensures-elim : (o : Option A) {a : A} → Ensures P o → o ≡ some a → P a
  Ensures-elim o h e = subst (Ensures P) e h

pub Ensures-map {ℓ κ μ} :
    {A : Type ℓ} (P : A → Type κ) (Q : A → Type μ)
    → ((a : A) → P a → Q a)
    → (o : Option A) → Ensures P o
    → Ensures Q o
Ensures-map P Q f none h = tt
Ensures-map P Q f (some a) h = f a h

pub Ensures-then {ℓ κ μ} :
    {A : Type ℓ} {B : Type μ} (P : B → Type κ) (f : A → B) (o : Option A)
    → Ensures (λ a. P (f a)) o
    → Ensures P (o >>= (λ a. some (f a)))
Ensures-then P f none h = tt
Ensures-then P f (some a) h = h

-- The partial function has a result.
abbrev pub IsDefined {ℓ} : {A : Type ℓ} → Option A → Type 0
IsDefined none = ⊥
IsDefined (some a) = Unit

module _ {ℓ} {A : Type ℓ} where
  pub IsDefined-some : (o : Option A) → IsDefined o → (a : A) × (o ≡ some a)
  IsDefined-some none h = absurd h
  IsDefined-some (some a) h = (a, refl)

  pub IsDefined-bind {μ} :
      {B : Type μ} (m : Option B) (f : B → Option A)
      → IsDefined m
      → ((b : B) → m ≡ some b → IsDefined (f b))
      → IsDefined (m >>= f)
  IsDefined-bind none f d h = d
  IsDefined-bind (some b) f d h = h b refl

  -- Where the value of the first part is known.
  pub IsDefined-known {μ} :
      {B : Type μ} (m : Option B) (f : B → Option A) {b : B}
      → m ≡ some b
      → IsDefined (f b)
      → IsDefined (m >>= f)
  IsDefined-known m f e h = subst (λ o. IsDefined (o >>= f)) (sym e) h

  pub IsDefined-if :
      (b : Bool) (x y : Option A)
      → (b ≡ true → IsDefined x)
      → (b ≡ false → IsDefined y)
      → IsDefined (if b then x else y)
  IsDefined-if true x y h k = h refl
  IsDefined-if false x y h k = k refl

  pub IsDefined-ℤ :
      (z : ℤ) (f g : ℕ → Option A)
      → ((n : ℕ) → z ≡ pos n → IsDefined (f n))
      → ((n : ℕ) → z ≡ negsuc n → IsDefined (g n))
      → IsDefined (elim z [ pos n ↦ f n | negsuc n ↦ g n ])
  IsDefined-ℤ (pos n) f g h k = h n refl
  IsDefined-ℤ (negsuc n) f g h k = k n refl

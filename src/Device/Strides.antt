-- ===== src/Device/Strides.antt =====
-- How the loops of the counting kernels divide the points among the work-items.
use cl_kmeans.Prelude.{
  ℕ, ◌+◌, ◌-◌, ◌*◌, ◌/◌, ◌%◌, ◌^◌, ◌<◌, ◌≤◌, ◌≡◌, ◌∙◌, refl, sym, subst, ap, arith, ltb,
  if◌then◌else◌,
}
use native.Mathlib.Nat.{
  mod-lt, mod-eq_of_lt, mod-mod, mod-le, add-mod_right, mul-add-mod_self_right, mul-add-div_right,
  div-eq_of_lt, div-add-mod', div-lt_iff_lt-mul, mul-div-le,
}
use cl_kmeans.Device.Histogram.{
  Sizes, num_groups, global_stride, local_stride, block_size, group_start_offset,
}
use cl_kmeans.Device.Owners.{Divides}

pub apart_mod : (k p q : ℕ) → 0 < k → p % k ≡ q % k → p < q → p + k ≤ q
apart_mod k p q l e h = grind arith

abbrev pub global_owner : Sizes → ℕ → ℕ
global_owner z q = q % z.global_size

module _ (z : Sizes) (n : ℕ) (some_item : 0 < z.global_size)
    (narrow : n + z.global_size ≤ 2 ^ 32) where
  pub global_stride-Divides : Divides (global_stride z n) n z.global_size (global_owner z)
  global_stride-Divides = record {
    moves = some_item;
    owned = λ q l. grind arith;
    first = λ q l. grind arith;
    last = λ q l. l;
    bound = λ i p l h e. h;
    begins = λ i l h. mod-eq_of_lt l;
    next = λ i p l h e. add-mod_right p z.global_size ∙ e;
    apart = λ p q l e h. apart_mod z.global_size p q some_item e h;
    narrow = narrow;
  }

-- Whole groups, and numbers that do not pass 32 bits.
pub record Fits (z : Sizes) (n : ℕ) : Type 0 where
  pub some_local : 0 < z.local_size
  pub some_group : 0 < num_groups z
  pub whole : z.global_size ≡ num_groups z * z.local_size
  pub narrow : n + z.global_size < 2 ^ 32

module _ (z : Sizes) (n : ℕ) (f : Fits z n) where
  abbrev block : ℕ
  block = (n + num_groups z - 1) / num_groups z

  abbrev pub local_owner : ℕ → ℕ
  local_owner q = q / block * z.local_size + q % block % z.local_size

  pub groups_few : num_groups z ≤ z.global_size
  groups_few = rw f.whole (grind (arith, f.some_local))

  block_lem : block_size z n ≡ block
  block_lem =
      let same : (n + num_groups z - 1) % 2 ^ 32 ≡ n + num_groups z - 1 =
        omega (arith, f.narrow, groups_few) in
      rw same refl

  block_most : num_groups z * block ≤ n + num_groups z - 1
  block_most = mul-div-le (n + num_groups z - 1) (num_groups z)

  block_covers : n ≤ num_groups z * block
  block_covers = grind (arith, f.some_group)

  block_some : (q : ℕ) → q < n → 0 < block
  block_some q l = grind (arith, block_covers)

  pub local_group : (a r : ℕ) → r < z.local_size → (a * z.local_size + r) / z.local_size ≡ a
  local_group a r l =
      mul-add-div_right f.some_local a r ∙ ap (λ k. a + k) (div-eq_of_lt l) ∙ omega arith

  pub local_rest : (a r : ℕ) → r < z.local_size → (a * z.local_size + r) % z.local_size ≡ r
  local_rest a r l = mul-add-mod_self_right a z.local_size r ∙ mod-eq_of_lt l

  pub group_few : (i : ℕ) → i < z.global_size → i / z.local_size < num_groups z
  group_few i l = (div-lt_iff_lt-mul f.some_local).1 (omega (arith, l, f.whole))

  offset_lem : (i : ℕ) → i < z.global_size → group_start_offset z n i ≡ i / z.local_size * block
  offset_lem i l =
      let few = group_few i l in
      let small : i / z.local_size * block < 2 ^ 32 =
        small_product (i / z.local_size) (num_groups z) block few
          (omega (arith, block_most, f.narrow, groups_few)) in
      rw (block_lem, mod-eq_of_lt small) refl
    where
      small_product : (a b c : ℕ) → a < b → b * c < 2 ^ 32 → a * c < 2 ^ 32
      small_product a b c l h = grind (arith, l, h)

  below_stop :
      (i p : ℕ)
      → i < z.global_size
      → i / z.local_size * block ≤ p
      → p < (local_stride z n).stop i
      → (p < n) × (p < i / z.local_size * block + block)
  below_stop i p l = rw (offset_lem i l, block_lem) (between (i / z.local_size * block))
    where
      between :
          (o : ℕ)
          → o ≤ p
          → p < o + (if ltb n (o + block) then n - o else block)
          → (p < n) × (p < o + block)
      between o k h = ground (arith, k, h)

  reaches_stop :
      (i p : ℕ)
      → i < z.global_size
      → i / z.local_size * block ≤ p
      → p < n
      → p < i / z.local_size * block + block
      → p < (local_stride z n).stop i
  reaches_stop i p l = rw (offset_lem i l, block_lem) (between (i / z.local_size * block))
    where
      between :
          (o : ℕ)
          → o ≤ p
          → p < n
          → p < o + block
          → p < o + (if ltb n (o + block) then n - o else block)
      between o k h m = ground (arith, k, h, m)

  -- A point in block `a`, at place `o`.
  owner_lem :
      (a o : ℕ) → o < block → local_owner (a * block + o) ≡ a * z.local_size + o % z.local_size
  owner_lem a o l =
      let some : 0 < block = omega (arith, l) in
      let quotient : (a * block + o) / block ≡ a =
        mul-add-div_right some a o ∙ ap (λ k. a + k) (div-eq_of_lt l) ∙ omega arith in
      let rest : (a * block + o) % block ≡ o = mul-add-mod_self_right a block o ∙ mod-eq_of_lt l in
      rw (quotient, rest) refl

  owner_group : (q : ℕ) → local_owner q / z.local_size ≡ q / block
  owner_group q = local_group (q / block) (q % block % z.local_size) (mod-lt _ f.some_local)

  owner_rest : (q : ℕ) → local_owner q % z.local_size ≡ q % block % z.local_size
  owner_rest q = local_rest (q / block) (q % block % z.local_size) (mod-lt _ f.some_local)

  owner_few : (q : ℕ) → q < n → local_owner q < z.global_size
  owner_few q l =
      let few : q / block < num_groups z =
        (div-lt_iff_lt-mul (block_some q l)).1 (omega (arith, l, block_covers)) in
      let rest = mod-lt (q % block) f.some_local in rw f.whole (grind (arith, few, rest))

  block_start : (q : ℕ) → q / block * block + q % block ≡ q
  block_start q = div-add-mod' q block

  same_group : (i p : ℕ) → local_owner p ≡ i → p / block ≡ i / z.local_size
  same_group i p e = sym (owner_group p) ∙ ap (λ k. k / z.local_size) e

  group_below : (i p : ℕ) → local_owner p ≡ i → i / z.local_size * block ≤ p
  group_below i p e =
      let a : i / z.local_size * block ≡ p / block * block =
        ap (λ (k : ℕ). k * block) (sym (same_group i p e)) in
      omega (arith, a, block_start p)

  begins_lem :
      (i : ℕ)
      → i < z.global_size
      → (local_stride z n).start i < (local_stride z n).stop i
      → local_owner ((local_stride z n).start i) ≡ i
  begins_lem i l h =
      let start : (local_stride z n).start i ≡ i / z.local_size * block + i % z.local_size =
        ap (λ k. k + i % z.local_size) (offset_lem i l) in
      let (m, k) =
        below_stop i (i / z.local_size * block + i % z.local_size) l (omega arith)
          (subst (λ k. k < (local_stride z n).stop i) start h) in
      ap local_owner start
      ∙ owner_lem (i / z.local_size) (i % z.local_size) (omega (arith, k))
      ∙ ap (λ k. i / z.local_size * z.local_size + k) (mod-mod i z.local_size)
      ∙ div-add-mod' i z.local_size

  next_lem :
      (i p : ℕ)
      → i < z.global_size
      → p + z.local_size < (local_stride z n).stop i
      → local_owner p ≡ i
      → local_owner (p + z.local_size) ≡ i
  next_lem i p l h e =
      let below = group_below i p e in
      let (m, k) = below_stop i (p + z.local_size) l (omega (arith, below)) h in
      let a : i / z.local_size * block ≡ p / block * block =
        ap (λ (k : ℕ). k * block) (sym (same_group i p e)) in
      let place : p + z.local_size ≡ p / block * block + (p % block + z.local_size) =
        omega (arith, block_start p) in
      ap local_owner place
      ∙ owner_lem (p / block) (p % block + z.local_size) (omega (arith, k, a, block_start p))
      ∙ ap (λ k. p / block * z.local_size + k) (add-mod_right (p % block) z.local_size)
      ∙ e

  apart_lem : (p q : ℕ) → local_owner p ≡ local_owner q → p < q → p + z.local_size ≤ q
  apart_lem p q e h =
      let groups : p / block ≡ q / block = same_group (local_owner q) p e ∙ owner_group q in
      let rests : p % block % z.local_size ≡ q % block % z.local_size =
        sym (owner_rest p) ∙ ap (λ k. k % z.local_size) e ∙ owner_rest q in
      let starts : p / block * block ≡ q / block * block = ap (λ (k : ℕ). k * block) groups in
      let less : p % block < q % block = omega (arith, h, starts, block_start p, block_start q) in
      let far = apart_mod z.local_size (p % block) (q % block) f.some_local rests less in
      omega (arith, far, starts, block_start p, block_start q)

  pub local_few : z.local_size ≤ z.global_size
  local_few = rw f.whole (grind (arith, f.some_group))

  last_lem : (q : ℕ) → q < n → q < (local_stride z n).stop (local_owner q)
  last_lem q l =
      let a : local_owner q / z.local_size * block ≡ q / block * block =
        ap (λ (k : ℕ). k * block) (owner_group q) in
      let rest : q % block < block = mod-lt q (block_some q l) in
      reaches_stop (local_owner q) q (owner_few q l) (group_below (local_owner q) q refl) l
        (omega (arith, a, rest, block_start q))

  pub local_stride-Divides : Divides (local_stride z n) n z.global_size local_owner
  local_stride-Divides = record {
    moves = f.some_local;
    owned = owner_few;
    first = λ q l.
        rw (offset_lem (local_owner q) (owner_few q l), owner_group q, owner_rest q)
          (omega (arith, block_start q, mod-le (q % block) z.local_size));
    last = last_lem;
    bound = λ i p l h e. (below_stop i p l (group_below i p e) h).0;
    begins = begins_lem;
    next = next_lem;
    apart = λ p q l e h. apart_lem p q e h;
    narrow = omega (arith, f.narrow, local_few);
  }

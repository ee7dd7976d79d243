-- ===== src/Device/Cleared.antt =====
-- What the counting kernel of a group does before the barrier: it clears the bins.
use cl_kmeans.Prelude.{
  ltb_lt, ℕ, zero, suc, ◌+◌, ◌*◌, ◌/◌, ◌%◌, ◌^◌, ◌<◌, ◌≤◌, List, [], ◌∷◌, some, ◌≡◌, ℕ_discrete,
  ◌⊎◌, ◌∙◌, inl, inr, refl, sym, subst, arith, ltb, true, Gives, Gives-map, Gives-bind, Gives-if,
}
use native.Mathlib.Decide.{dec_lt}
use native.Mathlib.Nat.{mod-lt, mod-le, mod-eq_of_lt, mod-mod, add-mod_right}
use cl_kmeans.Device.Buffers.{
  Buffer, written, run_items, times, times_self, times_other, eq_cases, IsOrder,
}
use cl_kmeans.Device.Histogram.{Sizes, num_groups, clear_bins, clear_item, group_offset}
use cl_kmeans.Device.Strides.{Fits, apart_mod, group_few, local_group, local_rest}

-- Nothing but zeros is written.
pub record Cleared (b b' : Buffer ℕ) : Type 0 where
  pub size : b'.size ≡ b.size
  pub zeros : (a : ℕ) → (b'.cell a ≡ 0) ⊎ (b'.cell a ≡ b.cell a)

Cleared-trans : (b b' b'' : Buffer ℕ) → Cleared b b' → Cleared b' b'' → Cleared b b''
Cleared-trans b b' b'' c d = record {
  size = d.size ∙ c.size;
  zeros = λ a. elim (d.zeros a) [
    | inl e ↦ inl e
    | inr e ↦ elim (c.zeros a) [ inl e' ↦ inl (e ∙ e') | inr e' ↦ inr (e ∙ e') ]
  ];
}

-- What is zero stays so.
stays : (b b' : Buffer ℕ) (a : ℕ) → Cleared b b' → b.cell a ≡ 0 → b'.cell a ≡ 0
stays b b' a c e = elim (c.zeros a) [ inl h ↦ h | inr h ↦ h ∙ e ]

module _ (K stride offset : ℕ) (some_stride : 0 < stride) (narrow : K + stride < 2 ^ 32) where
  -- From `r` on, the bins of a work-item are zero.
  abbrev Done : (r : ℕ) (b b' : Buffer ℕ) → Type 0
  Done r b b' =
      Cleared b b' × ((t : ℕ) → t < K → r ≤ t → t % stride ≡ r % stride → b'.cell (offset + t) ≡ 0)

  abbrev cleared : (r : ℕ) → Buffer ℕ → Buffer ℕ
  cleared r b = record b { cell = written b.cell (offset + r) 0 }

  then_rest : (r : ℕ) (b b' : Buffer ℕ) → Done (r + stride) (cleared r b) b' → Done r b b'
  then_rest r b b' (c, z) = (
    Cleared-trans b (cleared r b) b' first c,
    λ t k l e. elim (ℕ_discrete t r) [
      | yes h ↦ stays (cleared r b) b' (offset + t) c (ground (arith, h))
      | no h ↦
          z t k (apart_mod stride r t some_stride (sym e) (omega (arith, l, h)))
            (e ∙ sym (add-mod_right r stride))
    ],
  )
    where
      first : Cleared b (cleared r b)
      first = record {
        size = refl;
        zeros = λ a. elim (ℕ_discrete a (offset + r)) [
          | yes h ↦ inl (ground (arith, h))
          | no h ↦ inr (ground (arith, h))
        ];
      }

  pub clear_bins-Cleared :
      (fuel r : ℕ) (b : Buffer ℕ)
      → 0 < fuel
      → K < r + fuel
      → offset + K ≤ b.size
      → Gives (Done r b) (clear_bins fuel K stride offset r b)
  unfolding clear_bins
  clear_bins-Cleared zero r b p f s = absurd (omega (arith, p))
  clear_bins-Cleared (suc fuel) r b p f s =
      Gives-if (Done r b) (ltb r K) _ (some b)
        (λ m.
          let below : r < K = ground (arith, m) in
          let next : (r + stride) % 2 ^ 32 ≡ r + stride = omega (arith, below, narrow) in
          let within : ltb (offset + r) b.size ≡ true = ltb_lt (omega (arith, below, s)) in
          rw (within, next)
            (Gives-map (Done (r + stride) (cleared r b)) (Done r b) (λ b' d. then_rest r b b' d)
              (clear_bins fuel K stride offset (r + stride) (cleared r b))
              (clear_bins-Cleared fuel (r + stride) (cleared r b) (omega (arith, below, f))
                (omega (arith, f, some_stride)) s)))
        (λ m. (
          record { size = refl; zeros = λ a. inr refl },
          λ t k l e. absurd (ground (arith, m, k, l)),
        ))

module _ (z : Sizes) (n K : ℕ) (f : Fits z n)
    (narrow : K * num_groups z + z.local_size < 2 ^ 32) where
  -- The bins of the groups of the items in `order` are zero.
  abbrev AllCleared : List ℕ → (b b' : Buffer ℕ) → Type 0
  AllCleared order b b' =
      Cleared b b'
      × ((i t : ℕ)
          → 0 < times i order
          → t < K
          → t % z.local_size ≡ i % z.local_size
          → b'.cell (i / z.local_size * K + t) ≡ 0)

  clear_item-Cleared :
      (i : ℕ) (b : Buffer ℕ)
      → i < z.global_size
      → K * num_groups z ≤ b.size
      → Gives
          (λ b'.
            Cleared b b'
            × ((t : ℕ)
                → t < K
                → t % z.local_size ≡ i % z.local_size
                → b'.cell (i / z.local_size * K + t) ≡ 0))
          (clear_item z K i b)
  unfolding clear_item
  clear_item-Cleared i b l s =
      let few = group_few z n f i l in
      let some_bins : K ≤ K * num_groups z = grind (arith, f.some_group) in
      let room : i / z.local_size * K + K ≤ K * num_groups z =
        rows_lem (i / z.local_size) (num_groups z) few in
      let offset : group_offset z K i ≡ i / z.local_size * K =
        mod-eq_of_lt (omega (arith, room, narrow)) in
      subst
        (λ o.
          Gives
            (λ b'.
              Cleared b b'
              × ((t : ℕ)
                  → t < K
                  → t % z.local_size ≡ i % z.local_size
                  → b'.cell (i / z.local_size * K + t) ≡ 0))
            (clear_bins (suc K) K z.local_size o (i % z.local_size) b))
        (sym offset)
        (Gives-map _ _
          (λ b' (c, d). (
            c,
            λ t k e.
                d t k (omega (arith, e, mod-le t z.local_size)) (e ∙ sym (mod-mod i z.local_size)),
          ))
          (clear_bins (suc K) K z.local_size (i / z.local_size * K) (i % z.local_size) b)
          (clear_bins-Cleared K z.local_size (i / z.local_size * K) f.some_local
            (omega (arith, some_bins, narrow)) (suc K) (i % z.local_size) b (omega arith)
            (omega arith) (omega (arith, room, s))))
    where
      rows_lem : (g m : ℕ) → g < m → g * K + K ≤ K * m
      rows_lem g m l = grind (arith, l)

  run_items-Cleared :
      (order : List ℕ) (b : Buffer ℕ)
      → ((i : ℕ) → z.global_size ≤ i → times i order ≡ 0)
      → K * num_groups z ≤ b.size
      → Gives (AllCleared order b) (run_items (clear_item z K) order b)
  unfolding run_items
  run_items-Cleared [] b o s =
      (record { size = refl; zeros = λ a. inr refl }, λ i t h. absurd (omega (arith, h)))
  run_items-Cleared (x ∷ order) b o s =
      Gives-bind (AllCleared (x ∷ order) b) _ (clear_item z K x b)
        (run_items (clear_item z K) order) (clear_item-Cleared x b known s)
        (λ b₁ (c₁, d₁).
          Gives-map (AllCleared order b₁) (AllCleared (x ∷ order) b)
            (λ b₂ (c₂, d₂). (
              Cleared-trans b b₁ b₂ c₁ c₂,
              λ i t h k e. elim (eq_cases x i) [
                | inl same ↦
                    stays b₁ b₂ (i / z.local_size * K + t) c₂ (
                      subst (λ j. b₁.cell (j / z.local_size * K + t) ≡ 0) same (d₁ t k (rw same e)))
                | inr other ↦ d₂ i t (omega (arith, h, times_other x i order other)) k e
              ],
            ))
            (run_items (clear_item z K) order b₁)
            (run_items-Cleared order b₁ (λ i k. let t = o i k in ground (arith, t))
              (omega (arith, c₁.size, s))))
    where
      known : x < z.global_size
      known = elim (dec_lt x z.global_size) [
        | yes h ↦ h
        | no h ↦ absurd (omega (arith, o x (omega (arith, h)), times_self x x order refl))
      ]

  -- All bins of all groups are zero.
  pub clear-zeros :
      (order : List ℕ) (b : Buffer ℕ)
      → IsOrder z.global_size order
      → K * num_groups z ≤ b.size
      → Gives
          (λ b'.
            (b'.size ≡ b.size) × ((g t : ℕ) → g < num_groups z → t < K → b'.cell (g * K + t) ≡ 0))
          (run_items (clear_item z K) order b)
  clear-zeros order b o s =
      Gives-map (AllCleared order b) _
        (λ b' (c, d). (
          c.size,
          λ g t l k.
              (let i : ℕ = g * z.local_size + t % z.local_size in
                let rest = mod-lt t f.some_local in
                let group : i / z.local_size ≡ g = local_group z n f g (t % z.local_size) rest in
                let place : i % z.local_size ≡ t % z.local_size =
                  local_rest z n f g (t % z.local_size) rest in
                let few : i < z.global_size = rw f.whole (grind (arith, l, rest)) in
                let once = o i in
                subst (λ j. b'.cell (j * K + t) ≡ 0) group
                  (d i t (ground (arith, once, few)) k (sym place))),
        ))
        (run_items (clear_item z K) order b)
        (run_items-Cleared order b (λ i k. let t = o i in ground (arith, t, k)) s)

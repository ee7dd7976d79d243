-- ===== src/Device/Owners.antt =====
-- The counting loops, for any division of the points among the work-items.
use cl_kmeans.Prelude.{
  ltb_lt, ℕ, zero, suc, ◌+◌, ◌%◌, ◌^◌, ◌<◌, ◌≤◌, Bool, ℕ_discrete, ◌⊎◌, ◌∙◌, ap, some, ◌≡◌, ◌≢◌,
  refl, sym, subst, arith, ltb, ◌==◌, ◌&&◌, true, false, inl, inr, if◌then◌else◌,
}
use native.Mathlib.Decide.{dec_lt}
use cl_kmeans.Device.Buffers.{Buffer, written}
use cl_kmeans.Device.Histogram.{Loop, Counting, atomic_inc, count_round}

-- How many `q` below `n` pass the test.
abbrev pub how_many : (n : ℕ) → (ℕ → Bool) → ℕ
how_many zero p = 0
how_many (suc n) p = (if p n then 1 else 0) + how_many n p

-- Each point below `n` belongs to one of the `items` work-items, whose loop comes to it.
pub record Divides (loop : Loop) (n items : ℕ) (owner : ℕ → ℕ) : Type 0 where
  pub moves : 0 < loop.stride
  pub owned : (q : ℕ) → q < n → owner q < items
  pub first : (q : ℕ) → q < n → loop.start (owner q) ≤ q
  pub last : (q : ℕ) → q < n → q < loop.stop (owner q)
  pub bound : (i p : ℕ) → i < items → p < loop.stop i → owner p ≡ i → p < n
  pub begins : (i : ℕ) → i < items → loop.start i < loop.stop i → owner (loop.start i) ≡ i
  pub next :
      (i p : ℕ)
      → i < items
      → p + loop.stride < loop.stop i
      → owner p ≡ i
      → owner (p + loop.stride) ≡ i
  pub apart : (p q : ℕ) → q < n → owner p ≡ owner q → p < q → p + loop.stride ≤ q
  pub narrow : n + loop.stride ≤ 2 ^ 32

pub count_eq :
    (n : ℕ) (f g : ℕ → Bool) → ((q : ℕ) → q < n → f q ≡ g q) → how_many n f ≡ how_many n g
count_eq zero f g e = refl
count_eq (suc n) f g e =
    let ih = count_eq n f g (λ q l. e q (omega (arith, l))) in rw (e n (omega arith), ih) refl

-- One more point passes the test.
count_more :
    (n p : ℕ) (f g : ℕ → Bool)
    → p < n
    → f p ≡ false
    → ((q : ℕ) → q < n → q ≢ p → f q ≡ g q)
    → how_many n g ≡ (if g p then 1 else 0) + how_many n f
count_more zero p f g l b e = absurd (omega (arith, l))
count_more (suc n) p f g l b e = elim (ℕ_discrete n p) [
  | yes m ↦
      let same : how_many n f ≡ how_many n g =
        count_eq n f g (λ q k. e q (omega (arith, k)) (λ h. omega (arith, h, m, k))) in
      rw (m, b) (ground (arith, same))
  | no m ↦
      let ih : how_many n g ≡ (if g p then 1 else 0) + how_many n f =
        count_more n p f g (omega (arith, l, m)) b (λ q k. e q (omega (arith, k))) in
      let last : f n ≡ g n = e n (omega arith) m in rw (← last, ih) (omega arith)
]

pub count_zero : (n : ℕ) (f : ℕ → Bool) → ((q : ℕ) → q < n → f q ≡ false) → how_many n f ≡ 0
count_zero zero f e = refl
count_zero (suc n) f e =
    let ih = count_zero n f (λ q l. e q (omega (arith, l))) in
    let last : f n ≡ false = e n (omega arith) in rw (last, ih) refl

module _ (g_in : Buffer ℕ) (loop : Loop) (offset owner : ℕ → ℕ) (n items : ℕ)
    (D : Divides loop n items owner) (before : Buffer ℕ) (inputs : n ≤ g_in.size)
    (outputs : (q : ℕ) → q < n → offset (owner q) + g_in.cell q < before.size) where
  abbrev pub address : (q : ℕ) → ℕ
  address q = offset (owner q) + g_in.cell q

  -- The points that have been counted in `a`.
  abbrev pub counted : (position : ℕ → ℕ) (a : ℕ) → ℕ → Bool
  counted position a q = (address q == a) && ltb q (position (owner q))

  module _ (x : ℕ) (s : Counting) (l : x < items) (goes : s.position x < loop.stop x)
      (here : owner (s.position x) ≡ x) where
    abbrev pub p : ℕ
    p = s.position x

    pub p_below : p < n
    p_below = D.bound x p l goes here

    abbrev pub moved : ℕ → ℕ
    moved = written s.position x ((p + loop.stride) % 2 ^ 32)

    no_wrap : (p + loop.stride) % 2 ^ 32 ≡ p + loop.stride
    no_wrap = omega (arith, p_below, D.narrow)

    pub moved_self : (i : ℕ) → i ≡ x → moved i ≡ p + loop.stride
    moved_self i e = ground (arith, e, no_wrap)

    pub moved_other : (i : ℕ) → i ≢ x → moved i ≡ s.position i
    moved_other i e = ground (arith, e)

    ltb_apart : (q r t : ℕ) → r ≤ t → (q < r) ⊎ (t ≤ q) → ltb q r ≡ ltb q t
    ltb_apart q r t k (inl h) = ground (arith, k, h)
    ltb_apart q r t k (inr h) = ground (arith, k, h)

    passed : (q : ℕ) → q < n → q ≢ p → owner q ≡ x → (q < p) ⊎ (p + loop.stride ≤ q)
    passed q k e w = elim (dec_lt q p) [
      | yes h ↦ inl h
      | no h ↦ inr (D.apart p q k (here ∙ sym w) (omega (arith, h, e)))
    ]

    ltb_others : (q : ℕ) → q < n → q ≢ p → ltb q (s.position (owner q)) ≡ ltb q (moved (owner q))
    ltb_others q k e = elim (ℕ_discrete (owner q) x) [
      | yes w ↦
          ap (λ i. ltb q (s.position i)) w
          ∙ ltb_apart q p (p + loop.stride) (omega arith) (passed q k e w)
          ∙ ap (ltb q) (sym (moved_self (owner q) w))
      | no w ↦ ap (ltb q) (sym (moved_other (owner q) w))
    ]

    counted_others : (a q : ℕ) → q < n → q ≢ p → counted s.position a q ≡ counted moved a q
    counted_others a q k e = ap (λ b. (address q == a) && b) (ltb_others q k e)

    not_yet : (a : ℕ) → counted s.position a p ≡ false
    not_yet a =
        let same : ltb p (s.position (owner p)) ≡ false =
          ap (λ i. ltb p (s.position i)) here ∙ ltb_self p in
        ap (λ b. (address p == a) && b) same ∙ and_false (address p == a)
      where
        ltb_self : (m : ℕ) → ltb m m ≡ false
        ltb_self m = ground arith

        and_false : (b : Bool) → (b && false) ≡ false
        and_false b = ground arith

    now : (a : ℕ) → counted moved a p ≡ (address p == a)
    now a =
        ap (λ b. (address p == a) && b) (ap (ltb p) (moved_self (owner p) here) ∙ ltb_more p)
        ∙ and_true (address p == a)
      where
        ltb_more : (m : ℕ) → ltb m (m + loop.stride) ≡ true
        ltb_more m = ground (arith, D.moves)

        and_true : (b : Bool) → (b && true) ≡ b
        and_true b = ground arith

    pub counted_moved :
        (a : ℕ)
        → how_many n (counted moved a)
          ≡ (if address p == a then 1 else 0) + how_many n (counted s.position a)
    counted_moved a =
        count_more n p (counted s.position a) (counted moved a) p_below (not_yet a)
          (counted_others a)
        ∙ ap (λ b. (if b then 1 else 0) + how_many n (counted s.position a)) (now a)

    pub round_lem :
        s.g_out.size ≡ before.size
        → count_round g_in loop offset x s
          ≡ some (record {
            position = moved;
            g_out = record s.g_out {
              cell = written s.g_out.cell (address p) ((s.g_out.cell (address p) + 1) % 2 ^ 32);
            };
          })
    unfolding count_round atomic_inc
    round_lem e =
        let within : ltb p g_in.size ≡ true = ltb_lt (omega (arith, p_below, inputs)) in
        let there : ltb (offset x + g_in.cell p) s.g_out.size ≡ true =
          subst (λ i. ltb (offset i + g_in.cell p) s.g_out.size ≡ true) here
            (ltb_lt (omega (arith, outputs p p_below, e))) in
        rw (ltb_lt goes, within, there)
          (ap
            (λ i. some (record {
              position = moved;
              g_out = record s.g_out {
                cell =
                    written s.g_out.cell (offset i + g_in.cell p)
                      ((s.g_out.cell (offset i + g_in.cell p) + 1) % 2 ^ 32);
              };
            }))
            (sym here))

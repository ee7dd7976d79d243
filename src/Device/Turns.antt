-- ===== src/Device/Turns.antt =====
-- The counting loops end, and count each point once, whatever the order of the rounds.
use cl_kmeans.Prelude.{
  ℕ, ◌+◌, ◌%◌, ◌^◌, ◌<◌, ◌≤◌, List, [], ◌∷◌, ℕ_discrete, ◌∙◌, ap, ◌≡◌, refl, sym, arith, ltb, ◌==◌,
  true, false, inl, inr, if◌then◌else◌, Gives, Gives-bind,
}
use native.Mathlib.Decide.{dec_lt}
use cl_kmeans.Device.Buffers.{Buffer, written, run_items, times, times_self, times_other, eq_cases}
use cl_kmeans.Device.Histogram.{Loop, Counting, count_round, count_rounds}
use cl_kmeans.Device.Owners.{
  how_many, count_eq, count_zero, Divides, address, counted, counted_moved, round_lem, moved_self,
  moved_other,
}

cell_step :
    (cell : ℕ → ℕ) (t a b k : ℕ)
    → cell a ≡ (b + k) % 2 ^ 32
    → written cell t ((cell t + 1) % 2 ^ 32) a ≡ (b + ((if t == a then 1 else 0) + k)) % 2 ^ 32
cell_step cell t a b k h = elim (ℕ_discrete t a) [
  | yes e ↦ rw (e, ==_refl a, h) (omega arith)
  | no e ↦ ground (arith, e, h)
]
  where
    ==_refl : (m : ℕ) → (m == m) ≡ true
    ==_refl m = ground arith

module _ (g_in : Buffer ℕ) (loop : Loop) (offset owner : ℕ → ℕ) (n items : ℕ)
    (D : Divides loop n items owner) (before : Buffer ℕ) (inputs : n ≤ g_in.size)
    (outputs : (q : ℕ) → q < n → offset (owner q) + g_in.cell q < before.size) where
  abbrev so_far : (position : ℕ → ℕ) (a : ℕ) → ℕ
  so_far position a =
      how_many n (counted g_in loop offset owner n items D before inputs outputs position a)

  abbrev target : (q : ℕ) → ℕ
  target = address g_in loop offset owner n items D before inputs outputs

  record Counted (turns : List ℕ) (s : Counting) : Type 0 where
    size : s.g_out.size ≡ before.size
    cells :
        (a : ℕ)
        → before.cell a < 2 ^ 32
        → s.g_out.cell a ≡ (before.cell a + so_far s.position a) % 2 ^ 32
    stands : (i : ℕ) → i < items → s.position i < loop.stop i → owner (s.position i) ≡ i
    enough : (i : ℕ) → i < items → loop.stop i ≤ s.position i + times i turns

  Counted-moved :
      (x : ℕ) (turns : List ℕ) (s : Counting)
      → x < items
      → s.position x < loop.stop x
      → Counted (x ∷ turns) s
      → Gives (Counted turns) (count_round g_in loop offset x s)
  Counted-moved x turns s l goes c =
      let here = c.stands x l goes in
      rw (round_lem g_in loop offset owner n items D before inputs outputs x s l goes here c.size)
        (record {
          size = c.size;
          cells = λ a word.
              cell_step s.g_out.cell (target (s.position x)) a (before.cell a) (so_far s.position a)
                (c.cells a word)
              ∙ ap (λ m. (before.cell a + m) % 2 ^ 32)
                  (sym (
                    counted_moved g_in loop offset owner n items D before inputs outputs x s l goes
                      here a));
          stands = λ i k h. elim (eq_cases i x) [
            | inl e ↦
                let to =
                  moved_self g_in loop offset owner n items D before inputs outputs x s l goes here
                    i e in
                rw (to, e) (D.next x (s.position x) l (ground (arith, h, to, e)) here)
            | inr e ↦
                let to =
                  moved_other g_in loop offset owner n items D before inputs outputs x s l goes here
                    i e in
                rw to (c.stands i k (omega (arith, h, to)))
          ];
          enough = λ i k. elim (eq_cases i x) [
            | inl e ↦
                let to =
                  moved_self g_in loop offset owner n items D before inputs outputs x s l goes here
                    i e in
                let t = times_self x i turns (sym e) in
                let m = c.enough i k in rw to (ground (arith, m, t, e, D.moves))
            | inr e ↦
                let to =
                  moved_other g_in loop offset owner n items D before inputs outputs x s l goes here
                    i e in
                let t = times_other x i turns (λ h. e (sym h)) in
                let m = c.enough i k in rw to (omega (arith, m, t))
          ];
        })

  Counted-ended :
      (x : ℕ) (turns : List ℕ) (s : Counting)
      → loop.stop x ≤ s.position x
      → Counted (x ∷ turns) s
      → Gives (Counted turns) (count_round g_in loop offset x s)
  unfolding count_round
  Counted-ended x turns s e c =
      let ends : ltb (s.position x) (loop.stop x) ≡ false = ground (arith, e) in
      rw ends (record {
        size = c.size;
        cells = c.cells;
        stands = c.stands;
        enough = λ i k. elim (eq_cases i x) [
          | inl h ↦ ground (arith, h, e)
          | inr h ↦ omega (arith, c.enough i k, times_other x i turns (λ h'. h (sym h')))
        ];
      })

  Counted-run :
      (turns : List ℕ) (s : Counting)
      → ((i : ℕ) → items ≤ i → times i turns ≡ 0)
      → Counted turns s
      → Gives (Counted []) (run_items (count_round g_in loop offset) turns s)
  unfolding run_items
  Counted-run [] s o c = c
  Counted-run (x ∷ turns) s o c =
      Gives-bind (Counted []) (Counted turns) (count_round g_in loop offset x s) _
        (elim (dec_lt (s.position x) (loop.stop x)) [
          | yes h ↦ Counted-moved x turns s known h c
          | no h ↦ Counted-ended x turns s (omega (arith, h)) c
        ])
        (λ s' c'. Counted-run turns s' (λ i k. let t = o i k in ground (arith, t)) c')
    where
      known : x < items
      known = elim (dec_lt x items) [
        | yes h ↦ h
        | no h ↦ absurd (omega (arith, o x (omega (arith, h)), times_self x x turns refl))
      ]

  -- Every point of a bin is counted, on top of what the bin held.
  pub count_rounds_lem :
      (turns : List ℕ)
      → ((i : ℕ) → items ≤ i → times i turns ≡ 0)
      → ((i : ℕ) → i < items → loop.stop i ≤ loop.start i + times i turns)
      → Gives
          (λ b.
            (b.size ≡ before.size)
            × ((a : ℕ)
                → before.cell a < 2 ^ 32
                → b.cell a ≡ (before.cell a + how_many n (λ q. target q == a)) % 2 ^ 32))
          (count_rounds g_in loop offset turns before)
  unfolding count_rounds
  count_rounds_lem turns o e =
      Gives-bind _ (Counted [])
        (run_items (count_round g_in loop offset) turns
          (record { position = loop.start; g_out = before }))
        _
        (Counted-run turns _ o (record {
          size = refl;
          cells = λ a word.
              let none_yet =
                count_zero n
                  (counted g_in loop offset owner n items D before inputs outputs loop.start a)
                  (λ q l. let f = D.first q l in ground (arith, f)) in
              rw none_yet (omega (arith, word));
          stands = D.begins;
          enough = e;
        }))
        (λ s c. (
          c.size,
          λ a word.
              c.cells a word
              ∙ ap (λ m. (before.cell a + m) % 2 ^ 32)
                  (count_eq n _ (λ q. target q == a)
                    (λ q l.
                      let k = D.last q l in
                      let m = c.enough (owner q) (D.owned q l) in ground (arith, k, m))),
        ))

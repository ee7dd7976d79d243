-- ===== src/Driver/Labels.antt =====
-- The reads of the labels at the end of `KmeansThreeStageBuffered::run`.
use cl_kmeans.Prelude.{
  ℕ, zero, suc, ◌+◌, ◌-◌, ◌≤◌, ◌<◌, List, [], ◌∷◌, ◌++◌, Option, none, some, ℤ, pos, negsuc, ◌≡◌,
  ◌⊎◌, inl, inr, refl, sym, arith, ltb, ◌==◌, Bool-cases, if◌then◌else◌, ◌>>=◌, Gives, Gives-if,
  subst, IsDefined-some,
}
use cl_kmeans.Cache.State.{Queue, Cache}
use cl_kmeans.Cache.Transfer.{read}
use cl_kmeans.Cache.Defined.{read-IsDefined}
use cl_kmeans.Driver.Buffered.{Ending, aborted, completed, asserted}

asserted_lem :
    {S : Type 0} (P : Ending S → Type 0) (z : ℤ) (rest : Option (Ending S))
    → P aborted
    → Gives P rest
    → Gives P (asserted z rest)
asserted_lem P (pos n) rest a h = Gives-if P (n == 1) rest (some aborted) (λ _. h) (λ _. a)
asserted_lem P (negsuc n) rest a h = a

module _ (queue : Queue) (labels_handle labels_content_size : ℕ) where
  abbrev pub iter_step_of : (iter end : ℕ) → ℕ
  iter_step_of iter end =
      if ltb end (iter + labels_content_size) then end else iter + labels_content_size

  -- The loop, of at most `fuel` tests of its condition; `ranges` are those read so far.
  unfoldable pub read_labels :
      (fuel : ℕ)
      → Cache
      → (iter end : ℕ) → (ranges : List (ℕ × ℕ)) → Option (Ending (Cache × List (ℕ × ℕ)))
  read_labels zero c iter end ranges = none
  read_labels (suc fuel) c iter end ranges =
      let iter_step = iter_step_of iter end in
      let rest = (do
        r ← read c queue labels_handle iter iter_step none []
        asserted r.0 (
            read_labels fuel r.2 (iter + labels_content_size) end
              (ranges ++ (iter, iter_step) ∷ []))) in
      if ltb iter end then rest else some (completed (c, ranges))

  -- From the begin of the host's labels, which have `size` bytes.
  unfoldable pub read_all_labels : Cache → (begin size : ℕ) → Option (Ending (Cache × List (ℕ × ℕ)))
  read_all_labels c begin size = read_labels (suc size) c begin (begin + size) []

  -- Ranges of at most `labels_content_size` bytes, and not empty, each of which begins where the
  -- one before it ends, from `a` to `e`.
  abbrev pub Chain : (a e : ℕ) → List (ℕ × ℕ) → Type 0
  Chain a e [] = a ≡ e
  Chain a e (r ∷ rs) = (r.0 ≡ a) × (r.0 < r.1) × (r.1 ≤ r.0 + labels_content_size) × Chain r.1 e rs

  Chain-snoc :
      (a m e : ℕ) (rs : List (ℕ × ℕ))
      → Chain a m rs
      → m < e
      → e ≤ m + labels_content_size
      → Chain a e (rs ++ (m, e) ∷ [])
  Chain-snoc a m e [] h l k = (sym h, l, k, refl)
  Chain-snoc a m e (r ∷ rs) (h, h', h'', hs) l k = (h, h', h'', Chain-snoc r.1 m e rs hs l k)

  -- Where the loop stands: at its iterator, or at the end.
  abbrev At : (iter end at : ℕ) → Type 0
  At iter end at = ((at ≡ iter) × (iter ≤ end)) ⊎ ((at ≡ end) × (end ≤ iter))

  abbrev pub Covered : (begin end : ℕ) → Ending (Cache × List (ℕ × ℕ)) → Type 0
  Covered begin end r =
      (r ≡ aborted)
      ⊎ ((c : Cache) × (ranges : List (ℕ × ℕ)) × (r ≡ completed (c, ranges))
          × Chain begin end ranges)

  module _ (some_label : 0 < labels_content_size) where
    step_lem :
        (iter end : ℕ)
        → iter < end
        → (iter < iter_step_of iter end)
          × (iter_step_of iter end ≤ iter + labels_content_size)
          × At (iter + labels_content_size) end (iter_step_of iter end)
    step_lem iter end l = elim (Bool-cases (ltb end (iter + labels_content_size))) [
      | inl b ↦
          let less : end < iter + labels_content_size = ground (arith, b) in
          rw b (l, omega (arith, less), inr (refl, omega (arith, less)))
      | inr b ↦
          let more : iter + labels_content_size ≤ end = ground (arith, b) in
          rw b (omega (arith, some_label), omega arith, inl (refl, more))
    ]

    read_labels_lem :
        (fuel : ℕ) (c : Cache) (begin iter end at : ℕ) (ranges : List (ℕ × ℕ))
        → end - iter < fuel
        → At iter end at
        → Chain begin at ranges
        → Gives (Covered begin end) (read_labels fuel c iter end ranges)
    unfolding read_labels
    read_labels_lem zero c begin iter end at ranges h w k = absurd (omega (arith, h))
    read_labels_lem (suc fuel) c begin iter end at ranges h w k =
        Gives-if (Covered begin end) (ltb iter end) _ _
          (λ l.
            let stays : at ≡ iter = elim w [
              | inl (e, _) ↦ e
              | inr (e, e') ↦ absurd (ground (arith, l, e'))
            ] in
            let (less, most, next) = step_lem iter end (ground (arith, l)) in
            let (r, e) =
              IsDefined-some (read c queue labels_handle iter (iter_step_of iter end) none [])
                (read-IsDefined c queue labels_handle iter (iter_step_of iter end) none []) in
            rw e (
              asserted_lem (Covered begin end) r.0 _ (inl refl) (
                read_labels_lem fuel r.2 begin (iter + labels_content_size) end
                  (iter_step_of iter end) (ranges ++ (iter, iter_step_of iter end) ∷ [])
                  (ground (arith, h, l, some_label)) next
                  (Chain-snoc begin iter (iter_step_of iter end) ranges
                    (subst (λ m. Chain begin m ranges) stays k) less most))))
          (λ l.
            let stays : at ≡ end = elim w [
              | inl (e, e') ↦ ground (arith, l, e, e')
              | inr (e, _) ↦ e
            ] in
            inr (c, ranges, refl, subst (λ m. Chain begin m ranges) stays k))

    -- Where the labels of a buffer are not empty, the reads of the labels end. Either an assertion
    -- fails, or the ranges that were read follow on each other from the begin to the end of the
    -- host's labels, none of them empty or longer than the labels of a buffer.
    pub read_all_labels-Chain :
        (c : Cache) (begin size : ℕ)
        → Gives (Covered begin (begin + size)) (read_all_labels c begin size)
    unfolding read_all_labels
    read_all_labels-Chain c begin size =
        read_labels_lem (suc size) c begin begin (begin + size) begin [] (omega arith)
          (inl (refl, omega arith)) refl

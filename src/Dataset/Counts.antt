-- ===== src/Dataset/Counts.antt =====
-- The counts of `ClusterGenerator`: how many points each cluster gets.
use native.Mathlib.Nat.{mul-div-le, lt-mul-div-succ, mod-le}
use cl_kmeans.Prelude.{
  ℕ, ◌+◌, ◌-◌, ◌*◌, ◌/◌, ◌%◌, ◌≤◌, ◌<◌, false, ◌≡◌, sym, false, ◌⊎◌, inl, inr, refl, some, arith,
  ◌==◌, Bool-cases,
}
use cl_kmeans.Dataset.Generator.{Settings, Counts, counts, start_of}

-- Fewer points are left out than there are clusters.
pub record IsEven (s : Settings) (n : Counts) : Type 0 where
  pub counted : counts s ≡ some n
  pub few : n.remainder < s.clusters

div_one : (k a : ℕ) → 0 < k → k ≤ a → a < k + k → a / k ≡ 1
div_one k a p h l = grind (arith, mul-div-le a k, lt-mul-div-succ a p)

-- While fewer points are to be left out than there are clusters, a cluster leaves out none or one.
pub start_of_lem :
    (s : Settings) (c r : ℕ)
    → r < s.clusters
    → c < s.clusters
    → ((start_of s c r ≡ 0) × ((r ≡ 0) ⊎ (c ≡ 0))) ⊎ ((start_of s c r ≡ 1) × (0 < r) × (0 < c))
unfolding start_of
start_of_lem s c r h k = elim (Bool-cases (r == 0)) [
  | inl e ↦ inl (ground (arith, e), inl (ground (arith, e)))
  | inr e ↦ elim (Bool-cases (c == 0)) [
    | inl e' ↦ inl (ground (arith, e, e'), inr (ground (arith, e')))
    | inr e' ↦
        let one : (s.clusters + r - 2) / (s.clusters - 1) ≡ 1 =
          div_one (s.clusters - 1) (s.clusters + r - 2) (ground arith) (ground arith)
            (ground arith) in
        inr (ground (arith, e, e', one), ground (arith, e), ground (arith, e'))
  ]
]

abbrev pub counted : Settings → Counts
counted s = record {
  num_points =
      s.bytes / 4 / s.features / s.clusters * s.clusters
      - (s.bytes / 4 / s.features / s.clusters * s.clusters) % s.multiple;
  points_per_cluster = s.bytes / 4 / s.features / s.clusters;
  remainder = (s.bytes / 4 / s.features / s.clusters * s.clusters) % s.multiple;
}

-- The settings by which is divided are positive.
pub counts-some :
    (s : Settings) {n : Counts}
    → counts s ≡ some n
    → (0 < s.features) × (0 < s.clusters) × (n ≡ counted s)
unfolding counts
counts-some s e = elim (Bool-cases (s.features == 0)) [
  | inl h ↦ absurd (ground (arith, e, h))
  | inr h ↦ elim (Bool-cases (s.clusters == 0)) [
    | inl h' ↦ absurd (ground (arith, e, h, h'))
    | inr h' ↦ elim (Bool-cases (s.multiple == 0)) [
      | inl h'' ↦ absurd (ground (arith, e, h, h', h''))
      | inr h'' ↦ (ground (arith, h), ground (arith, h'), sym (counts_eq s h h' h'' e))
    ]
  ]
]
  where
    counts_eq :
        (s : Settings) {n : Counts}
        → (s.features == 0) ≡ false
        → (s.clusters == 0) ≡ false
        → (s.multiple == 0) ≡ false
        → counts s ≡ some n
        → counted s ≡ n
    counts_eq s h h' h'' e = let known : counts s ≡ some (counted s) = rw (h, h', h'') refl in cc

-- The points of all clusters are those that count and those that are left out; where a cluster has
-- no points, none is left out.
pub counts_lem :
    (s : Settings) (n : Counts)
    → counts s ≡ some n
    → (n.num_points + n.remainder ≡ n.points_per_cluster * s.clusters)
      × (n.points_per_cluster ≡ 0 → n.remainder ≡ 0)
counts_lem s n e =
    let (_, _, eq) = counts-some s e in
    rw eq (
      omega (arith, mod-le (s.bytes / 4 / s.features / s.clusters * s.clusters) s.multiple),
      λ z. grind (arith, z, mod-le (s.bytes / 4 / s.features / s.clusters * s.clusters) s.multiple),
    )

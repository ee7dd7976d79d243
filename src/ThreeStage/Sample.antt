-- ===== src/ThreeStage/Sample.antt =====
-- Kernels on natural numbers, and four points of one feature and two clusters, for the instances of
-- the theorems on the three-stage and the single-stage driver.
use cl_kmeans.Prelude.{
  ℕ, suc, ◌+◌, ◌-◌, ◌/◌, ◌≡◌, refl, ap, true, false, List, [], ◌∷◌, none, some, length, replicate,
  ltb, ◌==◌, if◌then◌else◌,
}
use cl_kmeans.ThreeStage.BufferMap.{Phase, ll, mu, cu, Vectors, Elements, BufferMap}
use cl_kmeans.ThreeStage.Run.{Kernels, Host}
use cl_kmeans.ThreeStage.Lloyd.{KeepsLengths}
use cl_kmeans.ThreeStage.OneQueue.{KeepsCentroids}

abbrev pub numbers : Elements
numbers = record {
  Point = ℕ;
  Label = ℕ;
  Mass = ℕ;
  zero_point = 0;
  zero_label = 0;
  zero_mass = 0;
  uninitialised = λ n. replicate n 99;
  cpu = λ p. false;
  wait_unassigned = false;
  assign_mapped = λ src dst. none;
}

abbrev pub distance : ℕ → ℕ → ℕ
distance a b = (a - b) + (b - a)

-- The number of the nearest centroid, from `i` on; `best` is the nearest so far.
abbrev pub nearest : (x : ℕ) → List ℕ → (i best at : ℕ) → ℕ
nearest x [] i best at = at
nearest x (c ∷ cs) i best at =
    if ltb (distance x c) best
    then nearest x cs (suc i) (distance x c) i
    else nearest x cs (suc i) best at

abbrev pub label_all : (points centroids labels : List ℕ) → List ℕ
label_all [] centroids labels = labels
label_all (p ∷ ps) centroids [] = []
label_all (p ∷ ps) centroids (l ∷ ls) = nearest p centroids 0 1000 0 ∷ label_all ps centroids ls

-- The sum of `values` at the labels `i`.
abbrev pub sum_at : (i : ℕ) → (labels values : List ℕ) → ℕ
sum_at i [] values = 0
sum_at i (l ∷ ls) [] = 0
sum_at i (l ∷ ls) (x ∷ xs) = if l == i then x + sum_at i ls xs else sum_at i ls xs

abbrev pub add_sums : (i : ℕ) → (labels values sums : List ℕ) → List ℕ
add_sums i labels values [] = []
add_sums i labels values (s ∷ ss) = (s + sum_at i labels values) ∷ add_sums (suc i) labels values ss

abbrev pub divide_all : (values masses : List ℕ) → List ℕ
divide_all [] masses = []
divide_all (x ∷ xs) [] = x ∷ xs
divide_all (x ∷ xs) (m ∷ ms) = x / m ∷ divide_all xs ms

abbrev pub kernels : Kernels numbers
kernels = record {
  labeling = label_all;
  mass_update = λ l m. add_sums 0 l (replicate (length l) 1) m;
  centroid_update = λ p c l m. add_sums 0 l p c;
  divide = divide_all;
}

length-label_all : (p c l : List ℕ) → length (label_all p c l) ≡ length l
length-label_all [] c l = refl
length-label_all (x ∷ p) c [] = refl
length-label_all (x ∷ p) c (y ∷ l) = ap suc (length-label_all p c l)

length-add_sums : (i : ℕ) (l v s : List ℕ) → length (add_sums i l v s) ≡ length s
length-add_sums i l v [] = refl
length-add_sums i l v (x ∷ s) = ap suc (length-add_sums (suc i) l v s)

length-divide_all : (v m : List ℕ) → length (divide_all v m) ≡ length v
length-divide_all [] m = refl
length-divide_all (x ∷ v) [] = refl
length-divide_all (x ∷ v) (y ∷ m) = ap suc (length-divide_all v m)

pub kernels-KeepsLengths : KeepsLengths numbers kernels
kernels-KeepsLengths = record {
  labeling = length-label_all;
  mass_update = λ l m. length-add_sums 0 l (replicate (length l) 1) m;
  centroid_update = λ p c l m. length-add_sums 0 l p c;
  divide = length-divide_all;
}

abbrev pub queue_of : Phase → ℕ
queue_of ll = 0
queue_of mu = 1
queue_of cu = 2

abbrev pub host : Host numbers
host = record {
  host_points = 1 ∷ 3 ∷ 11 ∷ 13 ∷ [];
  host_centroids = 0 ∷ 4 ∷ [];
  host_labels = 0 ∷ 0 ∷ 0 ∷ 0 ∷ [];
  host_masses = 0 ∷ 0 ∷ [];
}

abbrev pub nothing : {T : Type 0} → Vectors T
nothing = record { refs = λ p. none; cells = λ p. [] }

abbrev pub buffers : BufferMap numbers
buffers = record {
  num_features = 0;
  num_points = 0;
  num_clusters = 0;
  device_map = λ p q. true;
  points = nothing;
  centroids = nothing;
  labels = nothing;
  masses = nothing;
}

-- The first points as the centroids.
abbrev pub first_points : (points centroids : List ℕ) → List ℕ
first_points points [] = []
first_points [] (c ∷ cs) = c ∷ cs
first_points (p ∷ ps) (c ∷ cs) = p ∷ first_points ps cs

length-first_points : (p c : List ℕ) → length (first_points p c) ≡ length c
length-first_points p [] = refl
length-first_points [] (x ∷ c) = refl
length-first_points (x ∷ p) (y ∷ c) = ap suc (length-first_points p c)

pub first_points-KeepsCentroids : KeepsCentroids (some first_points)
unfolding KeepsCentroids
first_points-KeepsCentroids p c = length-first_points p c

abbrev pub clustered : Host numbers
clustered = record {
  host_points = 1 ∷ 3 ∷ 11 ∷ 13 ∷ [];
  host_centroids = 2 ∷ 12 ∷ [];
  host_labels = 0 ∷ 0 ∷ 1 ∷ 1 ∷ [];
  host_masses = 2 ∷ 2 ∷ [];
}

-- ===== src/Parallel/Partition/Ranges.antt =====
-- pkg/parallel/partitioner.go: the boundaries between partitions.
use go_mongo_sync.Prelude.{
  ℕ, zero, suc, ◌+◌, ◌-◌, ◌≤◌, ◌<◌, ◌≡◌, ap, ◌∙◌, List, [], ◌∷◌, get_or, length, All, arith,
}
use go_mongo_sync.Parallel.Partition.{boundary_index, boundaries_from, object_id_boundaries}

-- A sample in the order of the ids, as `$sort` gives it.
abbrev pub IsSorted : List ℕ → Type 0
IsSorted [] = Unit
IsSorted (x ∷ xs) = All (λ y. x ≤ y) xs × IsSorted xs

All-get_or : (x : ℕ) (xs : List ℕ) (i : ℕ) → All (λ y. x ≤ y) xs → i < length xs → x ≤ get_or xs i 0
All-get_or x [] i a h = absurd (omega arith)
All-get_or x (y ∷ ys) zero a h = a.0
All-get_or x (y ∷ ys) (suc i) a h = All-get_or x ys i a.1 (omega arith)

get_or_mono :
    (xs : List ℕ) (i j : ℕ) → IsSorted xs → i ≤ j → j < length xs → get_or xs i 0 ≤ get_or xs j 0
get_or_mono [] i j s le lt = absurd (omega arith)
get_or_mono (x ∷ xs) zero zero s le lt = omega arith
get_or_mono (x ∷ xs) zero (suc j) s le lt = All-get_or x xs j s.0 (omega arith)
get_or_mono (x ∷ xs) (suc i) zero s le lt = absurd (omega arith)
get_or_mono (x ∷ xs) (suc i) (suc j) s le lt = get_or_mono xs i j s.1 (omega arith) (omega arith)

boundary_index_lt : (n num i : ℕ) → 0 < n → boundary_index n num i < n
unfolding boundary_index
boundary_index_lt n num i h = ground arith

boundary_index_mono : (n num i : ℕ) → boundary_index n num i ≤ boundary_index n num (i + 1)
unfolding boundary_index
boundary_index_mono n num i = grind arith

get_or-boundaries_from :
    (k i j num : ℕ) (samples : List ℕ)
    → j < k
    → get_or (boundaries_from k i samples num) j 0
      ≡ get_or samples (boundary_index (length samples) num (i + j)) 0
unfolding boundaries_from
get_or-boundaries_from zero i j num samples h = absurd (omega arith)
get_or-boundaries_from (suc k) i zero num samples h =
    ap (λ m. get_or samples (boundary_index (length samples) num m) 0) (omega arith)
get_or-boundaries_from (suc k) i (suc j) num samples h =
    get_or-boundaries_from k (i + 1) j num samples (omega arith)
    ∙ ap (λ m. get_or samples (boundary_index (length samples) num m) 0) (omega arith)

zero_add : (n : ℕ) → 0 + n ≡ n
zero_add n = omega arith

-- The boundaries of a sorted sample that is not empty are in the order of the ids.
pub boundaries_mono :
    (num j : ℕ) (samples : List ℕ)
    → IsSorted samples
    → 0 < length samples
    → j + 1 < num - 1
    → get_or (object_id_boundaries samples num) j 0
      ≤ get_or (object_id_boundaries samples num) (j + 1) 0
unfolding object_id_boundaries
boundaries_mono num j samples s pos h =
    rw
      (
        get_or-boundaries_from (num - 1) 0 j num samples (omega arith),
        get_or-boundaries_from (num - 1) 0 (j + 1) num samples (omega arith),
      )
      (get_or_mono samples (boundary_index (length samples) num (0 + j))
        (boundary_index (length samples) num (0 + (j + 1))) s
        (omega (
          arith,
          boundary_index_mono (length samples) num j,
          ap (boundary_index (length samples) num) (zero_add j),
          ap (boundary_index (length samples) num) (zero_add (j + 1)),
        ))
        (boundary_index_lt (length samples) num (0 + (j + 1)) pos))

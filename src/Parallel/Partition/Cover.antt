-- ===== src/Parallel/Partition/Cover.antt =====
-- pkg/parallel/partitioner.go: each id lies in one partition.
use go_mongo_sync.Prelude.{
  ℕ, zero, suc, ◌+◌, ◌-◌, ◌*◌, ◌/◌, ◌≤◌, ◌<◌, ◌≡◌, refl, ap, subst, leb→le, ◌∙◌, Bool, true, false,
  ◌&&◌, Bool-cases, inl, inr, Option, some, List, [], ◌∷◌, get_or, length, ltb, leb, lt→ltb, le→ltb,
  ◌==◌, if◌then◌else◌, arith,
}
use go_mongo_sync.Parallel.Partition.{
  Partition, PartitionConfig, PartitionFilter, created, all_ids, between, above, up_to,
  partition_of, partitions_from, build_partition_filter, object_id_boundaries, create_partitions,
  whole_collection, num_partitions,
}
use go_mongo_sync.Parallel.Partition.Ranges.{IsSorted, boundaries_mono}

-- Which ids a query on `_id` finds.
abbrev pub finds : PartitionFilter → ℕ → Bool
finds all_ids id = true
finds (between low high) id = ltb low id && leb id high
finds (above low) id = ltb low id
finds (up_to high) id = leb id high

abbrev one_if : Bool → ℕ
one_if true = 1
one_if false = 0

-- In how many partitions an id is found.
unfoldable pub times_found : ℕ → List Partition → ℕ
unfolding build_partition_filter
times_found id [] = 0
times_found id (p ∷ ps) = one_if (finds (build_partition_filter p) id) + times_found id ps

unfoldable pub sum_est_count : List Partition → ℕ
sum_est_count [] = 0
sum_est_count (p ∷ ps) = p.est_count + sum_est_count ps

add-sub_self : (i : ℕ) → i + 1 - 1 ≡ i
add-sub_self i = omega arith

suc-add : (i : ℕ) → i + 1 ≡ suc i
suc-add i = omega arith

suc-sub : (i : ℕ) → suc i - 1 ≡ i
suc-sub i = omega arith

module _ (id total num : ℕ) (bs : List ℕ) where
  -- The id lies beyond the partitions before the round `i`.
  abbrev reached : ℕ → Bool
  reached i = if ltb 0 i then ltb (get_or bs (i - 1) 0) id else true

  finds_last :
      (i : ℕ)
      → suc i ≡ num
      → finds (build_partition_filter (partition_of total num bs i)) id ≡ reached i
  unfolding build_partition_filter partition_of
  finds_last i e = elim (Bool-cases (ltb 0 i)) [
    | inl h ↦ rw (h, le→ltb i (num - 1) (omega arith)) refl
    | inr h ↦ rw (h, le→ltb i (num - 1) (omega arith)) refl
  ]

  finds_inner :
      (i : ℕ)
      → suc i < num
      → finds (build_partition_filter (partition_of total num bs i)) id
        ≡ (reached i && leb id (get_or bs i 0))
  unfolding build_partition_filter partition_of
  finds_inner i e = elim (Bool-cases (ltb 0 i)) [
    | inl h ↦ rw (h, lt→ltb i (num - 1) (omega arith)) refl
    | inr h ↦ rw (h, lt→ltb i (num - 1) (omega arith)) refl
  ]

  -- Beyond the boundary `i`, or in the partition `i`, but not in both.
  either_side :
      (i : ℕ)
      → (0 < i → get_or bs (i - 1) 0 ≤ get_or bs i 0)
      → one_if (reached i && leb id (get_or bs i 0)) + one_if (reached (i + 1)) ≡ one_if (reached i)
  either_side zero h = rw (add-sub_self zero) (ground arith)
  either_side (suc i) h = rw (add-sub_self (suc i)) (ground (arith, h (omega arith)))

  module _
      (boundaries_in_order : (j : ℕ) → j + 1 < num - 1 → get_or bs j 0 ≤ get_or bs (j + 1) 0) where
    boundary_before : (i : ℕ) → suc i < num → 0 < i → get_or bs (i - 1) 0 ≤ get_or bs i 0
    boundary_before zero e p = absurd (omega arith)
    boundary_before (suc j) e p = omega (
      arith,
      boundaries_in_order j (omega arith),
      ap (λ m. get_or bs m 0) (add-sub_self j),
      ap (λ m. get_or bs m 0) (suc-add j),
      ap (λ m. get_or bs m 0) (suc-sub j),
    )

    times_found_from :
        (k i : ℕ)
        → i + suc k ≡ num
        → times_found id (partitions_from (suc k) i total num bs) ≡ one_if (reached i)
    unfolding times_found partitions_from
    times_found_from zero i e = rw (finds_last i (omega arith)) (omega arith)
    times_found_from (suc k) i e =
        rw (finds_inner i (omega arith), times_found_from k (i + 1) (omega arith))
          (either_side i (boundary_before i (omega arith)))

rounds_fit : (q total num i : ℕ) → num * q ≤ total → i < num → (i + 1) * q ≤ total
rounds_fit q total num i room h = grind arith

next_round : (q i : ℕ) → (i + 1) * q ≡ i * q + q
next_round q i = grind arith

sum_est_count_from :
    (total num k i : ℕ) (bs : List ℕ)
    → i + suc k ≡ num
    → num * (total / num) ≤ total
    → sum_est_count (partitions_from (suc k) i total num bs) ≡ total - i * (total / num)
unfolding sum_est_count partitions_from partition_of
sum_est_count_from total num zero i bs e room = ground arith
sum_est_count_from total num (suc k) i bs e room = ground (
  arith,
  sum_est_count_from total num k (i + 1) bs (omega arith) room,
  rounds_fit (total / num) total num i room (omega arith),
  next_round (total / num) i,
)

share_fits : (total num : ℕ) → num * (total / num) ≤ total
share_fits total num = grind arith

-- The number of partitions is within its bounds where these are in order.
num_partitions_bounds :
    (c : PartitionConfig) (total : ℕ)
    → c.min_partitions ≤ c.max_partitions
    → (c.min_partitions ≤ num_partitions c total) × (num_partitions c total ≤ c.max_partitions)
unfolding num_partitions
num_partitions_bounds c total h = ground arith

length-partitions_from :
    (k i total num : ℕ) (bs : List ℕ) → length (partitions_from k i total num bs) ≡ k
unfolding partitions_from
length-partitions_from zero i total num bs = refl
length-partitions_from (suc k) i total num bs =
    omega (arith, length-partitions_from k (i + 1) total num bs)

not_zero : (n : ℕ) → 0 < n → (n == 0) ≡ false
not_zero n h = ground arith

-- What a division of a collection promises.
pub record Covers (c : PartitionConfig) (total : ℕ) (ps : List Partition) : Type 0 where
  -- each id is found by the filter of one partition
  pub found_once : (id : ℕ) → times_found id ps ≡ 1
  pub counts_add_up : sum_est_count ps ≡ total
  pub at_least_one : 1 ≤ length ps
  pub at_least_min : c.target_partition_size < total → c.min_partitions ≤ length ps
  pub at_most_max : length ps ≤ c.max_partitions

whole-Covers :
    (c : PartitionConfig) (total : ℕ)
    → 1 ≤ c.max_partitions
    → total ≤ c.target_partition_size
    → Covers c total (whole_collection total ∷ [])
unfolding times_found sum_est_count build_partition_filter
whole-Covers c total most small = record {
  found_once = λ id. refl;
  counts_add_up = omega arith;
  at_least_one = omega arith;
  at_least_min = λ h. absurd (omega arith);
  at_most_max = most;
}

module _ (c : PartitionConfig) (total : ℕ) (samples : List ℕ) (least : 1 ≤ c.min_partitions)
    (bounds : c.min_partitions ≤ c.max_partitions) (found : 0 < length samples)
    (sorted : IsSorted samples) where
  abbrev num : ℕ
  num = num_partitions c total

  split-Covers :
      (k : ℕ)
      → suc k ≡ num
      → Covers c total (partitions_from (suc k) 0 total num (object_id_boundaries samples num))
  split-Covers k e = record {
    found_once = λ id.
        times_found_from id total num bs (λ j h. boundaries_mono num j samples sorted found h) k 0
          (omega arith);
    counts_add_up =
        sum_est_count_from total num k 0 bs (omega arith) (share_fits total num) ∙ all_left;
    at_least_one = omega (arith, size);
    at_least_min = λ h. omega (arith, size, bounded.0);
    at_most_max = omega (arith, size, bounded.1);
  }
    where
      bs : List ℕ
      bs = object_id_boundaries samples num

      all_left : total - 0 * (total / num) ≡ total
      all_left = grind arith

      size : length (partitions_from (suc k) 0 total num bs) ≡ suc k
      size = length-partitions_from (suc k) 0 total num bs

      bounded : (c.min_partitions ≤ num) × (num ≤ c.max_partitions)
      bounded = num_partitions_bounds c total bounds

  -- With a configuration in order and a sorted sample that is not empty, the division of a
  -- collection succeeds. Each id, also of a document added later, is found by the filter of just
  -- one partition; the estimates add up to the number of documents; and there are at least one and
  -- at most `MaxPartitions` partitions, and at least `MinPartitions` if the collection is larger than the
  -- target size.
  pub create_partitions-Covers :
      (sample : ℕ → Option (List ℕ))
      → 1 ≤ c.target_partition_size
      → sample (num_partitions c total) ≡ some samples
      → (ps : List Partition) × (create_partitions c (some total) sample ≡ created ps)
        × Covers c total ps
  unfolding create_partitions
  create_partitions-Covers sample target e = elim (Bool-cases (leb total c.target_partition_size)) [
    | inl small ↦ (
      whole_collection total ∷ [],
      rw small refl,
      whole-Covers c total (omega arith) (leb→le _ _ small),
    )
    | inr large ↦ (
      partitions_from num 0 total num (object_id_boundaries samples num),
      rw (large, not_zero _ target, e, not_zero _ found, not_zero num some_partition) refl,
      subst (λ n. Covers c total (partitions_from n 0 total num (object_id_boundaries samples num)))
          last_round (split-Covers (num - 1) last_round),
    )
  ]
    where
      some_partition : 0 < num
      some_partition = omega (arith, (num_partitions_bounds c total bounds).0)

      last_round : suc (num - 1) ≡ num
      last_round = omega (arith, some_partition)

-- ===== src/Parallel/Partition.antt =====
-- pkg/parallel/partitioner.go: partitions of a collection by ranges of its ObjectIDs. An ObjectID is
-- the number that its 12 bytes are, the first the highest: MongoDB orders ids so. What MongoDB
-- answers, the number of documents and a sorted sample of ids, is an argument; `none` is an error.
-- The numbers of the configuration are not negative.
pub mod Ranges
pub mod Cover
use go_mongo_sync.Prelude.{
  ℕ, zero, suc, ◌+◌, ◌-◌, ◌*◌, ◌/◌, Bool, true, false, ◌||◌, Option, none, some, List, [], ◌∷◌,
  get_or, length, ltb, leb, ◌==◌, if◌then◌else◌,
}

pub record Partition : Type 0 where
  pub id : ℕ
  pub min_id : Option ℕ
  pub max_id : Option ℕ
  pub is_first : Bool
  pub is_last : Bool
  pub est_count : ℕ

pub record PartitionConfig : Type 0 where
  pub target_partition_size : ℕ
  pub max_partitions : ℕ
  pub min_partitions : ℕ

abbrev pub default_partition_config : PartitionConfig
default_partition_config = record {
  target_partition_size = 10000;
  max_partitions = 50;
  min_partitions = 1;
}

-- How `CreatePartitions` ends; a panic is a division by zero or a slice of negative length.
pub data Created : Type 0 where
  created : List Partition → Created
  count_failed aggregate_failed no_samples panics : Created

abbrev clamp_above : ℕ → ℕ → ℕ
clamp_above most n = if ltb most n then most else n

abbrev clamp_below : ℕ → ℕ → ℕ
clamp_below least n = if ltb n least then least else n

unfoldable pub num_partitions : PartitionConfig → ℕ → ℕ
num_partitions c total =
    clamp_below c.min_partitions (clamp_above c.max_partitions (total / c.target_partition_size))

-- `idx` of the loop of `getObjectIdBoundaries`, in a sample of `n` ids.
unfoldable pub boundary_index : ℕ → ℕ → ℕ → ℕ
boundary_index n num i = let idx = (i + 1) * (n / num) in if leb n idx then n - 1 else idx

-- The loop, from its round `i` on.
unfoldable pub boundaries_from : ℕ → ℕ → List ℕ → ℕ → List ℕ
unfolding boundary_index
boundaries_from zero i samples num = []
boundaries_from (suc k) i samples num =
    get_or samples (boundary_index (length samples) num i) 0 ∷ boundaries_from k (i + 1) samples num

unfoldable pub object_id_boundaries : List ℕ → ℕ → List ℕ
unfolding boundaries_from
object_id_boundaries samples num = boundaries_from (num - 1) 0 samples num

-- The partition of the round `i`.
unfoldable pub partition_of : ℕ → ℕ → List ℕ → ℕ → Partition
partition_of total num boundaries i = record {
  id = i;
  min_id = if ltb 0 i then some (get_or boundaries (i - 1) 0) else none;
  max_id = if ltb i (num - 1) then some (get_or boundaries i 0) else none;
  is_first = i == 0;
  is_last = i == num - 1;
  est_count = if i == num - 1 then total - i * (total / num) else total / num;
}

-- The loop of `CreatePartitions`, with `k` rounds left.
unfoldable pub partitions_from : ℕ → ℕ → ℕ → ℕ → List ℕ → List Partition
unfolding partition_of
partitions_from zero i total num boundaries = []
partitions_from (suc k) i total num boundaries =
    partition_of total num boundaries i ∷ partitions_from k (i + 1) total num boundaries

abbrev pub whole_collection : ℕ → Partition
whole_collection total = record {
  id = 0;
  min_id = none;
  max_id = none;
  is_first = true;
  is_last = true;
  est_count = total;
}

abbrev split_by : ℕ → ℕ → Option (List ℕ) → Created
split_by total num none = aggregate_failed
split_by total num (some samples) =
    if length samples == 0
    then no_samples
    else if num == 0
    then panics
    else created (partitions_from num 0 total num (object_id_boundaries samples num))

abbrev create_counted : PartitionConfig → ℕ → (ℕ → Option (List ℕ)) → Created
create_counted c total sample =
    if leb total c.target_partition_size
    then created (whole_collection total ∷ [])
    else if c.target_partition_size == 0
    then panics
    else split_by total (num_partitions c total) (sample (num_partitions c total))

-- `CreatePartitions`; the sample is by the number of partitions that it is asked for.
unfoldable pub create_partitions : PartitionConfig → Option ℕ → (ℕ → Option (List ℕ)) → Created
unfolding num_partitions object_id_boundaries partitions_from
create_partitions c none sample = count_failed
create_partitions c (some total) sample = create_counted c total sample

-- The filter of `BuildPartitionFilter` on `_id`: `$gt` and `$lte`.
pub data PartitionFilter : Type 0 where
  all_ids : PartitionFilter
  between : ℕ → ℕ → PartitionFilter
  above : ℕ → PartitionFilter
  up_to : ℕ → PartitionFilter

abbrev filter_of : Option ℕ → Option ℕ → PartitionFilter
filter_of (some low) (some high) = between low high
filter_of (some low) none = above low
filter_of none (some high) = up_to high
filter_of none none = all_ids

unfoldable pub build_partition_filter : Partition → PartitionFilter
build_partition_filter p = filter_of p.min_id p.max_id

-- `ValidatePartition`, by the answer of the database to a count of the filter.
unfoldable pub validate_partition : (PartitionFilter → Option ℕ) → Partition → Bool × Partition
unfolding build_partition_filter
validate_partition count p = elim (count (build_partition_filter p)) [
  | none ↦ (false, p)
  | some n ↦ (true, record p { est_count = n })
]

-- ===== src/Parallel/Tests.antt =====
-- The theorems on partitions at concrete inputs.
use go_mongo_sync.Prelude.{ℕ, ◌≡◌, refl, Option, some, List, [], ◌∷◌, arith}
use go_mongo_sync.Parallel.Partition.{
  Partition, PartitionConfig, created, create_partitions, object_id_boundaries, boundaries_from,
  boundary_index,
}
use go_mongo_sync.Parallel.Partition.Cover.{Covers, create_partitions-Covers}

abbrev config : PartitionConfig
config = record { target_partition_size = 10; max_partitions = 3; min_partitions = 1 }

abbrev samples : List ℕ
samples = 4 ∷ 8 ∷ 8 ∷ 15 ∷ 16 ∷ 23 ∷ 42 ∷ []

abbrev sample : ℕ → Option (List ℕ)
sample n = some samples

boundaries_of_samples : object_id_boundaries samples 3 ≡ 8 ∷ 16 ∷ []
unfolding object_id_boundaries boundaries_from boundary_index
boundaries_of_samples = refl

create_partitions-Covers_example :
    (ps : List Partition) × (create_partitions config (some 1000) sample ≡ created ps)
    × Covers config 1000 ps
create_partitions-Covers_example =
    create_partitions-Covers config 1000 samples (omega arith) (omega arith) (omega arith)
      (omega arith) sample (omega arith) refl

-- ===== src/Cluster/Coordinator/Returns.antt =====
-- pkg/cluster/event_coordinator.go: which runs of the goroutines' steps never panic.
use go_mongo_sync.Prelude.{ℕ, ◌+◌, ◌≤◌, ◌≡◌, Bool, true, false, Option, some, length}
use go_mongo_sync.Cluster.Coordinator.{
  EventCoordinator, DistributionMode, broadcast, round_robin, hash, other_mode,
}

abbrev pub is_hash : DistributionMode → Bool
is_hash broadcast = false
is_hash round_robin = false
is_hash hash = true
is_hash other_mode = false

-- How far the counter of the round robin can come with the events that wait.
abbrev pub reach : EventCoordinator → ℕ
reach ec = ec.next_processor + length ec.batch + length ec.input_queue

-- A step that returns, and a bound of the reach behind it.
Within : ℕ → Option EventCoordinator → Type 0
Within m o = (ec : EventCoordinator) × (o ≡ some ec) × (reach ec ≤ m)

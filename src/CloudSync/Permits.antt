-- ===== src/CloudSync/Permits.antt =====
-- cmd/cloud-sync/main.go: the semaphore that bounds how many collections are fetched at once. The one
-- for pushes is the same code. The semaphore is a channel, of which its capacity and how many tokens
-- it holds matter; `holders` counts the goroutines that have acquired a permit and not released it.
-- Taking the semaphore and sending to it is one step here, and waiting is `none`.
pub mod Bound
use go_mongo_sync.Prelude.{
  ℕ, zero, suc, ◌+◌, ◌-◌, Bool, true, false, Option, none, some, List, [], ◌∷◌, ltb, ◌==◌,
  if◌then◌else◌,
}

pub record Semaphore : Type 0 where
  pub capacity : ℕ
  pub tokens : ℕ

-- `semaphore` is none before it is made.
pub record Permits : Type 0 where
  pub semaphore : Option Semaphore
  pub holders : ℕ

abbrev pub new_semaphore : ℕ → Semaphore
new_semaphore capacity = record { capacity = capacity; tokens = 0 }

-- `initializeFetchSemaphore`
unfoldable pub initialize_semaphore : ℕ → Permits → Permits
initialize_semaphore capacity p = record p { semaphore = some (new_semaphore capacity) }

-- The loop of `updateFetchParallelism`: a receive from the old semaphore for each unit of the new
-- capacity, and how many found a token.
unfoldable pub transfer : ℕ → ℕ → ℕ
transfer zero tokens = 0
transfer (suc n) zero = transfer n zero
transfer (suc n) (suc tokens) = transfer n tokens + 1

-- `updateFetchParallelism`, and the permits it logs as transferred. The old semaphore is dropped.
unfoldable pub update_parallelism : ℕ → Permits → ℕ × Permits
update_parallelism capacity p = elim p.semaphore [
  | none ↦ (0, record p { semaphore = some (new_semaphore capacity) })
  | some old ↦
      (transfer capacity old.tokens, record p { semaphore = some (new_semaphore capacity) })
]

abbrev pub acquire_from : Permits → Option Semaphore → Option Permits
acquire_from p none = some (record p { holders = p.holders + 1 })
acquire_from p (some s) =
    if ltb s.tokens s.capacity
    then some
        (record { semaphore = some (record s { tokens = s.tokens + 1 }); holders = p.holders + 1 })
    else none

-- `acquireFetchPermit`
unfoldable pub acquire_permit : Permits → Option Permits
acquire_permit p = acquire_from p p.semaphore

abbrev pub release_to : Permits → Option Semaphore → Permits
release_to p none = record p { holders = p.holders - 1 }
release_to p (some s) = record {
  semaphore = some (record s { tokens = s.tokens - 1 });
  holders = p.holders - 1;
}

-- `releaseFetchPermit`, by a goroutine that holds a permit.
unfoldable pub release_permit : Permits → Permits
release_permit p = release_to p p.semaphore

-- `getFetchParallelism`
unfoldable pub get_parallelism : Permits → ℕ
get_parallelism p = elim p.semaphore [ none ↦ 10 | some s ↦ s.capacity ]

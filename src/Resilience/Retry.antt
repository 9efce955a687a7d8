-- ===== src/Resilience/Retry.antt =====
-- pkg/resilience/retry_manager.go: the retry manager. A function that may fail is the list of its
-- results by attempt, a context says after which attempt it is done, and the delays of
-- `calculateDelay`, which come from floats and a random source, are an argument. The average of the
-- attempts is a float and left out, and so is the time of the last retry.
pub mod Search
pub mod Attempts
use go_mongo_sync.Prelude.{
  ℕ, zero, suc, ◌+◌, ◌-◌, Bool, true, false, Option, none, some, List, [], ◌∷◌, ◌&&◌, ◌||◌, ltb,
  leb, ◌==◌, if◌then◌else◌, length, drop, take,
}
use go_mongo_sync.Prelude.Bytes.{Bytes, bytes_eq, slice}

-- The loop of `findSubstring` from the index `i`, for a number of rounds.
unfoldable pub search_from : ℕ → ℕ → Bytes → Bytes → Bool
search_from zero i s substr = false
search_from (suc k) i s substr =
    let rest = search_from k (i + 1) s substr in
    if bytes_eq (slice i (i + length substr) s) substr then true else rest

-- `findSubstring`: the indices from 0 to `len(s) - len(substr)`.
unfoldable pub find_substring : Bytes → Bytes → Bool
unfolding search_from
find_substring s substr = search_from (length s + 1 - length substr) 0 s substr

unfoldable pub contains : Bytes → Bytes → Bool
unfolding find_substring
contains s substr =
    leb (length substr) (length s)
    && (bytes_eq s substr
        || (ltb (length substr) (length s)
            && (bytes_eq (slice 0 (length substr) s) substr
                || (bytes_eq (drop (length s - length substr) s) substr
                    || find_substring s substr))))

pub record RetryConfig {ℓ} (E : Type ℓ) : Type ℓ where
  pub max_attempts : ℕ
  pub is_retryable_func : Option (E → Bool)
  pub retryable_errors : List Bytes
  pub non_retryable_errors : List Bytes

pub record RetryStats : Type 0 where
  pub total_attempts : ℕ
  pub successful_retries : ℕ
  pub failed_retries : ℕ
  pub total_delay : ℕ

pub data Ended {ℓ} (E : Type ℓ) : Type ℓ where
  succeeded : Ended E
  non_retryable : E → Ended E
  context_done : Ended E
  -- with the last error, if there was an attempt
  exceeded : Option E → Ended E

unfoldable pub any_contained : Bytes → List Bytes → Bool
unfolding contains
any_contained s [] = false
any_contained s (p ∷ ps) = contains s p || any_contained s ps

module _ {ℓ} {E : Type ℓ} (message : E → Bytes) (config : RetryConfig E) where
  -- `isRetryable`: the two lists of messages are looked at when no function is given.
  unfoldable pub is_retryable : E → Bool
  unfolding any_contained
  is_retryable e = elim config.is_retryable_func [
    | some f ↦ f e
    | none ↦
        if any_contained (message e) config.non_retryable_errors
        then false
        else if any_contained (message e) config.retryable_errors
        then true
        else true
  ]

  module _ (call : ℕ → Option E) (delay : ℕ → ℕ) (done : ℕ → Bool) where
    abbrev on_success_of : ℕ → ℕ → RetryStats → RetryStats
    on_success_of attempt total s =
        if ltb 1 attempt
        then record s {
          successful_retries = s.successful_retries + 1;
          total_delay = s.total_delay + total;
        }
        else s

    abbrev on_exceeded : ℕ → RetryStats → RetryStats
    on_exceeded total s = record s {
      failed_retries = s.failed_retries + 1;
      total_delay = s.total_delay + total;
    }

    -- The loop of `ExecuteWithResult` from `attempt` on, with the attempts that are left, the delays
    -- so far and the last error.
    unfoldable pub retry_from : ℕ → ℕ → ℕ → Option E → RetryStats → Ended E × RetryStats
    unfolding is_retryable
    retry_from zero attempt total last s = (exceeded last, on_exceeded total s)
    retry_from (suc left) attempt total last s =
        let s' : RetryStats = record s { total_attempts = s.total_attempts + 1 } in
        elim (call attempt) [
          | none ↦ (succeeded, on_success_of attempt total s')
          | some e ↦ elim (is_retryable e) [
            | false ↦ (non_retryable e, record s' { failed_retries = s'.failed_retries + 1 })
            | true ↦ elim (attempt == config.max_attempts) [
              | true ↦ (exceeded (some e), on_exceeded total s')
              | false ↦ elim (done attempt) [
                | true ↦ (context_done, s')
                | false ↦ retry_from left (attempt + 1) (total + delay attempt) (some e) s'
              ]
            ]
          ]
        ]

    -- `ExecuteWithResult`.
    unfoldable pub execute_with_result : RetryStats → Ended E × RetryStats
    unfolding retry_from
    execute_with_result s = retry_from config.max_attempts 1 0 none s

-- ===== src/Resilience/Tests.antt =====
-- Runs of the circuit breaker and the retry manager on samples.
use go_mongo_sync.Prelude.{
  ℕ, ◌*◌, ◌^◌, ◌≤◌, ◌<◌, ◌≡◌, ◌≢◌, inr, refl, Bool, true, false, Option, none, some, List, [], ◌∷◌,
  arith, ltb, leb, le→leb, if◌then◌else◌,
}
use go_mongo_sync.Prelude.Bytes.{Bytes}
use go_mongo_sync.Resilience.Breaker.{
  state_half_open, state_open, is_state, CircuitBreaker, CircuitBreakerConfig, new_circuit_breaker,
  no_counts, default_circuit_breaker_config, default_ready_to_trip, default_is_successful,
  before_request, after_request, count_slow, on_failure, set_state,
}
use go_mongo_sync.Resilience.Breaker.Calls.{ask_all, answers_of, all_open}
use go_mongo_sync.Resilience.Breaker.Opening.{open_until}
use go_mongo_sync.Resilience.Breaker.Safety
use go_mongo_sync.Resilience.Breaker.Safety.{Reachable, Reachable-IsValid}
use go_mongo_sync.Resilience.Breaker.Mixed.{Answer, answer_all, mixed_trial_stuck}
use go_mongo_sync.Resilience.Retry.{RetryConfig, RetryStats, is_retryable}
use go_mongo_sync.Resilience.Retry.Attempts.{Retried}

abbrev config : CircuitBreakerConfig ℕ ℕ
config = default_circuit_breaker_config

-- A half-open breaker that has let five calls pass.
abbrev trial : CircuitBreaker
trial = record new_circuit_breaker {
  state = state_half_open;
  counts = record no_counts { requests = 5 };
}

abbrev ended : Option ℕ → Answer ℕ
ended e = record { at = 100; error = e; duration = 10 }

-- One failure among five calls.
abbrev mixed : List (Answer ℕ)
mixed = ended none ∷ ended none ∷ ended (some 1) ∷ ended none ∷ ended none ∷ []

mixed_trial_stuck_example :
    let c = ask_all config (200 ∷ 300 ∷ []) (answer_all config mixed trial) in
    ((before_request config (10 ^ 15) c).0 ≢ none)
    × ((before_request config (10 ^ 15) c).1.state ≡ state_half_open)
mixed_trial_stuck_example =
    mixed_trial_stuck ℕ ℕ trial mixed (200 ∷ 300 ∷ []) (10 ^ 15) refl refl refl refl (omega arith)
      (omega arith) (omega arith)

-- A breaker with five requests, four of them failed.
abbrev failing : CircuitBreaker
failing = record new_circuit_breaker {
  counts = record no_counts { requests = 5; total_failures = 3 };
}

failing-opens : (after_request config 10 0 (some 1) 2 failing).state ≡ state_open
unfolding after_request count_slow on_failure set_state is_state default_ready_to_trip
    default_is_successful
failing-opens = refl

open_until_example :
    let c = after_request config 10 0 (some 1) 2 failing in
    let (error', d) = before_request config (60 * 10 ^ 9) (ask_all config (20 ∷ 30 ∷ []) c) in
    (answers_of config (20 ∷ 30 ∷ []) c ≡ all_open (20 ∷ 30 ∷ []))
    × ((error' ≡ none)
        × ((d.state ≡ state_half_open)
            × ((d.generation ≡ failing.generation)
                × (d.counts ≡ record no_counts { requests = 1 }))))
open_until_example =
    open_until config 10 0 2 (some 1) failing (20 ∷ 30 ∷ []) (60 * 10 ^ 9) (unfold is_state in refl)
      failing-opens (omega arith) (omega arith) (omega arith) (inr (omega arith))

abbrev asked : List ℕ
asked = 1 ∷ 1 ∷ 1 ∷ []

abbrev nearly_full : CircuitBreaker
nearly_full = record new_circuit_breaker { concurrent_calls = 99 }

one_request : Reachable config (before_request config 5 new_circuit_breaker).1
one_request = Reachable.next _ _ Reachable.new (Safety.requests_at 5 new_circuit_breaker)

Reachable-IsValid_example : Safety.IsValid config (before_request config 5 new_circuit_breaker).1
Reachable-IsValid_example =
    Reachable-IsValid config (before_request config 5 new_circuit_breaker).1 one_request

-- "a timeout"
abbrev message_of : ℕ → Bytes
message_of e = e ∷ 111 ∷ 117 ∷ 116 ∷ []

-- Errors are retryable unless "not found" stands in them, here "77".
abbrev retries : RetryConfig ℕ
retries = record {
  max_attempts = 3;
  is_retryable_func = some (λ e. ltb e 77);
  retryable_errors = [];
  non_retryable_errors = [];
}

abbrev stats : RetryStats
stats = record { total_attempts = 4; successful_retries = 1; failed_retries = 0; total_delay = 50 }

-- The first attempt fails.
abbrev second_time : ℕ → Option ℕ
second_time k = if leb k 1 then some 5 else none

abbrev always : ℕ → Option ℕ
always k = some 5

abbrev wait : ℕ → ℕ
wait k = 100 * k

abbrev running : ℕ → Bool
running k = false

retryable_five : is_retryable message_of retries 5 ≡ true
unfolding is_retryable
retryable_five = refl

first_fails : (k : ℕ) → 1 ≤ k → k < 2 → Retried message_of retries second_time wait running k
first_fails k pos lt = record {
  error = 5;
  failed = rw (le→leb k 1 (omega arith)) refl;
  retryable = retryable_five;
  not_done = refl;
}

always_fails : (k : ℕ) → 1 ≤ k → k < 3 → Retried message_of retries always wait running k
always_fails k pos lt = record {
  error = 5;
  failed = refl;
  retryable = retryable_five;
  not_done = refl;
}

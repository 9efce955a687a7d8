-- ===== src/Resilience/Breaker.antt =====
-- pkg/resilience/circuit_breaker.go: the circuit breaker. A time is a number of nanoseconds, 0 the
-- zero time; a duration is not negative, and a limit of concurrent calls that is not positive is 0.
-- The uint32 counts and the uint64 generation wrap. Each method runs under the mutex; the changes
-- of `concurrentCalls` that `Execute` makes outside it are operations of their own. The moving
-- average of response times is computed with floats and left out, and so are the times of the last
-- success, failure and change, which are only reported, and the callback `OnStateChange`.
pub mod Safety
pub mod Calls
pub mod Opening
pub mod Mixed
use go_mongo_sync.Prelude.{
  ℕ, ◌+◌, ◌-◌, ◌*◌, ◌%◌, ◌^◌, Bool, true, false, Option, none, some, ◌&&◌, not, ltb, leb, ◌==◌,
  if◌then◌else◌,
}

pub data State : Type 0 where
  state_closed state_half_open state_open : State

unfoldable pub is_state : State → State → Bool
is_state state_closed state_closed = true
is_state state_half_open state_half_open = true
is_state state_open state_open = true
is_state _ _ = false

pub record Counts : Type 0 where
  pub requests : ℕ
  pub total_successes : ℕ
  pub total_failures : ℕ
  pub consecutive_successes : ℕ
  pub consecutive_failures : ℕ
  pub slow_calls : ℕ

abbrev pub no_counts : Counts
no_counts = record {
  requests = 0;
  total_successes = 0;
  total_failures = 0;
  consecutive_successes = 0;
  consecutive_failures = 0;
  slow_calls = 0;
}

pub record CircuitBreakerMetrics : Type 0 where
  pub total_requests : ℕ
  pub successful_requests : ℕ
  pub failed_requests : ℕ
  pub rejected_requests : ℕ
  pub slow_requests : ℕ
  pub state_changes : ℕ

pub data BreakerError : Type 0 where
  is_open too_many_concurrent too_many_half_open : BreakerError

-- An error that `Execute` returns: its own, or that of the function.
pub data Failure {ℓ} (E : Type ℓ) : Type ℓ where
  of_breaker : BreakerError → Failure E
  of_call : E → Failure E

pub record CircuitBreakerConfig {ℓ} (R E : Type ℓ) : Type ℓ where
  pub max_requests : ℕ
  pub interval : ℕ
  pub timeout : ℕ
  pub ready_to_trip : Counts → Bool
  pub is_successful : Option E → Bool
  pub fallback : Option (BreakerError → Option R × Option (Failure E))
  pub max_concurrent_calls : ℕ
  pub slow_call_threshold : ℕ

pub record CircuitBreaker : Type 0 where
  pub state : State
  pub generation : ℕ
  pub counts : Counts
  pub expiry : ℕ
  pub concurrent_calls : ℕ
  pub metrics : CircuitBreakerMetrics

-- `NewCircuitBreaker`.
abbrev pub new_circuit_breaker : CircuitBreaker
new_circuit_breaker = record {
  state = state_closed;
  generation = 0;
  counts = no_counts;
  expiry = 0;
  concurrent_calls = 0;
  metrics = record {
    total_requests = 0;
    successful_requests = 0;
    failed_requests = 0;
    rejected_requests = 0;
    slow_requests = 0;
    state_changes = 0;
  };
}

-- `ReadyToTrip` of `DefaultCircuitBreakerConfig`: a failure rate above 0.6 as a fraction.
unfoldable pub default_ready_to_trip : Counts → Bool
default_ready_to_trip c = leb 5 c.requests && ltb (3 * c.requests) (5 * c.total_failures)

-- `DefaultCircuitBreakerConfig`, its durations in nanoseconds.
unfoldable pub default_is_successful {ℓ} : {E : Type ℓ} → Option E → Bool
default_is_successful none = true
default_is_successful (some e) = false

abbrev pub default_circuit_breaker_config {ℓ} : {R E : Type ℓ} → CircuitBreakerConfig R E
default_circuit_breaker_config = record {
  max_requests = 5;
  interval = 60 * 10 ^ 9;
  timeout = 30 * 10 ^ 9;
  ready_to_trip = default_ready_to_trip;
  is_successful = default_is_successful;
  fallback = none;
  max_concurrent_calls = 100;
  slow_call_threshold = 5 * 10 ^ 9;
}

abbrev inc32 : ℕ → ℕ
inc32 n = (n + 1) % 2 ^ 32

module _ {ℓ} {R E : Type ℓ} (config : CircuitBreakerConfig R E) where
  abbrev expiry_of : State → ℕ → ℕ → ℕ
  expiry_of state_closed old now = if config.interval == 0 then 0 else now + config.interval
  expiry_of state_half_open old now = 0
  expiry_of state_open old now = old

  unfoldable pub to_new_generation : ℕ → CircuitBreaker → CircuitBreaker
  to_new_generation now b = record b {
    generation = (b.generation + 1) % 2 ^ 64;
    counts = no_counts;
    expiry = expiry_of b.state b.expiry now;
  }

  -- The switch of `setState` on the new state.
  abbrev pub enter : State → ℕ → CircuitBreaker → CircuitBreaker
  enter state_closed now b = to_new_generation now b
  enter state_open now b = record b { expiry = now + config.timeout }
  enter state_half_open now b = record b { expiry = 0; counts = no_counts }

  unfoldable pub set_state : State → ℕ → CircuitBreaker → CircuitBreaker
  unfolding is_state to_new_generation
  set_state s now b =
      if is_state b.state s
      then b
      else enter s now (record b {
        state = s;
        metrics = record b.metrics { state_changes = b.metrics.state_changes + 1 };
      })

  abbrev pub when_state : State → ℕ → CircuitBreaker → CircuitBreaker
  when_state state_closed now b =
      if not (b.expiry == 0) && ltb b.expiry now then to_new_generation now b else b
  when_state state_open now b = if ltb b.expiry now then set_state state_half_open now b else b
  when_state state_half_open now b = b

  -- `currentState`: the state and the generation are those of the result.
  unfoldable pub current_state : ℕ → CircuitBreaker → CircuitBreaker
  unfolding set_state to_new_generation
  current_state now b = when_state b.state now b

  abbrev pub rejected : CircuitBreaker → CircuitBreaker
  rejected b = record b {
    metrics = record b.metrics { rejected_requests = b.metrics.rejected_requests + 1 };
  }

  unfoldable pub admit : CircuitBreaker → Option BreakerError × CircuitBreaker
  unfolding is_state
  admit b =
      if is_state b.state state_open
      then (some is_open, rejected b)
      else if ltb 0 config.max_concurrent_calls
          && leb config.max_concurrent_calls b.concurrent_calls
      then (some too_many_concurrent, rejected b)
      else if is_state b.state state_half_open && leb config.max_requests b.counts.requests
      then (some too_many_half_open, rejected b)
      else (none, record b { counts = record b.counts { requests = inc32 b.counts.requests } })

  -- `beforeRequest`; the generation that it returns is that of the breaker it leaves.
  unfoldable pub before_request : ℕ → CircuitBreaker → Option BreakerError × CircuitBreaker
  unfolding current_state admit
  before_request now b = admit (current_state now b)

  unfoldable pub on_success : ℕ → CircuitBreaker → CircuitBreaker
  unfolding set_state is_state
  on_success now b =
      let b' : CircuitBreaker = record b {
        counts = record b.counts {
          total_successes = inc32 b.counts.total_successes;
          consecutive_successes = inc32 b.counts.consecutive_successes;
          consecutive_failures = 0;
        };
        metrics = record b.metrics { successful_requests = b.metrics.successful_requests + 1 };
      } in
      if is_state b'.state state_half_open
        && leb config.max_requests b'.counts.consecutive_successes
      then set_state state_closed now b'
      else b'

  unfoldable pub on_failure : ℕ → CircuitBreaker → CircuitBreaker
  unfolding set_state
  on_failure now b =
      let b' : CircuitBreaker = record b {
        counts = record b.counts {
          total_failures = inc32 b.counts.total_failures;
          consecutive_failures = inc32 b.counts.consecutive_failures;
          consecutive_successes = 0;
        };
        metrics = record b.metrics { failed_requests = b.metrics.failed_requests + 1 };
      } in
      if config.ready_to_trip b'.counts then set_state state_open now b' else b'

  unfoldable pub count_slow : ℕ → CircuitBreaker → CircuitBreaker
  count_slow duration b =
      if ltb 0 config.slow_call_threshold && ltb config.slow_call_threshold duration
      then record b {
        counts = record b.counts { slow_calls = inc32 b.counts.slow_calls };
        metrics = record b.metrics { slow_requests = b.metrics.slow_requests + 1 };
      }
      else b

  unfoldable pub after_request : ℕ → ℕ → Option E → ℕ → CircuitBreaker → CircuitBreaker
  unfolding on_success on_failure count_slow
  after_request now generation error duration b =
      let b' = count_slow duration b in
      if generation == b.generation
      then if config.is_successful error then on_success now b' else on_failure now b'
      else b

  unfoldable pub reset : ℕ → CircuitBreaker → CircuitBreaker
  unfolding set_state to_new_generation
  reset now b = set_state state_closed now (to_new_generation now b)

  -- `Execute` adds to `concurrentCalls` and `TotalRequests` after `beforeRequest` let the call pass.
  unfoldable pub start_call : CircuitBreaker → CircuitBreaker
  start_call b = record b {
    concurrent_calls = b.concurrent_calls + 1;
    metrics = record b.metrics { total_requests = b.metrics.total_requests + 1 };
  }

  -- The deferred end of `Execute`.
  unfoldable pub end_call : CircuitBreaker → CircuitBreaker
  end_call b = record b { concurrent_calls = b.concurrent_calls - 1 }

  abbrev refuse : BreakerError → CircuitBreaker → (Option R × Option (Failure E)) × CircuitBreaker
  refuse e b = (elim config.fallback [ none ↦ (none, some (of_breaker e)) | some f ↦ f e ], b)

  abbrev error_of : Option E → Option (Failure E)
  error_of none = none
  error_of (some e) = some (of_call e)

  abbrev run_call :
      ℕ
      → ℕ
      → R
      → Option E
      → Option BreakerError × CircuitBreaker
      → (Option R × Option (Failure E)) × CircuitBreaker
  run_call end duration result error (some e, b) = refuse e b
  run_call end duration result error (none, b) = (
    (some result, error_of error),
    end_call (after_request end b.generation error duration (start_call b)),
  )

  -- `Execute` with no other caller, for a function that ends at `end` with a result and an error.
  unfoldable pub execute :
      ℕ → ℕ → ℕ → R → Option E → CircuitBreaker → (Option R × Option (Failure E)) × CircuitBreaker
  unfolding before_request after_request start_call end_call
  execute now end duration result error b =
      run_call end duration result error (before_request now b)

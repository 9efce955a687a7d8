-- ===== src/Resilience/Breaker/Mixed.antt =====
-- pkg/resilience/circuit_breaker.go: a half-open breaker under the default configuration whose
-- trial calls do not all end alike.
use go_mongo_sync.Prelude.{
  ℕ, suc, ◌+◌, ◌≤◌, ◌≡◌, ◌≢◌, true, Option, Option-cases, inl, inr, none, some, List, [], ◌∷◌,
  length, ◌==◌, arith,
}
use go_mongo_sync.Resilience.Breaker.{
  state_half_open, is_state, CircuitBreaker, CircuitBreakerConfig, default_circuit_breaker_config,
  default_ready_to_trip, default_is_successful, before_request, count_slow, on_success, on_failure,
  after_request,
}
use go_mongo_sync.Resilience.Breaker.Calls.{ask_all, half_open_stuck}

-- The end of a call: when it is reported, its error, and how long it took.
pub record Answer {ℓ} (E : Type ℓ) : Type ℓ where
  pub at : ℕ
  pub error : Option E
  pub duration : ℕ

abbrev pub failures {ℓ} : {E : Type ℓ} → List (Answer E) → ℕ
failures [] = 0
failures (a ∷ as') = elim a.error [ none ↦ failures as' | some e ↦ suc (failures as') ]

abbrev successes {ℓ} : {E : Type ℓ} → List (Answer E) → ℕ
successes [] = 0
successes (a ∷ as') = elim a.error [ none ↦ suc (successes as') | some e ↦ successes as' ]

successes-add-failures {ℓ} :
    {E : Type ℓ} (as' : List (Answer E)) → successes as' + failures as' ≡ length as'
successes-add-failures [] = omega arith
successes-add-failures (a ∷ as') = ground (arith, successes-add-failures as')

-- Half open with all its calls let pass, and not yet decided.
record Undecided (failed passed : ℕ) (b : CircuitBreaker) : Type 0 where
  half_open : b.state ≡ state_half_open
  used : b.counts.requests ≡ 5
  failed_so_far : b.counts.total_failures + failed ≤ 3
  passed_so_far : b.counts.consecutive_successes + passed ≤ 4

-- The answers of calls of the breaker's generation, one after another.
unfoldable pub answer_all {ℓ} :
    {R E : Type ℓ} → CircuitBreakerConfig R E → List (Answer E) → CircuitBreaker → CircuitBreaker
unfolding after_request
answer_all c [] b = b
answer_all c (a ∷ as') b = answer_all c as' (after_request c a.at b.generation a.error a.duration b)

module _ {ℓ} (R E : Type ℓ) where
  abbrev config : CircuitBreakerConfig R E
  config = default_circuit_breaker_config

  count_slow-Undecided :
      (duration failed passed : ℕ) (b : CircuitBreaker)
      → Undecided failed passed b
      → Undecided failed passed (count_slow config duration b)
  unfolding count_slow
  count_slow-Undecided duration failed passed b u = ground arith

  on_success-Undecided :
      (now failed passed : ℕ) (b : CircuitBreaker)
      → Undecided failed (suc passed) b
      → Undecided failed passed (on_success config now b)
  unfolding on_success is_state
  on_success-Undecided now failed passed b u = ground arith

  on_failure-Undecided :
      (now failed passed : ℕ) (b : CircuitBreaker)
      → Undecided (suc failed) passed b
      → Undecided failed passed (on_failure config now b)
  unfolding on_failure default_ready_to_trip
  on_failure-Undecided now failed passed b u = ground arith

  same_generation : (b : CircuitBreaker) → (b.generation == b.generation) ≡ true
  same_generation b = ground arith

  answer-Undecided :
      (a : Answer E) (failed passed : ℕ) (b : CircuitBreaker)
      → a.error ≡ none
      → Undecided failed (suc passed) b
      → Undecided failed passed (after_request config a.at b.generation a.error a.duration b)
  unfolding after_request default_is_successful
  answer-Undecided a failed passed b e u =
      rw (same_generation b, e)
        (on_success-Undecided a.at failed passed _
          (count_slow-Undecided a.duration failed (suc passed) b u))

  failure-Undecided :
      (a : Answer E) (err : E) (failed passed : ℕ) (b : CircuitBreaker)
      → a.error ≡ some err
      → Undecided (suc failed) passed b
      → Undecided failed passed (after_request config a.at b.generation a.error a.duration b)
  unfolding after_request default_is_successful
  failure-Undecided a err failed passed b e u =
      rw (same_generation b, e)
        (on_failure-Undecided a.at failed passed _
          (count_slow-Undecided a.duration (suc failed) passed b u))

  answer_all-Undecided :
      (as' : List (Answer E)) (b : CircuitBreaker)
      → Undecided (failures as') (successes as') b
      → Undecided 0 0 (answer_all config as' b)
  unfolding answer_all
  answer_all-Undecided [] b u = u
  answer_all-Undecided (a ∷ as') b u = elim (Option-cases a.error) [
    | inl e ↦
        let u' : Undecided (failures as') (suc (successes as')) b = rw e at u in
        answer_all-Undecided as' _ (answer-Undecided a (failures as') (successes as') b e u')
    | inr (err, e) ↦
        let u' : Undecided (suc (failures as')) (successes as') b = rw e at u in
        answer_all-Undecided as' _ (failure-Undecided a err (failures as') (successes as') b e u')
  ]

  -- Under the default configuration, a half-open breaker whose five trial calls have been let pass
  -- and end in one, two or three failures, in any order, at any times, with the rest successes,
  -- stays half open for good: it refuses every later call, at whatever time and however many
  -- calls come before it.
  pub mixed_trial_stuck :
      (b : CircuitBreaker) (as' : List (Answer E)) (ts : List ℕ) (now : ℕ)
      → b.state ≡ state_half_open
      → b.counts.requests ≡ 5
      → b.counts.total_failures ≡ 0
      → b.counts.consecutive_successes ≡ 0
      → length as' ≤ 5
      → 1 ≤ failures as'
      → failures as' ≤ 3
      → let c = ask_all config ts (answer_all config as' b) in
        ((before_request config now c).0 ≢ none)
        × ((before_request config now c).1.state ≡ state_half_open)
  mixed_trial_stuck b as' ts now h r f c few one three =
      let u = answer_all-Undecided as' b (record {
        half_open = h;
        used = r;
        failed_so_far = omega arith;
        passed_so_far = omega (arith, successes-add-failures as');
      }) in
      let stuck =
        half_open_stuck config (answer_all config as' b) ts now u.half_open
          (omega (arith, u.used)) in
      (stuck.0, stuck.1.0)

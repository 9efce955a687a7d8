-- ===== src/Resilience/Breaker/Safety.antt =====
-- pkg/resilience/circuit_breaker.go: what holds of a circuit breaker whatever its callers do.
use go_mongo_sync.Prelude.{
  ℕ, ◌+◌, ◌%◌, ◌^◌, ◌≤◌, ◌<◌, ◌≡◌, refl, ◌⊎◌, inl, inr, Bool, true, false, Bool-cases, ◌&&◌, Option,
  leb, ◌==◌, if◌then◌else◌, arith,
}
use go_mongo_sync.Resilience.Breaker.{
  State, state_closed, state_half_open, state_open, is_state, Counts, CircuitBreakerConfig,
  CircuitBreaker, new_circuit_breaker, to_new_generation, set_state, when_state, current_state,
  admit, before_request, on_success, on_failure, count_slow, after_request, reset, start_call,
  end_call,
}

pub State-cases : (s : State) → (s ≡ state_closed) ⊎ ((s ≡ state_half_open) ⊎ (s ≡ state_open))
State-cases state_closed = inl refl
State-cases state_half_open = inr (inl refl)
State-cases state_open = inr (inr refl)

module _ {ℓ} {R E : Type ℓ} (config : CircuitBreakerConfig R E) where
  -- One operation of some caller.
  pub data Step : CircuitBreaker → CircuitBreaker → Type ℓ where
    requests_at : (now : ℕ) (b : CircuitBreaker) → Step b (before_request config now b).1
    starts : (b : CircuitBreaker) → Step b (start_call config b)
    answers :
        (now generation duration : ℕ) (error : Option E) (b : CircuitBreaker)
        → Step b (after_request config now generation error duration b)
    ends : (b : CircuitBreaker) → Step b (end_call config b)
    resets : (now : ℕ) (b : CircuitBreaker) → Step b (reset config now b)

  pub data Reachable : CircuitBreaker → Type ℓ where
    new : Reachable new_circuit_breaker
    next : (b c : CircuitBreaker) → Reachable b → Step b c → Reachable c

  -- Half open, the breaker has let at most `MaxRequests` calls pass, has no expiry, and has not yet
  -- seen `MaxRequests` successes in a row; and it never has both successes and failures in a row.
  pub record IsValid (b : CircuitBreaker) : Type 0 where
    pub bounded : b.state ≡ state_half_open → b.counts.requests ≤ config.max_requests
    pub no_expiry : b.state ≡ state_half_open → b.expiry ≡ 0
    pub undecided :
        b.state ≡ state_half_open
        → 0 < config.max_requests
        → b.counts.consecutive_successes < config.max_requests
    pub one_run : (b.counts.consecutive_successes ≡ 0) ⊎ (b.counts.consecutive_failures ≡ 0)

  to_new_generation-IsValid :
      (now : ℕ) (b : CircuitBreaker) → IsValid (to_new_generation config now b)
  unfolding to_new_generation
  to_new_generation-IsValid now b = record {
    bounded = λ h. omega arith;
    no_expiry = λ h. rw h refl;
    undecided = λ h p. omega arith;
    one_run = inl refl;
  }

  -- A change of the state makes valid whatever the counts were.
  set_state-changes :
      (s : State) (now : ℕ) (b : CircuitBreaker)
      → is_state b.state s ≡ false
      → (b.counts.consecutive_successes ≡ 0) ⊎ (b.counts.consecutive_failures ≡ 0)
      → IsValid (set_state config s now b)
  unfolding set_state to_new_generation
  set_state-changes state_closed now b e o = rw e (record {
    bounded = λ h. cc h;
    no_expiry = λ h. cc h;
    undecided = λ h p. cc h;
    one_run = inl refl;
  })
  set_state-changes state_half_open now b e o = rw e (record {
    bounded = λ h. omega arith;
    no_expiry = λ h. refl;
    undecided = λ h p. p;
    one_run = inl refl;
  })
  set_state-changes state_open now b e o =
      rw e (record {
        bounded = λ h. cc h;
        no_expiry = λ h. cc h;
        undecided = λ h p. cc h;
        one_run = o;
      })

  set_state-IsValid :
      (s : State) (now : ℕ) (b : CircuitBreaker) → IsValid b → IsValid (set_state config s now b)
  unfolding set_state
  set_state-IsValid s now b v = elim (Bool-cases (is_state b.state s)) [
    | inl e ↦ rw e v
    | inr e ↦ set_state-changes s now b e v.one_run
  ]

  if-IsValid :
      (c : Bool) (a b : CircuitBreaker)
      → (c ≡ true → IsValid a)
      → (c ≡ false → IsValid b)
      → IsValid (if c then a else b)
  if-IsValid true a b f g = f refl
  if-IsValid false a b f g = g refl

  when_state-IsValid :
      (s : State) (now : ℕ) (b : CircuitBreaker) → IsValid b → IsValid (when_state config s now b)
  when_state-IsValid state_closed now b v =
      if-IsValid _ _ _ (λ e. to_new_generation-IsValid now b) (λ e. v)
  when_state-IsValid state_half_open now b v = v
  when_state-IsValid state_open now b v =
      if-IsValid _ _ _ (λ e. set_state-IsValid state_half_open now b v) (λ e. v)

  admit-IsValid : (b : CircuitBreaker) → IsValid b → IsValid (admit config b).1
  unfolding admit
  admit-IsValid b v = record {
    bounded = λ h. ground (arith, v.bounded);
    no_expiry = λ h. ground (arith, v.no_expiry);
    undecided = λ h p. ground (arith, v.undecided);
    one_run = ground (arith, v.one_run);
  }

  half_open-not_closed :
      (s : State) (c : Bool)
      → (is_state s state_half_open && c) ≡ true
      → is_state s state_closed ≡ false
  unfolding is_state
  half_open-not_closed state_closed c e = cc e
  half_open-not_closed state_half_open c e = refl
  half_open-not_closed state_open c e = refl

  half_open-and :
      (s : State) (c : Bool)
      → (is_state s state_half_open && c) ≡ false
      → s ≡ state_half_open
      → c ≡ false
  unfolding is_state
  half_open-and state_closed c e h = cc h
  half_open-and state_half_open c e h = e
  half_open-and state_open c e h = cc h

  on_success-IsValid :
      (now : ℕ) (b : CircuitBreaker) → IsValid b → IsValid (on_success config now b)
  unfolding on_success
  on_success-IsValid now b v =
      let n = (b.counts.consecutive_successes + 1) % 2 ^ 32 in
      elim (Bool-cases (is_state b.state state_half_open && leb config.max_requests n)) [
        | inl e ↦ rw e (
            set_state-changes state_closed now _
              (half_open-not_closed b.state (leb config.max_requests n) e) (inr refl))
        | inr e ↦ rw e (record {
          bounded = v.bounded;
          no_expiry = v.no_expiry;
          undecided = λ h p.
              let few = half_open-and b.state (leb config.max_requests n) e h in
              ground (arith, few);
          one_run = inr refl;
        })
      ]

  on_failure-IsValid :
      (now : ℕ) (b : CircuitBreaker) → IsValid b → IsValid (on_failure config now b)
  unfolding on_failure
  on_failure-IsValid now b v =
      let failed : Counts = record b.counts {
        total_failures = (b.counts.total_failures + 1) % 2 ^ 32;
        consecutive_failures = (b.counts.consecutive_failures + 1) % 2 ^ 32;
        consecutive_successes = 0;
      } in
      let valid : IsValid (record b {
        counts = failed;
        metrics = record b.metrics { failed_requests = b.metrics.failed_requests + 1 };
      }) =
        record {
          bounded = v.bounded;
          no_expiry = v.no_expiry;
          undecided = λ h p. p;
          one_run = inl refl;
        } in
      elim (Bool-cases (config.ready_to_trip failed)) [
        | inl e ↦ rw e (set_state-IsValid state_open now _ valid)
        | inr e ↦ rw e valid
      ]

  count_slow-IsValid :
      (duration : ℕ) (b : CircuitBreaker) → IsValid b → IsValid (count_slow config duration b)
  unfolding count_slow
  count_slow-IsValid duration b v = record {
    bounded = λ h. ground (arith, v.bounded);
    no_expiry = λ h. ground (arith, v.no_expiry);
    undecided = λ h p. ground (arith, v.undecided);
    one_run = ground (arith, v.one_run);
  }

  after_request-IsValid :
      (now generation duration : ℕ) (error : Option E) (b : CircuitBreaker)
      → IsValid b
      → IsValid (after_request config now generation error duration b)
  unfolding after_request
  after_request-IsValid now generation duration error b v =
      let w = count_slow-IsValid duration b v in
      elim (Bool-cases (generation == b.generation)) [
        | inl e ↦ elim (Bool-cases (config.is_successful error)) [
          | inl s ↦ rw (e, s) (on_success-IsValid now _ w)
          | inr s ↦ rw (e, s) (on_failure-IsValid now _ w)
        ]
        | inr e ↦ rw e v
      ]

  Step-IsValid : (b c : CircuitBreaker) → Step b c → IsValid b → IsValid c
  unfolding before_request current_state start_call end_call reset
  Step-IsValid b c (requests_at now _) v = admit-IsValid _ (when_state-IsValid b.state now b v)
  Step-IsValid b c (starts _) v = record {
    bounded = v.bounded;
    no_expiry = v.no_expiry;
    undecided = v.undecided;
    one_run = v.one_run;
  }
  Step-IsValid b c (answers now generation duration error _) v =
      after_request-IsValid now generation duration error b v
  Step-IsValid b c (ends _) v = record {
    bounded = v.bounded;
    no_expiry = v.no_expiry;
    undecided = v.undecided;
    one_run = v.one_run;
  }
  Step-IsValid b c (resets now _) v =
      set_state-IsValid state_closed now _ (to_new_generation-IsValid now b)

  -- However the requests, answers and resets of any number of callers follow one another: half
  -- open, the breaker has let at most `MaxRequests` calls pass and has seen fewer than `MaxRequests`
  -- successes in a row (if that is not zero), it has no expiry then, and never counts both
  -- successes and failures in a row.
  pub Reachable-IsValid : (b : CircuitBreaker) → Reachable b → IsValid b
  Reachable-IsValid b new = record {
    bounded = λ h. omega arith;
    no_expiry = λ h. cc h;
    undecided = λ h p. cc h;
    one_run = inl refl;
  }
  Reachable-IsValid b (next a _ r s) = Step-IsValid a b s (Reachable-IsValid a r)

-- ===== src/Resilience/Breaker/Opening.antt =====
-- pkg/resilience/circuit_breaker.go: what follows when an answer opens the breaker: the time during
-- which it refuses every call, and the answers of calls that it let pass before.
use go_mongo_sync.Prelude.{
  ℕ, ◌+◌, ◌%◌, ◌^◌, ◌<◌, ◌≡◌, refl, sym, subst, ◌∙◌, ◌⊎◌, inl, inr, false, Bool-cases, Option, none,
  List, ◌==◌, arith,
}
use go_mongo_sync.Resilience.Breaker.{
  State, state_closed, state_half_open, state_open, is_state, Counts, no_counts,
  CircuitBreakerConfig, CircuitBreaker, to_new_generation, set_state, before_request, on_success,
  on_failure, count_slow, after_request,
}
use go_mongo_sync.Resilience.Breaker.Calls.{
  ask_all, answers_of, all_open, AllAtMost, open_refuses, open-stays, before_request_after,
}

-- What the opening of the breaker `b` at `now` leaves.
record Opened {ℓ} {R E : Type ℓ} (config : CircuitBreakerConfig R E) (now : ℕ)
    (b c : CircuitBreaker) : Type 0 where
  expires : c.expiry ≡ now + config.timeout
  same_generation : c.generation ≡ b.generation
  same_calls : c.concurrent_calls ≡ b.concurrent_calls

not_open : {A : Type 0} (s : State) → s ≡ state_open → is_state s state_open ≡ false → A
unfolding is_state
not_open state_closed h o = cc h
not_open state_half_open h o = cc h
not_open state_open h o = cc o

module _ {ℓ} {R E : Type ℓ} (config : CircuitBreakerConfig R E) where
  count_slow_keeps :
      (duration : ℕ) (b : CircuitBreaker)
      → ((count_slow config duration b).state ≡ b.state)
        × (((count_slow config duration b).generation ≡ b.generation)
            × ((count_slow config duration b).concurrent_calls ≡ b.concurrent_calls))
  unfolding count_slow
  count_slow_keeps duration b = (ground arith, (ground arith, ground arith))

  on_success-not_open :
      (now : ℕ) (b : CircuitBreaker)
      → is_state b.state state_open ≡ false
      → is_state (on_success config now b).state state_open ≡ false
  unfolding on_success set_state is_state to_new_generation
  on_success-not_open now b o = ground (arith, o)

  on_failure-opens :
      (now : ℕ) (b : CircuitBreaker)
      → is_state b.state state_open ≡ false
      → (on_failure config now b).state ≡ state_open
      → Opened config now b (on_failure config now b)
  unfolding on_failure set_state
  on_failure-opens now b o h =
      let failed : Counts = record b.counts {
        total_failures = (b.counts.total_failures + 1) % 2 ^ 32;
        consecutive_failures = (b.counts.consecutive_failures + 1) % 2 ^ 32;
        consecutive_successes = 0;
      } in
      elim (Bool-cases (config.ready_to_trip failed)) [
        | inl e ↦ rw (e, o) (record { expires = refl; same_generation = refl; same_calls = refl })
        | inr e ↦ not_open b.state (rw (on_failure, e) at h) o
      ]

  -- An answer that opens the breaker came from a call of its generation, and sets the expiry.
  after_request-opens :
      (now generation duration : ℕ) (error : Option E) (b : CircuitBreaker)
      → is_state b.state state_open ≡ false
      → (after_request config now generation error duration b).state ≡ state_open
      → Opened config now b (after_request config now generation error duration b)
  unfolding after_request
  after_request-opens now generation duration error b o h =
      let (s, (g, k)) = count_slow_keeps duration b in
      let o' = subst (λ x. is_state x state_open ≡ false) (sym s) o in
      elim (Bool-cases (generation == b.generation)) [
        | inl e ↦ elim (Bool-cases (config.is_successful error)) [
          | inl f ↦
              not_open _ (rw (after_request, e, f) at h)
                (on_success-not_open now (count_slow config duration b) o')
          | inr f ↦
              let r =
                on_failure-opens now (count_slow config duration b) o'
                  (rw (after_request, e, f) at h) in
              rw (e, f)
                (record {
                  expires = r.expires;
                  same_generation = r.same_generation ∙ g;
                  same_calls = r.same_calls ∙ k;
                })
        ]
        | inr e ↦ not_open b.state (rw (after_request, e) at h) o
      ]

  -- Every answer that opens the breaker at `now` makes it refuse, as open, all calls up to
  -- `now + Timeout`, however many. After that, the first call passes and makes the breaker half
  -- open with one request counted, if `MaxRequests` is positive and the limit of concurrent calls
  -- is not reached or is none. The generation is still the one before the breaker opened.
  pub open_until :
      (now generation duration : ℕ) (error : Option E) (b : CircuitBreaker) (ts : List ℕ)
      (later : ℕ)
      → is_state b.state state_open ≡ false
      → (after_request config now generation error duration b).state ≡ state_open
      → AllAtMost (now + config.timeout) ts
      → now + config.timeout < later
      → 0 < config.max_requests
      → (config.max_concurrent_calls ≡ 0) ⊎ (b.concurrent_calls < config.max_concurrent_calls)
      → let c = after_request config now generation error duration b in
        let (error', d) = before_request config later (ask_all config ts c) in
        (answers_of config ts c ≡ all_open ts)
        × ((error' ≡ none)
            × ((d.state ≡ state_half_open)
                × ((d.generation ≡ b.generation) × (d.counts ≡ record no_counts { requests = 1 }))))
  open_until now generation duration error b ts later o h early late pos free =
      let c = after_request config now generation error duration b in
      let r = after_request-opens now generation duration error b o h in
      let early' = subst (λ n. AllAtMost n ts) (sym r.expires) early in
      let (s, (x, (g, k))) = open-stays config ts c h early' in
      let (n, (hs, (hg, hc))) =
        before_request_after config later (ask_all config ts c) s (rw (x, r.expires) late) pos
          (rw (k, r.same_calls) free) in
      (open_refuses config ts c h early', (n, (hs, (hg ∙ (g ∙ r.same_generation), hc))))

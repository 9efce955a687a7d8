-- ===== src/Resilience/Breaker/Calls.antt =====
-- pkg/resilience/circuit_breaker.go: which calls `beforeRequest` lets pass in each state, over a
-- row of calls at any times.
use go_mongo_sync.Prelude.{
  ℕ, ◌+◌, ◌%◌, ◌^◌, ◌≤◌, ◌<◌, ◌≡◌, ◌≢◌, refl, ap, ◌∙◌, ◌⊎◌, inl, inr, false, Bool-cases, ◌&&◌,
  Option, none, some, List, [], ◌∷◌, length, ltb, leb, arith, le→ltb, lt→ltb, le→leb,
}
use go_mongo_sync.Resilience.Breaker.{
  state_closed, state_half_open, state_open, is_state, no_counts, BreakerError, is_open,
  CircuitBreakerConfig, CircuitBreaker, set_state, current_state, admit, before_request, start_call,
  rejected,
}

abbrev pub all_none : List ℕ → List (Option BreakerError)
all_none [] = []
all_none (t ∷ ts) = none ∷ all_none ts

abbrev pub all_open : List ℕ → List (Option BreakerError)
all_open [] = []
all_open (t ∷ ts) = some is_open ∷ all_open ts

abbrev pub AllAtMost : ℕ → List ℕ → Type 0
AllAtMost n [] = Unit
AllAtMost n (t ∷ ts) = (t ≤ n) × AllAtMost n ts

module _ {ℓ} {R E : Type ℓ} (config : CircuitBreakerConfig R E) where
  -- Calls of `beforeRequest` at the times of a list: the breaker they leave, and their answers.
  unfoldable pub ask_all : List ℕ → CircuitBreaker → CircuitBreaker
  unfolding before_request
  ask_all [] b = b
  ask_all (t ∷ ts) b = ask_all ts (before_request config t b).1

  unfoldable pub answers_of : List ℕ → CircuitBreaker → List (Option BreakerError)
  unfolding before_request
  answers_of [] b = []
  answers_of (t ∷ ts) b =
      (before_request config t b).0 ∷ answers_of ts (before_request config t b).1

  unfoldable pub start_all : List ℕ → CircuitBreaker → CircuitBreaker
  unfolding start_call
  start_all [] b = b
  start_all (t ∷ ts) b = start_all ts (start_call config b)

  lt→leb : (a b : ℕ) → b < a → leb a b ≡ false
  lt→leb a b h = ground arith

  is_free : (m c : ℕ) → (m ≡ 0) ⊎ (c < m) → (ltb 0 m && leb m c) ≡ false
  is_free m c h = ground arith

  some-none : (e : BreakerError) → some e ≢ none
  some-none e h = cc h

  -- A call that meets a half-open breaker with its requests used up.
  before_request_used_up :
      (now : ℕ) (b : CircuitBreaker)
      → b.state ≡ state_half_open
      → config.max_requests ≤ b.counts.requests
      → ((before_request config now b).0 ≢ none)
        × ((before_request config now b).1 ≡ rejected config b)
  unfolding before_request current_state admit is_state
  before_request_used_up now b h le =
      elim (Bool-cases
        (ltb 0 config.max_concurrent_calls && leb config.max_concurrent_calls b.concurrent_calls)) [
          | inl e ↦ rw (h, e) (some-none _, refl)
          | inr e ↦ rw (h, e, le→leb config.max_requests b.counts.requests le) (some-none _, refl)
        ]

  before_request_open :
      (now : ℕ) (b : CircuitBreaker)
      → b.state ≡ state_open
      → now ≤ b.expiry
      → before_request config now b ≡ (some is_open, rejected config b)
  unfolding before_request current_state admit is_state
  before_request_open now b h le = rw (h, le→ltb b.expiry now le) refl

  pub before_request_after :
      (now : ℕ) (b : CircuitBreaker)
      → b.state ≡ state_open
      → b.expiry < now
      → 0 < config.max_requests
      → (config.max_concurrent_calls ≡ 0) ⊎ (b.concurrent_calls < config.max_concurrent_calls)
      → ((before_request config now b).0 ≡ none)
        × (((before_request config now b).1.state ≡ state_half_open)
            × (((before_request config now b).1.generation ≡ b.generation)
                × ((before_request config now b).1.counts ≡ record no_counts { requests = 1 })))
  unfolding before_request current_state admit is_state set_state
  before_request_after now b h lt pos free =
      rw
        (
          h,
          lt→ltb b.expiry now lt,
          is_free config.max_concurrent_calls b.concurrent_calls free,
          lt→leb config.max_requests 0 pos,
        )
        (refl, (refl, (refl, refl)))

  pub before_request_closed :
      (now : ℕ) (b : CircuitBreaker)
      → b.state ≡ state_closed
      → b.expiry ≡ 0
      → b.concurrent_calls < config.max_concurrent_calls
      → before_request config now b ≡ (
        none,
        record b { counts = record b.counts { requests = (b.counts.requests + 1) % 2 ^ 32 } },
      )
  unfolding before_request current_state admit is_state
  before_request_closed now b h e lt =
      rw (h, e, is_free config.max_concurrent_calls b.concurrent_calls (inr lt)) refl

  half_open-stays :
      (ts : List ℕ) (b : CircuitBreaker)
      → b.state ≡ state_half_open
      → config.max_requests ≤ b.counts.requests
      → ((ask_all ts b).state ≡ state_half_open) × ((ask_all ts b).counts ≡ b.counts)
  unfolding ask_all
  half_open-stays [] b h le = (h, refl)
  half_open-stays (t ∷ ts) b h le =
      rw (ask_all, (before_request_used_up t b h le).1)
        (half_open-stays ts (rejected config b) h le)

  -- Half open with `MaxRequests` calls let pass, the breaker refuses every call, at whatever times
  -- and however many calls come before it, and stays half open with the same counts.
  pub half_open_stuck :
      (b : CircuitBreaker) (ts : List ℕ) (now : ℕ)
      → b.state ≡ state_half_open
      → config.max_requests ≤ b.counts.requests
      → ((before_request config now (ask_all ts b)).0 ≢ none)
        × (((before_request config now (ask_all ts b)).1.state ≡ state_half_open)
            × ((before_request config now (ask_all ts b)).1.counts ≡ b.counts))
  half_open_stuck b ts now h le =
      let (s, c) = half_open-stays ts b h le in
      let (refused, same) = before_request_used_up now (ask_all ts b) s (rw c le) in
      (refused, (rw same s, rw same c))

  pub open_refuses :
      (ts : List ℕ) (b : CircuitBreaker)
      → b.state ≡ state_open
      → AllAtMost b.expiry ts
      → answers_of ts b ≡ all_open ts
  unfolding answers_of
  open_refuses [] b h le = refl
  open_refuses (t ∷ ts) b h (le, les) =
      rw (before_request_open t b h le)
        (ap (λ zs. some is_open ∷ zs) (open_refuses ts (rejected config b) h les))

  pub open-stays :
      (ts : List ℕ) (b : CircuitBreaker)
      → b.state ≡ state_open
      → AllAtMost b.expiry ts
      → ((ask_all ts b).state ≡ state_open)
        × (((ask_all ts b).expiry ≡ b.expiry)
            × (((ask_all ts b).generation ≡ b.generation)
                × ((ask_all ts b).concurrent_calls ≡ b.concurrent_calls)))
  unfolding ask_all
  open-stays [] b h le = (h, (refl, (refl, refl)))
  open-stays (t ∷ ts) b h (le, les) =
      rw (ask_all, before_request_open t b h le) (open-stays ts (rejected config b) h les)

  closed-passes :
      (ts : List ℕ) (b : CircuitBreaker)
      → b.state ≡ state_closed
      → b.expiry ≡ 0
      → b.concurrent_calls < config.max_concurrent_calls
      → (answers_of ts b ≡ all_none ts) × ((ask_all ts b).concurrent_calls ≡ b.concurrent_calls)
  unfolding answers_of ask_all
  closed-passes [] b h e lt = (refl, refl)
  closed-passes (t ∷ ts) b h e lt =
      let c = record b {
        counts = record b.counts { requests = (b.counts.requests + 1) % 2 ^ 32 };
      } in
      let (a, k) = closed-passes ts c h e lt in
      rw (answers_of, ask_all, before_request_closed t b h e lt) (ap (λ zs. none ∷ zs) a, k)

  start_all_calls :
      (ts : List ℕ) (b : CircuitBreaker)
      → (start_all ts b).concurrent_calls ≡ b.concurrent_calls + length ts
  unfolding start_all start_call
  start_all_calls [] b = omega arith
  start_all_calls (t ∷ ts) b = omega (arith, start_all_calls ts (start_call config b))

  -- A closed breaker without an expiry and below its limit of concurrent calls lets any number of
  -- calls pass that ask before the first of them starts; when they have all started, as many more
  -- run, whatever the limit.
  limit_passed :
      (b : CircuitBreaker) (ts : List ℕ)
      → b.state ≡ state_closed
      → b.expiry ≡ 0
      → b.concurrent_calls < config.max_concurrent_calls
      → (answers_of ts b ≡ all_none ts)
        × ((start_all ts (ask_all ts b)).concurrent_calls ≡ b.concurrent_calls + length ts)
  limit_passed b ts h e lt =
      let (a, k) = closed-passes ts b h e lt in
      (a, start_all_calls ts (ask_all ts b) ∙ ap (λ n. n + length ts) k)

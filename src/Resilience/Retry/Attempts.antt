-- ===== src/Resilience/Retry/Attempts.antt =====
-- pkg/resilience/retry_manager.go: how often `ExecuteWithResult` calls its function, and what it ends with.
use go_mongo_sync.Prelude.{
  ℕ, zero, suc, ◌+◌, ◌-◌, ◌≤◌, ◌<◌, ◌≡◌, refl, ap, ap₂, ◌∙◌, Bool, true, false, Option, none, some,
  ltb, ◌==◌, if◌then◌else◌, arith,
}
use go_mongo_sync.Prelude.Bytes.{Bytes}
use go_mongo_sync.Resilience.Retry.{
  RetryConfig, RetryStats, succeeded, non_retryable, exceeded, is_retryable, retry_from,
  execute_with_result,
}

-- The delays after `j` attempts, the first of them `attempt`.
abbrev pub delays : (ℕ → ℕ) → ℕ → ℕ → ℕ
delays delay attempt zero = 0
delays delay attempt (suc j) = delay attempt + delays delay (attempt + 1) j

abbrev last_after {ℓ} : {E : Type ℓ} → (ℕ → Option E) → ℕ → ℕ → Option E → Option E
last_after call attempt zero last = last
last_after call attempt (suc j) last = last_after call (attempt + 1) j (call attempt)

-- The counts after `n` attempts.
abbrev pub after_attempts : ℕ → RetryStats → RetryStats
after_attempts n s = record s { total_attempts = s.total_attempts + n }

module _ {ℓ} {E : Type ℓ} (message : E → Bytes) (config : RetryConfig E) (call : ℕ → Option E)
    (delay : ℕ → ℕ) (done : ℕ → Bool) where
  -- An attempt that fails with an error that may be tried again, in a context that is not done.
  pub record Retried (k : ℕ) : Type ℓ where
    pub error : E
    pub failed : call k ≡ some error
    pub retryable : is_retryable message config error ≡ true
    pub not_done : done k ≡ false

  not_last :
      (attempt : ℕ) → attempt < config.max_attempts → (attempt == config.max_attempts) ≡ false
  not_last attempt lt = ground arith

  retry_from-Retried :
      (left attempt total : ℕ) (last : Option E) (s : RetryStats)
      → Retried attempt
      → attempt < config.max_attempts
      → retry_from message config call delay done (suc left) attempt total last s
        ≡ retry_from message config call delay done left
            (attempt + 1)
            (total + delay attempt)
            (call attempt)
            (after_attempts 1 s)
  unfolding retry_from
  retry_from-Retried left attempt total last s r lt =
      rw (r.failed, retry_from, r.retryable, not_last attempt lt, r.not_done) refl

  after_attempts-add :
      (n j : ℕ) (s : RetryStats) → after_attempts j (after_attempts n s) ≡ after_attempts (n + j) s
  after_attempts-add n j s = ground arith

  retry_from-skip :
      (j left attempt total : ℕ) (last : Option E) (s : RetryStats)
      → ((k : ℕ) → attempt ≤ k → k < attempt + j → Retried k)
      → attempt + j ≤ config.max_attempts
      → retry_from message config call delay done (j + left) attempt total last s
        ≡ retry_from message config call delay done left
            (attempt + j)
            (total + delays delay attempt j)
            (last_after call attempt j last)
            (after_attempts j s)
  retry_from-skip zero left attempt total last s r le =
      let a : zero + left ≡ left = omega arith in
      let b : attempt + 0 ≡ attempt = omega arith in
      let c : total + 0 ≡ total = omega arith in
      let d : after_attempts 0 s ≡ s = ground arith in rw (a, b, c, d) refl
  retry_from-skip (suc j) left attempt total last s r le =
      let a : suc j + left ≡ suc (j + left) = omega arith in
      let b : attempt + suc j ≡ (attempt + 1) + j = omega arith in
      let c : total + (delay attempt + delays delay (attempt + 1) j)
          ≡ (total + delay attempt) + delays delay (attempt + 1) j =
        omega arith in
      let d : after_attempts (suc j) s ≡ after_attempts j (after_attempts 1 s) = ground arith in
      rw
        (
          a,
          b,
          c,
          d,
          retry_from-Retried (j + left) attempt total last s (r attempt (omega arith) (omega arith))
              (omega arith),
        )
        (retry_from-skip j left (attempt + 1) (total + delay attempt) (call attempt)
          (after_attempts 1 s) (λ k lo hi. r k (omega arith) (omega arith)) (omega arith))

  module _ (n : ℕ) (s : RetryStats) (before : (k : ℕ) → 1 ≤ k → k < n → Retried k) where
    -- The `n` first attempts but one are made; the `n`-th is next.
    execute-skip :
        1 ≤ n
        → n ≤ config.max_attempts
        → execute_with_result message config call delay done s
          ≡ retry_from message config call delay done
              (suc (config.max_attempts - n))
              n
              (delays delay 1 (n - 1))
              (last_after call 1 (n - 1) none)
              (after_attempts (n - 1) s)
    unfolding execute_with_result
    execute-skip pos le =
        let left = suc (config.max_attempts - n) in
        let a : config.max_attempts ≡ (n - 1) + left = omega arith in
        let b : 1 + (n - 1) ≡ n = omega arith in
        let c : 0 + delays delay 1 (n - 1) ≡ delays delay 1 (n - 1) = omega arith in
        ap (λ m. retry_from message config call delay done m 1 0 none s) a
        ∙ (retry_from-skip (n - 1) left 1 0 none s (λ k lo hi. before k lo (omega arith))
              (omega arith)
            ∙ ap₂
                (λ m d.
                  retry_from message config call delay done left m d
                    (last_after call 1 (n - 1) none) (after_attempts (n - 1) s))
                b c)

    -- If the first `n - 1` attempts fail and may be tried again and the `n`-th succeeds, `n` not
    -- above `MaxAttempts`, the call ends well after exactly `n` attempts. A retry that succeeded
    -- is counted, with the delays between the attempts, only if `n` is above 1.
    execute_succeeds :
        1 ≤ n
        → n ≤ config.max_attempts
        → call n ≡ none
        → execute_with_result message config call delay done s ≡ (
          succeeded,
          record s {
            total_attempts = s.total_attempts + n;
            successful_retries = s.successful_retries + (if ltb 1 n then 1 else 0);
            total_delay = s.total_delay + (if ltb 1 n then delays delay 1 (n - 1) else 0);
          },
        )
    unfolding retry_from
    execute_succeeds pos le e = execute-skip pos le ∙ rw (e, retry_from) (ground arith)

    -- If every attempt up to the last fails and may be tried again, the call gives up with the
    -- last error after exactly `MaxAttempts` attempts, and counts one failure and the delays
    -- between the attempts.
    execute_gives_up :
        (e : E)
        → 1 ≤ n
        → n ≡ config.max_attempts
        → call n ≡ some e
        → is_retryable message config e ≡ true
        → execute_with_result message config call delay done s ≡ (
          exceeded (some e),
          record s {
            total_attempts = s.total_attempts + n;
            failed_retries = s.failed_retries + 1;
            total_delay = s.total_delay + delays delay 1 (n - 1);
          },
        )
    unfolding retry_from
    execute_gives_up e pos same failed again =
        let last : (n == config.max_attempts) ≡ true = ground arith in
        execute-skip pos (omega arith) ∙ rw (failed, retry_from, again, last) (ground arith)

    -- An error that may not be tried again ends the call at once, with that error: later
    -- attempts are not made and the delays so far are not counted.
    execute_stops :
        (e : E)
        → 1 ≤ n
        → n ≤ config.max_attempts
        → call n ≡ some e
        → is_retryable message config e ≡ false
        → execute_with_result message config call delay done s ≡ (
          non_retryable e,
          record s { total_attempts = s.total_attempts + n; failed_retries = s.failed_retries + 1 },
        )
    unfolding retry_from
    execute_stops e pos le failed never =
        execute-skip pos le ∙ rw (failed, retry_from, never) (ground arith)

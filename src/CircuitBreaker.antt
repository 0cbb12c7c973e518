-- ===== src/CircuitBreaker.antt =====
-- The circuit breaker, crates/qaas-core/src/circuit_breaker.rs. A method takes the reading of the clock,
-- in nanoseconds, as an argument.
pub mod Fallback
pub mod Transitions
pub mod Tests
use queue_as_a_service.Base.{
  ℕ, ◌+◌, ◌-◌, Bool, true, false, Option, none, some, leb, u32, if◌then◌else◌,
}

-- `Open` of the source is `tripped`.
pub data CircuitState : Type 0 where
  closed tripped half_open : CircuitState

pub record CircuitBreakerConfig : Type 0 where
  pub failure_threshold : ℕ
  pub open_duration : ℕ
  pub half_open_success_threshold : ℕ

-- `Inner`, what the lock guards.
pub record Breaker : Type 0 where
  pub state : CircuitState
  pub consecutive_failures : ℕ
  pub consecutive_successes : ℕ
  pub opened_at : Option ℕ

unfoldable pub new_breaker : Breaker
new_breaker = record {
  state = closed;
  consecutive_failures = 0;
  consecutive_successes = 0;
  opened_at = none;
}

-- `open`.
unfoldable pub trip : ℕ → Breaker → Breaker
trip now b = record {
  state = tripped;
  consecutive_failures = 0;
  consecutive_successes = 0;
  opened_at = some now;
}

-- Whether the cooldown that began at `opened_at` is over.
unfoldable pub has_elapsed : ℕ → ℕ → Option ℕ → Bool
has_elapsed open_duration now none = false
has_elapsed open_duration now (some at) = leb open_duration (now - at)

module _ (config : CircuitBreakerConfig) where
  unfoldable pub resolve_open_timeout : ℕ → Breaker → Breaker
  resolve_open_timeout now b = elim b.state [
    | tripped ↦
        if has_elapsed config.open_duration now b.opened_at
        then record b { state = half_open; consecutive_failures = 0; consecutive_successes = 0 }
        else b
    | closed ↦ b
    | half_open ↦ b
  ]

  unfoldable pub record_success : Breaker → Breaker
  record_success b = elim b.state [
    | closed ↦ record b { consecutive_failures = 0 }
    | half_open ↦
        let successes = u32 (b.consecutive_successes + 1) in
        if leb config.half_open_success_threshold successes
        then record b { state = closed; consecutive_failures = 0; consecutive_successes = 0 }
        else record b { consecutive_successes = successes }
    | tripped ↦ b
  ]

  unfoldable pub record_failure : ℕ → Breaker → Breaker
  record_failure now b = elim b.state [
    | closed ↦
        let failures = u32 (b.consecutive_failures + 1) in
        if leb config.failure_threshold failures
        then trip now b
        else record b { consecutive_failures = failures }
    | half_open ↦ trip now b
    | tripped ↦ b
  ]

-- The end of a guarded operation.
pub data Outcome (T E : Type 0) : Type 0 where
  succeeds : T → Outcome T E
  fails : E → Outcome T E

-- `Result` of `call`: `CircuitBreakerError` has the cases `rejected`, `Open`, and `call_failed`, `Failed`.
pub data CallResult (T E : Type 0) : Type 0 where
  returned : T → CallResult T E
  rejected : CallResult T E
  call_failed : E → CallResult T E

module _ {T E : Type 0} (config : CircuitBreakerConfig) where
  -- The operation is read at one time and a failure is recorded at a later one.
  unfoldable pub call : ℕ → ℕ → Outcome T E → Breaker → Breaker × CallResult T E
  call now later outcome b =
      let resolved = resolve_open_timeout config now b in
      let attempted : Breaker × CallResult T E = elim outcome [
        | succeeds value ↦ (record_success config resolved, returned value)
        | fails error ↦ (record_failure config later resolved, call_failed error)
      ] in
      elim resolved.state [
        | tripped ↦ (resolved, rejected)
        | closed ↦ attempted
        | half_open ↦ attempted
      ]

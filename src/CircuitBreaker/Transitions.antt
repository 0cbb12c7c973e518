-- ===== src/CircuitBreaker/Transitions.antt =====
-- The states of a circuit breaker, and how they follow each other.
use queue_as_a_service.Base.{
  ℕ, ◌+◌, ◌-◌, ◌≤◌, ◌<◌, ◌≡◌, refl, List, [], ◌∷◌, none, some, leb, ltb, if◌then◌else◌, dec_lt,
  leb→le, u32, length, Bool-cases, Option-cases, arith, inl, inr, ◌⊎◌,
}
use queue_as_a_service.CircuitBreaker.{
  Breaker, CircuitBreakerConfig, CircuitState, closed, tripped, half_open, Outcome, rejected,
  new_breaker, trip, has_elapsed, resolve_open_timeout, record_success, record_failure, call,
}

-- The calls on a breaker, in any interleaving: each takes the lock once.
pub data Action : Type 0 where
  resolve : ℕ → Action
  succeed : Action
  fail : ℕ → Action

unfoldable pub act : CircuitBreakerConfig → Action → Breaker → Breaker
act config (resolve now) = resolve_open_timeout config now
act config succeed = record_success config
act config (fail now) = record_failure config now

-- The edges that the type's documentation allows, between a breaker and its state after a call.
pub data Edge (config : CircuitBreakerConfig) (b : Breaker) (s : CircuitState)
    : Action → Type 0 where
  stays : {a : Action} → s ≡ b.state → Edge config b s a
  trips :
      {now : ℕ}
      → b.state ≡ closed
      → s ≡ tripped
      → config.failure_threshold ≤ b.consecutive_failures + 1
      → Edge config b s (fail now)
  cools :
      {now at : ℕ}
      → b.state ≡ tripped
      → s ≡ half_open
      → b.opened_at ≡ some at
      → config.open_duration ≤ now - at
      → Edge config b s (resolve now)
  closes :
      b.state ≡ half_open
      → s ≡ closed
      → config.half_open_success_threshold ≤ b.consecutive_successes + 1
      → Edge config b s succeed
  reopens : {now : ℕ} → b.state ≡ half_open → s ≡ tripped → Edge config b s (fail now)

-- What holds of a breaker between two calls. The two thresholds are of type `u32`.
pub record IsValid (config : CircuitBreakerConfig) (b : Breaker) : Type 0 where
  pub failures :
      b.consecutive_failures + 1 ≤ config.failure_threshold ⊎ (b.consecutive_failures ≡ 0)
  pub successes :
      b.consecutive_successes + 1 ≤ config.half_open_success_threshold
      ⊎ (b.consecutive_successes ≡ 0)
  pub stamped : b.state ≡ tripped → ¬ (b.opened_at ≡ none)

-- The three states, with the equation.
state_cases : (s : CircuitState) → (s ≡ closed) ⊎ (s ≡ tripped) ⊎ (s ≡ half_open)
state_cases closed = inl refl
state_cases tripped = inr (inl refl)
state_cases half_open = inr (inr refl)

module _ (config : CircuitBreakerConfig) where
  new_breaker-IsValid : IsValid config new_breaker
  unfolding new_breaker
  new_breaker-IsValid = record { failures = inr refl; successes = inr refl; stamped = ground arith }

  -- Every call on a breaker keeps its counters below their thresholds, and an open breaker has the time
  -- at which it opened.
  pub act-IsValid : (a : Action) (b : Breaker) → IsValid config b → IsValid config (act config a b)
  unfolding act resolve_open_timeout record_success record_failure has_elapsed trip
  act-IsValid (resolve now) b valid = record {
    failures = ground (arith, valid.failures);
    successes = ground (arith, valid.successes);
    stamped = ground (arith, valid.stamped);
  }
  act-IsValid succeed b valid = record {
    failures = ground (arith, valid.failures);
    successes = ground (arith, valid.successes);
    stamped = ground (arith, valid.stamped);
  }
  act-IsValid (fail now) b valid = record {
    failures = ground (arith, valid.failures);
    successes = ground (arith, valid.successes);
    stamped = ground (arith, valid.stamped);
  }

  -- A call on the breaker leaves its state as it is or takes one of the four edges, each under its
  -- condition.
  pub act-Edge : (a : Action) (b : Breaker) → Edge config b (act config a b).state a
  unfolding act resolve_open_timeout record_success record_failure has_elapsed trip
  act-Edge (resolve now) b = elim (state_cases b.state) [
    | inl e ↦ stays (ground (arith, e))
    | inr (inr e) ↦ stays (ground (arith, e))
    | inr (inl e) ↦ elim (Option-cases b.opened_at) [
      | inl o ↦ stays (ground (arith, e, o))
      | inr (at, o) ↦ elim (Bool-cases (leb config.open_duration (now - at))) [
        | inl t ↦ cools e (ground (arith, e, o, t)) o (leb→le config.open_duration (now - at) t)
        | inr t ↦ stays (ground (arith, e, o, t))
      ]
    ]
  ]
  act-Edge succeed b = elim (state_cases b.state) [
    | inl e ↦ stays (ground (arith, e))
    | inr (inl e) ↦ stays (ground (arith, e))
    | inr (inr e) ↦
        elim (Bool-cases
          (leb config.half_open_success_threshold (u32 (b.consecutive_successes + 1)))) [
            | inl t ↦ closes e (ground (arith, e, t)) (omega (arith, leb→le _ _ t))
            | inr t ↦ stays (ground (arith, e, t))
          ]
  ]
  act-Edge (fail now) b = elim (state_cases b.state) [
    | inl e ↦ elim (Bool-cases (leb config.failure_threshold (u32 (b.consecutive_failures + 1)))) [
      | inl t ↦ trips e (ground (arith, e, t)) (omega (arith, leb→le _ _ t))
      | inr t ↦ stays (ground (arith, e, t))
    ]
    | inr (inl e) ↦ stays (ground (arith, e))
    | inr (inr e) ↦ reopens e (ground (arith, e))
  ]

  -- While the cooldown lasts, a guarded call is refused and the breaker stays as it is, whatever the
  -- operation would have done.
  pub call_during_cooldown :
      {T E : Type 0} (now later at : ℕ) (outcome : Outcome T E) (b : Breaker)
      → b.state ≡ tripped
      → b.opened_at ≡ some at
      → now - at < config.open_duration
      → call config now later outcome b ≡ (b, rejected)
  unfolding call resolve_open_timeout has_elapsed
  call_during_cooldown now later at outcome b s o h = ground (arith, s, o, h)

  unfoldable pub run_failures : List ℕ → Breaker → Breaker
  unfolding record_failure
  run_failures [] b = b
  run_failures (now ∷ nows) b = run_failures nows (record_failure config now b)

  run_failures-tripped :
      (nows : List ℕ) (b : Breaker) → b.state ≡ tripped → (run_failures nows b).state ≡ tripped
  unfolding run_failures record_failure
  run_failures-tripped [] b s = s
  run_failures-tripped (now ∷ nows) b s =
      run_failures-tripped nows (record_failure config now b) (ground (arith, s))

  -- Failures with no success between them trip a closed breaker when the threshold, a `u32`, is reached,
  -- and not before: the failures that it had already counted are part of the streak.
  pub run_failures-state :
      (nows : List ℕ) (b : Breaker)
      → b.state ≡ closed
      → b.consecutive_failures < config.failure_threshold
      → config.failure_threshold < 4294967296
      → (run_failures nows b).state ≡ (
          if ltb (b.consecutive_failures + length nows) config.failure_threshold
          then closed
          else tripped)
  unfolding run_failures record_failure trip
  run_failures-state [] b s h w = ground (arith, s, h)
  run_failures-state (now ∷ nows) b s h w =
      elim (dec_lt (b.consecutive_failures + 1) config.failure_threshold) [
        | yes l ↦
            let (s', c) = counted l in
            ground (
              arith,
              c,
              run_failures-state nows (record_failure config now b) s' (omega (arith, c)) w,
            )
        | no n ↦
            let t = run_failures-tripped nows (record_failure config now b) (at_threshold n) in
            ground (arith, t)
      ]
    where
      counted :
          b.consecutive_failures + 1 < config.failure_threshold
          → ((record_failure config now b).state ≡ closed)
            × ((record_failure config now b).consecutive_failures ≡ b.consecutive_failures + 1)
      counted l = (ground (arith, s, w), ground (arith, s, w))

      at_threshold :
          ¬ (b.consecutive_failures + 1 < config.failure_threshold)
          → (record_failure config now b).state ≡ tripped
      at_threshold n = ground (arith, s, w, h)

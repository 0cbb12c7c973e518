-- ===== src/CircuitBreaker/Tests.antt =====
-- Circuit breakers on concrete inputs.
use queue_as_a_service.Base.{
  ℕ, ◌≡◌, refl, [], ◌∷◌, none, some, arith, ℕ_discrete, Map, get, inl, inr,
}
use queue_as_a_service.CircuitBreaker.{Breaker, CircuitBreakerConfig, closed, tripped}
use queue_as_a_service.CircuitBreaker.Transitions.{Edge, fail, IsValid, act, act-Edge}
use queue_as_a_service.CircuitBreaker.Fallback.{CacheEntry, get_cached}

abbrev config : CircuitBreakerConfig
config = record { failure_threshold = 2; open_duration = 30; half_open_success_threshold = 1 }

abbrev counting : Breaker
counting = record {
  state = closed;
  consecutive_failures = 1;
  consecutive_successes = 0;
  opened_at = none;
}

abbrev opened : Breaker
opened = record {
  state = tripped;
  consecutive_failures = 0;
  consecutive_successes = 0;
  opened_at = some 10;
}

counting-IsValid : IsValid config counting
counting-IsValid = record {
  failures = inl (omega arith);
  successes = inr refl;
  stamped = ground arith;
}

act-Edge_example : Edge config counting (act config (fail 10) counting).state (fail 10)
act-Edge_example = act-Edge config (fail 10) counting

abbrev entries : Map ℕ (CacheEntry ℕ)
entries = (7, record { value = 70; inserted_at = 100 }) ∷ []

serves : (get_cached ℕ_discrete 50 120 7 entries).1 ≡ some 70
unfolding get_cached get ℕ_discrete
serves = refl

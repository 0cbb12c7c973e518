-- ===== src/CircuitBreaker/Fallback.antt =====
-- `FallbackCache` and `HybridGuard`.
use queue_as_a_service.Base.{
  ℕ, ◌-◌, ◌<◌, ◌≡◌, Option, none, some, Map, get, remove, insert, get-insert, ltb, if◌then◌else◌,
  arith, Option-cases, inl, inr,
}
use queue_as_a_service.CircuitBreaker.{
  Breaker, CircuitBreakerConfig, closed, tripped, half_open, Outcome, succeeds, fails,
  resolve_open_timeout, record_success, record_failure,
}

pub record CacheEntry (V : Type 0) : Type 0 where
  pub value : V
  pub inserted_at : ℕ

pub data HybridOutcome (T E : Type 0) : Type 0 where
  fresh : T → HybridOutcome T E
  cached : T → HybridOutcome T E
  unavailable : Option E → HybridOutcome T E

unfoldable pub into_value : {T E : Type 0} → HybridOutcome T E → Option T
into_value (fresh value) = some value
into_value (cached value) = some value
into_value (unavailable _) = none

module _ {K V : Type 0} (eq : Discrete K) (ttl : ℕ) where
  unfoldable pub get_cached : ℕ → K → Map K (CacheEntry V) → Map K (CacheEntry V) × Option V
  get_cached now key entries = elim (get eq key entries) [
    | none ↦ (entries, none)
    | some entry ↦
        if ltb (now - entry.inserted_at) ttl
        then (entries, some entry.value)
        else (remove eq key entries, none)
  ]

  unfoldable pub set_cached : ℕ → K → V → Map K (CacheEntry V) → Map K (CacheEntry V)
  set_cached now key value = insert eq key (record { value = value; inserted_at = now })

  unfoldable pub fall_back :
      {E : Type 0}
      → ℕ
      → K
      → Option E
      → Map K (CacheEntry V)
      → Map K (CacheEntry V) × HybridOutcome V E
  unfolding get_cached
  fall_back now key error entries =
      let (entries', found) = get_cached now key entries in
      elim found [ some value ↦ (entries', cached value) | none ↦ (entries', unavailable error) ]

pub record HybridGuard (K V : Type 0) : Type 0 where
  pub config : CircuitBreakerConfig
  pub breaker : Breaker
  pub ttl : ℕ
  pub entries : Map K (CacheEntry V)

module _ {K V E : Type 0} (eq : Discrete K) where
  -- The clock is read before the operation, and after it.
  unfoldable pub hybrid_call :
      ℕ → ℕ → K → Outcome V E → HybridGuard K V → HybridGuard K V × HybridOutcome V E
  unfolding fall_back set_cached
  hybrid_call now later key outcome g =
      let resolved = resolve_open_timeout g.config now g.breaker in
      let skipped = fall_back eq g.ttl now key none g.entries in
      let attempted : HybridGuard K V × HybridOutcome V E = elim outcome [
        | succeeds value ↦ (
          record g {
            breaker = record_success g.config resolved;
            entries = set_cached eq g.ttl later key value g.entries;
          },
          fresh value,
        )
        | fails error ↦
            let (entries, result) = fall_back eq g.ttl later key (some error) g.entries in
            (
              record g { breaker = record_failure g.config later resolved; entries = entries },
              result,
            )
      ] in
      elim resolved.state [
        | tripped ↦ (record g { breaker = resolved; entries = skipped.0 }, skipped.1)
        | closed ↦ attempted
        | half_open ↦ attempted
      ]

module _ {K V : Type 0} (eq : Discrete K) (ttl : ℕ) where
  -- What is served out of the cache was stored for that key less than the time to live ago.
  pub get_cached-fresh :
      (now : ℕ) (key : K) (value : V) (entries : Map K (CacheEntry V))
      → (get_cached eq ttl now key entries).1 ≡ some value
      → (at : ℕ) × (get eq key entries ≡ some (record { value = value; inserted_at = at }))
        × (now - at < ttl)
  unfolding get_cached
  get_cached-fresh now key value entries h = elim (Option-cases (get eq key entries)) [
    | inl e ↦ absurd (ground (arith, h, e))
    | inr (entry, e) ↦ (entry.inserted_at, ground (arith, h, e), ground (arith, h, e))
  ]

  -- A value that was stored is served under its key until the time to live is over, and no longer; and
  -- other keys are served as before.
  pub get_cached-set_cached :
      (now at : ℕ) (key other : K) (value : V) (entries : Map K (CacheEntry V))
      → (get_cached eq ttl now other (set_cached eq ttl at key value entries)).1
        ≡ elim (eq key other) [
          | yes _ ↦ if ltb (now - at) ttl then some value else none
          | no _ ↦ (get_cached eq ttl now other entries).1
        ]
  unfolding get_cached set_cached
  get_cached-set_cached now at key other value entries =
      ground (arith, get-insert eq key other (record { value = value; inserted_at = at }) entries)

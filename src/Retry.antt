-- ===== src/Retry.antt =====
-- Backoff between deliveries, crates/qaas-core/src/retry.rs. The arithmetic of `f64` is the parameter
-- `Float`; durations are counted in nanoseconds.
use queue_as_a_service.Base.{ℕ, ◌-◌, min, Bool, false, Option, none, some, leb}

-- The operations of `f64`, and the conversions of `Duration` from and to seconds.
pub record Float (F : Type 0) : Type 0 where
  pub zero : F
  pub one : F
  pub add : F → F → F
  pub sub : F → F → F
  pub mul : F → F → F
  pub min_f : F → F → F
  pub max_f : F → F → F
  pub clamp : F → F → F → F
  pub powi : F → ℕ → F
  pub as_secs : ℕ → F
  pub from_secs : F → ℕ

pub record RetryPolicy (F : Type 0) : Type 0 where
  pub base_delay : ℕ
  pub max_delay : ℕ
  pub multiplier : F
  pub jitter : F
  pub max_attempts : Option ℕ

abbrev pub max_backoff_exponent : ℕ
max_backoff_exponent = 32

-- Whether a message that has failed so often is given up.
unfoldable pub is_exhausted : {F : Type 0} → RetryPolicy F → ℕ → Bool
is_exhausted policy delivery_count = elim policy.max_attempts [
  | none ↦ false
  | some max_attempts ↦ leb max_attempts delivery_count
]

module _ {F : Type 0} (f : Float F) where
  open f use {zero, one, add, sub, mul, min_f, max_f, clamp, powi, as_secs, from_secs}

  -- `draw` is the value of `fastrand::f64()`.
  unfoldable pub apply_jitter : F → F → F → F
  apply_jitter draw capped_secs jitter =
      let floor = mul capped_secs (sub one (clamp jitter zero one)) in
      add floor (mul draw (sub capped_secs floor))

  unfoldable pub delay_for : RetryPolicy F → F → ℕ → ℕ
  delay_for policy draw delivery_count =
      let exponent = min (delivery_count - 1) max_backoff_exponent in
      let raw_secs = mul (as_secs policy.base_delay) (powi policy.multiplier exponent) in
      let capped_secs = min_f raw_secs (as_secs policy.max_delay) in
      from_secs (max_f (apply_jitter draw capped_secs policy.jitter) zero)

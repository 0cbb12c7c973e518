-- ===== src/Quota.antt =====
-- Request quotas of a tenant, crates/qaas-core/src/quota.rs: a sliding window over the times of the
-- requests. A method takes the reading of the clock, in nanoseconds, as an argument. The text of a refusal
-- is not modelled.
pub mod Window
pub mod Tests
use queue_as_a_service.Base.{
  ℕ, ◌+◌, ◌-◌, min, List, [], ◌∷◌, ◌++◌, Option, none, some, ite, dec_le, length, leb, ltb,
  if◌then◌else◌,
}

pub record QuotaConfig : Type 0 where
  pub max_queues : Option ℕ
  pub max_pending_messages : Option ℕ
  pub requests_per_window : Option ℕ
  pub window : ℕ

unfoldable pub unlimited : QuotaConfig
unlimited = record {
  max_queues = none;
  max_pending_messages = none;
  requests_per_window = none;
  window = 60000000000;
}

pub data QuotaDecision : Type 0 where
  allowed : Option ℕ → QuotaDecision
  denied : Option ℕ → QuotaDecision

pub record TenantQuota : Type 0 where
  pub config : QuotaConfig
  pub requests : List ℕ

unfoldable pub new_quota : QuotaConfig → TenantQuota
new_quota config = record { config = config; requests = [] }

unfoldable pub set_config : QuotaConfig → TenantQuota → TenantQuota
set_config config q = record q { config = config }

unfoldable pub evict_expired : ℕ → ℕ → List ℕ → List ℕ
evict_expired window now [] = []
evict_expired window now (front ∷ rest) =
    ite (dec_le window (now - front)) (evict_expired window now rest) (front ∷ rest)

unfoldable pub retry_after : ℕ → ℕ → List ℕ → ℕ
retry_after window now [] = 0
retry_after window now (oldest ∷ rest) = window - (now - oldest)

-- `u64::try_from(len).unwrap_or(u64::MAX)`.
unfoldable pub count : List ℕ → ℕ
count requests = min (length requests) 18446744073709551615

unfoldable pub requests_in_window : ℕ → TenantQuota → TenantQuota × ℕ
requests_in_window now q =
    let live = evict_expired q.config.window now q.requests in
    (record q { requests = live }, count live)

unfoldable pub try_acquire : ℕ → TenantQuota → TenantQuota × QuotaDecision
try_acquire now q =
    let live = evict_expired q.config.window now q.requests in
    let evicted : TenantQuota = record q { requests = live } in
    elim q.config.requests_per_window [
      | none ↦ (evicted, allowed none)
      | some limit ↦
          let after = if ltb 0 limit then some (retry_after q.config.window now live) else none in
          if leb limit (count live)
          then (evicted, denied after)
          else (record q { requests = live ++ now ∷ [] }, allowed (some (limit - (count live + 1))))
    ]

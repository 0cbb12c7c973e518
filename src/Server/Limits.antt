-- ===== src/Server/Limits.antt =====
-- The limit on the queues of a tenant in crates/qaas-server/src/mcp.rs.
use queue_as_a_service.Base.{
  ℕ, ◌+◌, ◌≤◌, ◌≡◌, arith, some, [], ◌∷◌, Map, get, insert, remove, Option-cases, Bool-cases, inl,
  inr, leb,
}
use queue_as_a_service.Types.{Text}
use queue_as_a_service.Retry.{RetryPolicy}
use queue_as_a_service.ConsumerGroup.State.{Group}
use queue_as_a_service.ConsumerGroup.Recovery.{open_group}
use queue_as_a_service.Quota.{TenantQuota}
use queue_as_a_service.Auth.{TenantId, Text-discrete}
use queue_as_a_service.Server.Answers.{
  pure, refuse, gets, step, or_refuse, refuse_if, modify, answered, ◌>>=◌, ◌>>◌,
}
use queue_as_a_service.Server.Registry.{
  Registry, Opening, scope_key, is_queue_name, validate_queue_name, find_quota, count_matching,
  tenant_queue_count, at_queue_limit, open_new, find_group, visibility_timeout,
}

module _ {F V : Type 0} (tenant : TenantId) where
  count-remove :
      (k : Text) (m : Map Text (Group F V V))
      → count_matching tenant (remove Text-discrete k m) ≤ count_matching tenant m
  unfolding count_matching remove
  count-remove k [] = omega arith
  count-remove k ((j, g) ∷ m) = ground (arith, count-remove k m)

  count-insert :
      (k : Text) (g : Group F V V) (m : Map Text (Group F V V))
      → count_matching tenant (insert Text-discrete k g m) ≤ count_matching tenant m + 1
  unfolding insert count_matching
  count-insert k g m = ground (arith, count-remove k m)

module _ {F G V : Type 0} (policy : RetryPolicy F) (opening : Opening V) where
  open_new_bounded :
      (tenant : TenantId) (queue : Text) (r : Registry F G V) (quota : TenantQuota) (max_queues : ℕ)
      → get Text-discrete tenant.text r.tenant_quotas ≡ some quota
      → quota.config.max_queues ≡ some max_queues
      → tenant_queue_count tenant r ≤ max_queues
      → tenant_queue_count tenant (open_new policy opening (some tenant) queue r).0 ≤ max_queues
  unfolding open_new at_queue_limit find_quota tenant_queue_count step refuse_if or_refuse modify
      pure refuse answered ◌>>=◌ ◌>>◌
  open_new_bounded tenant queue r quota max_queues has_quota limit h =
      elim (Bool-cases (leb max_queues (count_matching tenant r.groups))) [
        | inl full ↦ ground (arith, has_quota, limit, h, full)
        | inr room ↦ elim (Option-cases opening) [
          | inl e ↦ ground (arith, has_quota, limit, h, room, e)
          | inr (logs, e) ↦
              let g : Group F V V = open_group logs.0 logs.1 visibility_timeout policy in
              ground (
                arith,
                has_quota,
                limit,
                h,
                room,
                e,
                count-insert tenant (scope_key (some tenant) queue) g r.groups,
              )
        ]
      ]

  -- Opening a queue never takes a tenant above its limit: with at most as many queues as its quota allows
  -- before a look-up, it has at most as many after it, whether the look-up finds the queue, opens it or is
  -- refused.
  pub find_group_bounded :
      (tenant : TenantId) (queue : Text) (r : Registry F G V) (quota : TenantQuota) (max_queues : ℕ)
      → get Text-discrete tenant.text r.tenant_quotas ≡ some quota
      → quota.config.max_queues ≡ some max_queues
      → tenant_queue_count tenant r ≤ max_queues
      → tenant_queue_count tenant (find_group policy opening (some tenant) queue r).0 ≤ max_queues
  unfolding find_group validate_queue_name gets pure refuse answered ◌>>=◌ ◌>>◌
  find_group_bounded tenant queue r quota max_queues has_quota limit h =
      let opened = open_new_bounded tenant queue r quota max_queues has_quota limit h in
      elim (Bool-cases (is_queue_name queue)) [
        | inr invalid ↦ rw invalid h
        | inl valid ↦
            elim (Option-cases (get Text-discrete (scope_key (some tenant) queue) r.groups)) [
              | inl e ↦ rw (valid, e) opened
              | inr (g, e) ↦ rw (valid, e) h
            ]
      ]

-- ===== src/Quota/Tests.antt =====
-- Quotas on concrete inputs.
use queue_as_a_service.Base.{◌≤◌, refl, [], ◌∷◌, none, some, arith}
use queue_as_a_service.Quota.{QuotaConfig, new_quota}
use queue_as_a_service.Quota.Window.{young, acquire_all, acquire_all_bounded}

abbrev config : QuotaConfig
config = record {
  max_queues = none;
  max_pending_messages = none;
  requests_per_window = some 2;
  window = 10;
}

acquire_all_bounded_example :
    young 10 18 (acquire_all (12 ∷ 13 ∷ 14 ∷ []) (new_quota config, [])).1 ≤ 2
acquire_all_bounded_example =
    acquire_all_bounded 2 config 0 (12 ∷ 13 ∷ 14 ∷ []) 18 refl (omega arith)
      (omega arith, (omega arith, (omega arith, tt))) (omega arith)

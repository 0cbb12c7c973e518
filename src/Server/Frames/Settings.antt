-- ===== src/Server/Frames/Settings.antt =====
-- The tools of crates/qaas-server/src/mcp.rs for budgets, routes, quotas and dead letters, for what holds of the steps
-- that they are made of.
use queue_as_a_service.Base.{◌/◌, ℕ, ◌≡◌, refl, arith, Option, none, some, List, ◌⊎◌, inl, inr}
use queue_as_a_service.Log.{AppendIo}
use queue_as_a_service.Types.{Text}
use queue_as_a_service.DeadLetter.{TriageClassification}
use queue_as_a_service.Auth.{TenantId, Text-discrete}
use queue_as_a_service.Server.Answers.{Call, pure, done, step, modify}
use queue_as_a_service.Quota.{set_config, requests_in_window}
use queue_as_a_service.Semantic.{insert_embedding, live_keys}
use queue_as_a_service.Server.Producing.{or_default}
use queue_as_a_service.Server.Registry.{Registry, Opening, is_queue_name, validate_queue_name}
use queue_as_a_service.Server.State.{Setting, Server}
use queue_as_a_service.Server.Settings.{
  seconds, ConfigureTenantQuotaParams, configure_admission_impl, admission_status_impl,
  configure_route_impl, configure_tenant_quota_impl, reported_tenant, tenant_quota_status_impl,
}
use queue_as_a_service.Server.Letters.{
  list_dead_letters_impl, triage_dead_letter_impl, reprocess_dead_letter_impl,
  purge_dead_letter_impl,
}
use queue_as_a_service.Server.Frames.{
  IsLogic, IsScoped, SetsAdmission, Holds-bind, Holds-then, Holds-seq, Holds-pure, Holds-refuse,
  Holds-or_refuse, Holds-when, Holds-guarded, find_admission-valid,
}
use queue_as_a_service.Server.Frames.Tools.{group_step_io, with_group, with_message}

-- A tenant is told of itself only.
pub reported_tenant_own :
    {F G V : Type 0} (setting : Setting F G) (t : Option TenantId) (tenant_id : Option Text)
    (s : Server F G V) (tenant : TenantId)
    → (reported_tenant setting t tenant_id s).1 ≡ done tenant
    → (t ≡ none) ⊎ (t ≡ some tenant)
unfolding reported_tenant pure
reported_tenant_own setting none tenant_id s tenant h = inl refl
reported_tenant_own setting (some caller) tenant_id s tenant h = inr (ground (arith, h))

reported_tenant-Holds :
    {F G V : Type 0} (setting : Setting F G) (t : Option TenantId) (tenant_id : Option Text)
    {Q : (A : Type 0) → Call (Server F G V) A → Type 0}
    → IsLogic Q
    → Q _ (reported_tenant setting t tenant_id)
unfolding reported_tenant
reported_tenant-Holds setting (some caller) tenant_id above = Holds-pure above _
reported_tenant-Holds setting none none above = Holds-refuse above _ _
reported_tenant-Holds setting none (some tenant_id) above = Holds-or_refuse above _ _

module _ {F G V : Type 0} (setting : Setting F G) (t : Option TenantId)
    {P : (A : Type 0) → Call (Registry F G V) A → Type 0}
    {Q : (A : Type 0) → Call (Server F G V) A → Type 0} (scoped : IsScoped setting t P Q) where
  open setting use {policy}

  pub configure_admission_impl-Holds :
      (queue : Text) (tokens : Option ℕ) (ceiling : Option F) (window_seconds : Option ℕ)
      → SetsAdmission t P
      → Q _ (configure_admission_impl setting t queue tokens ceiling window_seconds)
  unfolding configure_admission_impl modify
  configure_admission_impl-Holds queue tokens ceiling window_seconds admission_set =
      scoped.lift _ _ (
        Holds-bind scoped.order _ _ (scoped.admission_find queue) (λ r c e.
          let valid = find_admission-valid t queue r c e in
          Holds-seq scoped.order _ _ (admission_set _ queue _ _ valid) (Holds-pure scoped.order _)))

  pub admission_status_impl-Holds :
      (now : ℕ) (queue : Text) → SetsAdmission t P → Q _ (admission_status_impl setting now t queue)
  unfolding admission_status_impl modify
  admission_status_impl-Holds now queue admission_set = scoped.lift _ _ (
      Holds-bind scoped.order _ _ (scoped.admission_find queue) (λ r c e.
        let valid = find_admission-valid t queue r c e in
        Holds-seq scoped.order _ _ (admission_set _ queue _ _ valid) (Holds-pure scoped.order _)))

  pub configure_route_impl-Holds :
      (sort : List Text → List Text) (insert_now keys_now : ℕ) (queue : Text) (values : List G)
      → Q _ (configure_route_impl setting sort insert_now keys_now t queue values)
  unfolding configure_route_impl validate_queue_name
  configure_route_impl-Holds sort insert_now keys_now queue values =
      Holds-guarded scoped.above (is_queue_name queue) _ _ (λ _.
        Holds-then scoped.above _ _ (Holds-or_refuse scoped.above _ _) (λ e.
          Holds-then scoped.above _ _
            (scoped.lift _ _ (
              scoped.routes_step _ (λ routes.
                live_keys keys_now (insert_embedding Text-discrete insert_now queue e routes))))
            (λ names. Holds-pure scoped.above _)))

  pub tenant_quota_status_impl-Holds :
      (now : ℕ) (tenant_id : Option Text) → Q _ (tenant_quota_status_impl setting now t tenant_id)
  unfolding tenant_quota_status_impl
  tenant_quota_status_impl-Holds now tenant_id =
      Holds-bind scoped.above _ _ (reported_tenant-Holds setting t tenant_id scoped.above)
        (λ s tenant e. scoped.lift _ _ (
          scoped.quota_step _ tenant
            (λ quota queues pending.
              let looked = requests_in_window now quota in
              (
                looked.0,
                record {
                  tenant_id = tenant.text;
                  max_queues = quota.config.max_queues;
                  queues_open = queues;
                  max_pending_messages = quota.config.max_pending_messages;
                  pending_messages = pending;
                  requests_per_window = quota.config.requests_per_window;
                  requests_in_window = looked.1;
                  window_seconds = quota.config.window / 1000000000;
                },
              ))
            (reported_tenant_own setting t tenant_id s tenant e)))

  pub list_dead_letters_impl-Holds :
      (opening : Opening V) (queue : Text) → Q _ (list_dead_letters_impl setting opening t queue)
  unfolding list_dead_letters_impl
  list_dead_letters_impl-Holds opening queue =
      with_group setting t scoped opening queue _ (λ valid g. Holds-pure scoped.above _)

  pub purge_dead_letter_impl-Holds :
      (opening : Opening V) (io : AppendIo) (queue message_id : Text)
      → Q _ (purge_dead_letter_impl setting opening io t queue message_id)
  unfolding purge_dead_letter_impl
  purge_dead_letter_impl-Holds opening io queue message_id =
      with_message setting t scoped opening queue _ _
        (λ valid g id. scoped.lift _ _ (group_step_io setting t scoped queue _ g valid))

  pub reprocess_dead_letter_impl-Holds :
      (opening : Opening V) (dlq_io wal_io : AppendIo) (queue message_id : Text)
      → Q _ (reprocess_dead_letter_impl setting opening dlq_io wal_io t queue message_id)
  unfolding reprocess_dead_letter_impl
  reprocess_dead_letter_impl-Holds opening dlq_io wal_io queue message_id =
      with_message setting t scoped opening queue _ _
        (λ valid g id. scoped.lift _ _ (group_step_io setting t scoped queue _ g valid))

  pub triage_dead_letter_impl-Holds :
      (opening : Opening V) (io dlq_io wal_io : AppendIo) (at : ℕ) (queue message_id : Text)
      (class : TriageClassification) (reason : Text)
      → Q _ (
          triage_dead_letter_impl setting opening io dlq_io wal_io at t queue message_id class
            reason)
  unfolding triage_dead_letter_impl
  triage_dead_letter_impl-Holds opening io dlq_io wal_io at queue message_id class reason =
      with_message setting t scoped opening queue _ _ (λ valid g id.
        Holds-then scoped.above _ _
          (scoped.lift _ _ (group_step_io setting t scoped queue _ g valid))
          (λ annotated. Holds-when scoped.above _ _ _ (
            with_group setting t scoped opening queue _ (λ _ g'.
              Holds-then scoped.above _ _
                (Holds-when scoped.above _ _ _
                  (scoped.lift _ _ (group_step_io setting t scoped queue _ g' valid)))
                (λ reprocessed. Holds-pure scoped.above _)))))

module _ {F G V : Type 0} (setting : Setting F G)
    {P : (A : Type 0) → Call (Registry F G V) A → Type 0}
    {Q : (A : Type 0) → Call (Server F G V) A → Type 0} where
  pub configure_tenant_quota_impl-Holds :
      (t : Option TenantId) (params : ConfigureTenantQuotaParams)
      → IsScoped setting t P Q
      → Q _ (configure_tenant_quota_impl setting t params)
  unfolding configure_tenant_quota_impl modify step
  configure_tenant_quota_impl-Holds (some caller) params scoped = Holds-refuse scoped.above _ _
  configure_tenant_quota_impl-Holds none params scoped =
      Holds-then scoped.above _ _ (Holds-or_refuse scoped.above _ _) (λ tenant.
        Holds-seq scoped.above _ _
          (scoped.lift _ _ (
            scoped.quota_step _ tenant
              (λ q _ _. (
                set_config
                    (record {
                      max_queues = params.max_queues;
                      max_pending_messages = params.max_pending_messages;
                      requests_per_window = params.requests_per_window;
                      window = seconds (or_default 60 params.window_seconds);
                    })
                    q,
                tt,
              ))
              (inl refl)))
          (Holds-pure scoped.above _))

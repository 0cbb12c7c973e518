-- ===== src/Server/Frames/Requests.antt =====
-- Every tool call of crates/qaas-server/src/mcp.rs, for what holds of the steps that the tools are made of.
use mathlib.Core.Path.{subst}
use queue_as_a_service.Base.{ℕ, ◌≡◌, refl, sym, arith, Option, none, some}
use queue_as_a_service.Log.{AppendIo}
use queue_as_a_service.Types.{Text}
use queue_as_a_service.Auth.{TenantId}
use queue_as_a_service.Server.Answers.{Call, done, pure, refuse, throttled, step, answered, ◌>>=◌}
use queue_as_a_service.Server.Registry.{Registry}
use queue_as_a_service.Server.State.{Setting, Server, on_registry, authorize}
use queue_as_a_service.Server.Credentials.{create_api_key_impl, revoke_api_key_impl}
use queue_as_a_service.Server.Requests.{
  Request, Reply, enqueue_call, claim_call, ack_call, nack_call, checkpoint_call, publish_call,
  stream_call, configure_admission_call, admission_status_call, configure_route_call,
  list_letters_call, triage_call, reprocess_call, purge_call, create_key_call, revoke_key_call,
  configure_quota_call, quota_status_call, perform, serve,
}
use queue_as_a_service.Quota.{QuotaDecision, allowed, denied}
use queue_as_a_service.Server.Frames.{
  IsScoped, SetsAdmission, Holds-bind, Holds-then, Holds-pure, Holds-refuse, Holds-or_refuse,
}
use queue_as_a_service.Server.Frames.Tools.{
  claim_impl-Holds, ack_impl-Holds, nack_impl-Holds, checkpoint_impl-Holds,
  publish_partial_result_impl-Holds, stream_partial_results_impl-Holds,
}
use queue_as_a_service.Server.Frames.Enqueue.{authorize-Holds, enqueue_impl-Holds}
use queue_as_a_service.Server.Frames.Settings.{
  configure_admission_impl-Holds, admission_status_impl-Holds, configure_route_impl-Holds,
  tenant_quota_status_impl-Holds, list_dead_letters_impl-Holds, purge_dead_letter_impl-Holds,
  reprocess_dead_letter_impl-Holds, triage_dead_letter_impl-Holds,
  configure_tenant_quota_impl-Holds,
}

module _ {F G V : Type 0} (setting : Setting F G) where
  decided_same :
      (tenant : TenantId) (decision : QuotaDecision) (t : Option TenantId) (s : Server F G V)
      → ((elim decision as (λ _. Call (Server F G V) (Option TenantId)) [
        | allowed _ ↦ pure (some tenant)
        | denied retry_after ↦ refuse (throttled retry_after)
      ])
          s).1
        ≡ done t
      → t ≡ some tenant
  unfolding pure refuse
  decided_same tenant (allowed _) t s h = ground (arith, h)
  decided_same tenant (denied _) t s h = absurd (ground (arith, h))

  -- A call goes on as the caller that it came from.
  authorize_same :
      (now : ℕ) (caller t : Option TenantId) (s : Server F G V)
      → (authorize now caller s).1 ≡ done t
      → t ≡ caller
  unfolding authorize pure ◌>>=◌ answered on_registry step
  authorize_same now none t s h = ground (arith, h)
  authorize_same now (some tenant) t s h = decided_same tenant _ t _ h

module _ {F G V : Type 0} (setting : Setting F G)
    {P : (A : Type 0) → Call (Registry F G V) A → Type 0}
    {Q : (A : Type 0) → Call (Server F G V) A → Type 0} where
  create_api_key_impl-Holds :
      (io : AppendIo) (raw_key : Text) (t : Option TenantId) (tenant_id : Text)
      → IsScoped setting t P Q
      → Q _ (create_api_key_impl setting io raw_key t tenant_id)
  unfolding create_api_key_impl
  create_api_key_impl-Holds io raw_key (some caller) tenant_id scoped =
      Holds-refuse scoped.above _ _
  create_api_key_impl-Holds io raw_key none tenant_id scoped =
      Holds-then scoped.above _ _ (Holds-or_refuse scoped.above _ _) (λ tenant.
        Holds-then scoped.above _ _ (scoped.keys _ _ refl) (λ key. Holds-pure scoped.above _))

  revoke_api_key_impl-Holds :
      (io : AppendIo) (t : Option TenantId) (api_key : Text)
      → IsScoped setting t P Q
      → Q _ (revoke_api_key_impl setting io t api_key)
  unfolding revoke_api_key_impl
  revoke_api_key_impl-Holds io (some caller) api_key scoped = Holds-refuse scoped.above _ _
  revoke_api_key_impl-Holds io none api_key scoped = scoped.keys _ _ refl

  module _ (t : Option TenantId) (scoped : IsScoped setting t P Q)
      (admission_set : SetsAdmission t P) where
    replies :
        {A : Type 0} (m : Call (Server F G V) A) (f : A → Reply F G V)
        → Q _ m
        → Q _ (m >>= λ a. pure (f a))
    replies m f h = Holds-then scoped.above _ _ h (λ a. Holds-pure scoped.above _)

    perform-Holds : (request : Request F G V) → Q _ (perform setting t request)
    unfolding perform
    perform-Holds (enqueue_call readings params) =
        replies _ _ (enqueue_impl-Holds setting t scoped _ _ admission_set)
    perform-Holds (claim_call opening now waiting queue) =
        replies _ _ (claim_impl-Holds setting t scoped _ _ _ _ admission_set)
    perform-Holds (ack_call opening io at queue id token) =
        replies _ _ (ack_impl-Holds setting t scoped _ _ _ _ _ _)
    perform-Holds (nack_call opening attempt at queue id token reason) =
        replies _ _ (nack_impl-Holds setting t scoped _ _ _ _ _ _ _)
    perform-Holds (checkpoint_call opening io queue id token state) =
        replies _ _ (checkpoint_impl-Holds setting t scoped _ _ _ _ _ _)
    perform-Holds (publish_call opening queue id token content final) =
        replies _ _ (publish_partial_result_impl-Holds setting t scoped _ _ _ _ _ _)
    perform-Holds (stream_call opening later queue id after) =
        replies _ _ (stream_partial_results_impl-Holds setting t scoped _ _ _ _ _)
    perform-Holds (configure_admission_call queue tokens ceiling seconds) =
        replies _ _ (configure_admission_impl-Holds setting t scoped _ _ _ _ admission_set)
    perform-Holds (admission_status_call now queue) =
        replies _ _ (admission_status_impl-Holds setting t scoped _ _ admission_set)
    perform-Holds (configure_route_call sort insert_now keys_now queue values) =
        replies _ _ (configure_route_impl-Holds setting t scoped _ _ _ _ _)
    perform-Holds (list_letters_call opening queue) =
        replies _ _ (list_dead_letters_impl-Holds setting t scoped _ _)
    perform-Holds (triage_call opening io dlq_io wal_io at queue id class reason) =
        replies _ _ (triage_dead_letter_impl-Holds setting t scoped _ _ _ _ _ _ _ _ _)
    perform-Holds (reprocess_call opening dlq_io wal_io queue id) =
        replies _ _ (reprocess_dead_letter_impl-Holds setting t scoped _ _ _ _ _)
    perform-Holds (purge_call opening io queue id) =
        replies _ _ (purge_dead_letter_impl-Holds setting t scoped _ _ _ _)
    perform-Holds (create_key_call io raw_key tenant_id) =
        replies _ _ (create_api_key_impl-Holds io raw_key t tenant_id scoped)
    perform-Holds (revoke_key_call io api_key) =
        replies _ _ (revoke_api_key_impl-Holds io t api_key scoped)
    perform-Holds (configure_quota_call params) =
        replies _ _ (configure_tenant_quota_impl-Holds setting t params scoped)
    perform-Holds (quota_status_call now tenant_id) =
        replies _ _ (tenant_quota_status_impl-Holds setting t scoped _ _)

    -- What holds of the steps on what belongs to the caller holds of each call.
    pub serve-Holds : (now : ℕ) (request : Request F G V) → Q _ (serve setting now t request)
    unfolding serve
    serve-Holds now request =
        Holds-bind scoped.above _ _ (authorize-Holds setting now t scoped) (λ s t' e.
          subst (λ x. Q _ (perform setting x request)) (sym (authorize_same setting now t t' s e))
            (perform-Holds request))

-- ===== src/Server/Spending.antt =====
-- What the budgets of the queues in crates/qaas-server/src/mcp.rs have admitted, and the steps that do not change it.
pub mod Refusals
pub mod Enqueue
use queue_as_a_service.Base.{
  ℕ, ◌≡◌, ◌≢◌, refl, sym, ap, ◌∙◌, arith, Bool, true, false, Option, none, some, Option-cases,
  Bool-cases, ◌⊎◌, inl, inr, List, [], Map, get, insert, get-insert, ite, if◌then◌else◌, ℕ_discrete,
}
use queue_as_a_service.Log.{Result, ok, failed}
use queue_as_a_service.Types.{MessageId, Text, IdempotencyKey}
use queue_as_a_service.ConsumerGroup.State.{Group}
use queue_as_a_service.Admission
use queue_as_a_service.Admission.{
  UsageEntry, AdmissionController, AdmissionDecision, admitted, new_controller, unlimited,
}
use queue_as_a_service.Semantic.{Embedding, EmbeddingIndex, insert_embedding}
use queue_as_a_service.Auth.{TenantId, Text-discrete}
use queue_as_a_service.Server.State.{
  Setting, Server, on_registry, log_event, tenant_label, AuditEvent,
}
use queue_as_a_service.Server.Producing.{
  EnqueueParams, EnqueueReadings, EnqueueResult, enqueue_impl, enqueue_new, at_pending_limit,
  budget_left, deny,
}
use queue_as_a_service.Server.Credentials.{on_keys}
use queue_as_a_service.Server.Answers.{
  ErrorData, invalid_params, Answer, done, refused, Call, pure, refuse, gets, step, step_io, modify,
  or_refuse, refuse_if, ◌>>=◌, ◌>>◌, answered,
}
use queue_as_a_service.Server.Registry.{
  Registry, Opening, scope_key, tenant_key, is_queue_name, validate_queue_name, find_quota,
  find_admission, find_dedup, find_routes, find_group, open_new, at_queue_limit, set_dedup,
}
use queue_as_a_service.Server.Frames.{On, IsScoped, Holds-guarded, find_admission-valid}
use queue_as_a_service.Server.Frames.Tools.{with_group}
use queue_as_a_service.Server.Frames.Enqueue.{
  check-Holds, resolve_target_queue-Holds, find_duplicate-Holds, refusal-Holds, index-Holds,
}
use queue_as_a_service.Server.Keeping.{Keeps, IsPreorder, Keeps-IsLogic}

-- What a budget has admitted; a budget that is not there yet has admitted nothing.
abbrev entries_of : {F : Type 0} → Option (AdmissionController F) → List (UsageEntry F)
entries_of none = []
entries_of (some c) = c.entries

-- Nothing is admitted by any budget, and nothing admitted is forgotten.
abbrev pub IsUnspent : {F G V : Type 0} → Registry F G V → Registry F G V → Type 0
IsUnspent r r' =
    (key : Text)
    → entries_of (get Text-discrete key r'.admission)
      ≡ entries_of (get Text-discrete key r.admission)

same_entries :
    {F : Type 0} {m m' : Map Text (AdmissionController F)}
    → m' ≡ m
    → (key : Text) → entries_of (get Text-discrete key m') ≡ entries_of (get Text-discrete key m)
same_entries e key = ap (λ x. entries_of (get Text-discrete key x)) e

insert_new :
    {F : Type 0} (k key : Text) (m : Map Text (AdmissionController F))
    → get Text-discrete k m ≡ none
    → entries_of (get Text-discrete key (insert Text-discrete k (new_controller unlimited) m))
      ≡ entries_of (get Text-discrete key m)
unfolding new_controller
insert_new k key m h =
    ap entries_of (get-insert Text-discrete k key _ m) ∙ same (Text-discrete k key)
  where
    same :
        (d : Dec (k ≡ key))
        → entries_of (ite d (some (new_controller unlimited)) (get Text-discrete key m))
          ≡ entries_of (get Text-discrete key m)
    same (yes e) = sym (ap entries_of (ap (λ j. get Text-discrete j m) (sym e) ∙ h))
    same (no _) = refl

module _ {F G V : Type 0} where
  find_quota-admission :
      (tenant : TenantId) (r : Registry F G V) → (find_quota tenant r).0.admission ≡ r.admission
  unfolding find_quota
  find_quota-admission tenant r =
      elim (Option-cases (get Text-discrete tenant.text r.tenant_quotas)) [
        | inl e ↦ rw (e, find_quota) refl
        | inr (q, e) ↦ rw (e, find_quota) refl
      ]

  find_routes-admission :
      (t : Option TenantId) (r : Registry F G V) → (find_routes t r).0.admission ≡ r.admission
  unfolding find_routes
  find_routes-admission t r = elim (Option-cases (get Text-discrete (tenant_key t) r.routes)) [
    | inl e ↦ rw (e, find_routes) refl
    | inr (q, e) ↦ rw (e, find_routes) refl
  ]

  at_queue-admission :
      (t : Option TenantId) (r : Registry F G V) → (at_queue_limit t r).0.admission ≡ r.admission
  unfolding at_queue_limit
  at_queue-admission none r = refl
  at_queue-admission (some tenant) r = find_quota-admission tenant r

  at_pending-admission :
      (t : Option TenantId) (r : Registry F G V) → (at_pending_limit t r).0.admission ≡ r.admission
  unfolding at_pending_limit
  at_pending-admission none r = refl
  at_pending-admission (some tenant) r = find_quota-admission tenant r

  IsUnspent-IsPreorder : IsPreorder {S = Registry F G V} IsUnspent
  IsUnspent-IsPreorder = record {
    reflexive = λ r key. refl;
    transitive = λ r r' r'' h k key. k key ∙ h key;
  }

module _ (F G V : Type 0) where
  find_admission-Keeps :
      (t : Option TenantId) (queue : Text)
      → Keeps {S = Registry F G V} IsUnspent _ (find_admission t queue)
  unfolding find_admission validate_queue_name Keeps step
  find_admission-Keeps t queue =
      Holds-guarded (Keeps-IsLogic IsUnspent-IsPreorder) (is_queue_name queue) _ _ (λ valid r.
        elim (Option-cases (get Text-discrete (scope_key t queue) r.admission)) [
          | inl e ↦ rw (e, step) (λ key. insert_new (scope_key t queue) key r.admission e)
          | inr (c, e) ↦ rw (e, step) (λ key. refl)
        ])

  find_dedup-Keeps :
      (t : Option TenantId) (queue : Text)
      → Keeps {S = Registry F G V} IsUnspent _ (find_dedup t queue)
  unfolding find_dedup validate_queue_name Keeps step
  find_dedup-Keeps t queue =
      Holds-guarded (Keeps-IsLogic IsUnspent-IsPreorder) (is_queue_name queue) _ _ (λ valid r.
        elim (Option-cases (get Text-discrete (scope_key t queue) r.dedup)) [
          | inl e ↦ rw (e, step) (λ key. refl)
          | inr (c, e) ↦ rw (e, step) (λ key. refl)
        ])

module _ {F G V : Type 0} (setting : Setting F G) (t : Option TenantId) where
  pub IsUnspent-IsScoped : IsScoped {V = V} setting t (Keeps IsUnspent) (Keeps (On IsUnspent))
  unfolding Keeps on_registry log_event modify on_keys gets step
  IsUnspent-IsScoped = record {
    order = Keeps-IsLogic IsUnspent-IsPreorder;
    above =
        Keeps-IsLogic {R = On IsUnspent}
          (record { reflexive = λ s key. refl; transitive = λ s s' s'' h k key. k key ∙ h key });
    lift = λ A m h s. h s.registry;
    logs = λ at event s key. refl;
    keys = λ A m _ s key. refl;
    group_look = λ queue valid r key. refl;
    group_set = λ A queue g a valid r key. refl;
    admission_find = find_admission-Keeps F G V t;
    dedup_find = find_dedup-Keeps F G V t;
    dedup_set = λ A queue x a valid r key. refl;
    routes_step = λ A f r. same_entries (find_routes-admission t r);
    quota_step = λ A tenant f own r. same_entries (find_quota-admission tenant r);
    queue_limit = λ r. same_entries (at_queue-admission t r);
    pending_limit = λ r. same_entries (at_pending-admission t r);
  }

-- ===== src/Server/Frames/Enqueue.antt =====
-- `enqueue` of crates/qaas-server/src/mcp.rs and the check of the caller's requests, for what holds of the steps that they
-- are made of.
use queue_as_a_service.Base.{
  ℕ, ◌≡◌, refl, Bool, true, false, Option, none, some, ℕ_discrete, inr, if◌then◌else◌,
}
use queue_as_a_service.Types.{MessageId, Text, IdempotencyKey}
use queue_as_a_service.Quota.{QuotaDecision, try_acquire, allowed, denied}
use queue_as_a_service.Admission
use queue_as_a_service.Admission.{AdmissionDecision, admitted}
use queue_as_a_service.Semantic.{Embedding, nearest, insert_embedding}
use queue_as_a_service.Auth.{TenantId}
use queue_as_a_service.Server.Answers.{
  Call, pure, refuse, throttled, invalid_request, step, step_io, ◌>>=◌,
}
use queue_as_a_service.Server.Registry.{Registry, is_queue_name, find_dedup, set_dedup, scope_key}
use queue_as_a_service.Server.State.{Setting, Server, on_registry, authorize}
use queue_as_a_service.Server.Producing.{
  EnqueueParams, EnqueueReadings, resolve_target_queue, find_duplicate, deny, budget_left, check,
  enqueue_new, enqueue_impl,
}
use queue_as_a_service.Server.Frames.{
  IsLogic, IsScoped, SetsAdmission, Holds-bind, Holds-then, Holds-seq, Holds-pure, Holds-refuse,
  Holds-or_refuse, Holds-cases, find_admission-valid, find_dedup-valid,
}
use queue_as_a_service.Server.Frames.Tools.{with_group}

module _ {F G V : Type 0} (setting : Setting F G) (t : Option TenantId)
    {P : (A : Type 0) → Call (Registry F G V) A → Type 0}
    {Q : (A : Type 0) → Call (Server F G V) A → Type 0} (scoped : IsScoped setting t P Q) where
  pub check-Holds : {A B : Type 0} (f : A → Option B) (o : Option A) → Q _ (check setting f o)
  unfolding check
  check-Holds f none = Holds-pure scoped.above none
  check-Holds f (some a) =
      Holds-then scoped.above _ _ (Holds-or_refuse scoped.above _ _)
        (λ b. Holds-pure scoped.above _)

  deny-Holds :
      {A : Type 0} (at : ℕ) (queue : Text) (m : Call (Server F G V) A)
      → Q _ m
      → Q _ (deny setting at t queue m)
  unfolding deny
  deny-Holds at queue m h = Holds-seq scoped.above _ _ (scoped.logs at _) h

  pub resolve_target_queue-Holds :
      (now : ℕ) (queue : Option Text) (e : Option (Embedding G))
      → Q _ (resolve_target_queue setting now t queue e)
  unfolding resolve_target_queue
  resolve_target_queue-Holds now (some queue) e = Holds-pure scoped.above queue
  resolve_target_queue-Holds now none none = Holds-refuse scoped.above _ _
  resolve_target_queue-Holds now none (some e) =
      Holds-then scoped.above _ _
        (scoped.lift _ _ (scoped.routes_step _ (nearest setting.float32 now e)))
        (λ best. Holds-or_refuse scoped.above _ _)

  pub find_duplicate-Holds :
      (now : ℕ) (queue : Text) (e : Option (Embedding G))
      → Q _ (find_duplicate setting now t queue e)
  unfolding find_duplicate step
  find_duplicate-Holds now queue none = Holds-pure scoped.above none
  find_duplicate-Holds now queue (some e) = scoped.lift _ _ (
      Holds-bind scoped.order _ _ (scoped.dedup_find queue) (λ r x found.
        let valid = find_dedup-valid t queue r x found in
        Holds-then scoped.order _ _ (scoped.dedup_set _ queue _ _ valid)
          (λ best. Holds-pure scoped.order _)))

  budget_left-Holds :
      (at : ℕ) (queue : Text) (decision : AdmissionDecision F)
      → Q _ (budget_left setting at t queue decision)
  unfolding budget_left
  budget_left-Holds at queue (admitted tokens cost_left) = Holds-pure scoped.above _
  budget_left-Holds at queue (Admission.denied retry_after) =
      deny-Holds at queue _ (Holds-refuse scoped.above _ _)

  pub refusal-Holds :
      (at : ℕ) (queue : Text) (full : Bool)
      → Q _ (if full then deny setting at t queue (refuse invalid_request) else pure tt)
  refusal-Holds at queue true = deny-Holds at queue _ (Holds-refuse scoped.above _ _)
  refusal-Holds at queue false = Holds-pure scoped.above tt

  -- The embedding of the new message is remembered.
  remember-Holds :
      (now : ℕ) (queue : Text) (id : MessageId) (embedding : Option (Embedding G))
      → is_queue_name queue ≡ true
      → Q _ (elim embedding [
        | none ↦ pure tt
        | some e ↦ on_registry (do
          index ← find_dedup t queue
          step (λ r.
              (set_dedup (scope_key t queue) (insert_embedding ℕ_discrete now id e index) r, tt)))
      ])
  unfolding step
  remember-Holds now queue id none valid = Holds-pure scoped.above tt
  remember-Holds now queue id (some e) valid = scoped.lift _ _ (
      Holds-then scoped.order _ _ (scoped.dedup_find queue)
        (λ index. scoped.dedup_set _ queue _ _ valid))

  enqueue_new-Holds :
      (readings : EnqueueReadings V) (params : EnqueueParams F G V) (queue : Text)
      (embedding : Option (Embedding G)) (key : Option IdempotencyKey)
      → SetsAdmission t P
      → Q _ (enqueue_new setting readings t params queue embedding key)
  unfolding enqueue_new on_registry step step_io
  enqueue_new-Holds readings params queue embedding key admission_set =
      Holds-then scoped.above _ _ (scoped.lift _ _ (scoped.pending_limit)) (λ full.
        Holds-seq scoped.above _ _ (refusal-Holds readings.log_at queue full) (
          Holds-bind scoped.above _ _ (scoped.lift _ _ (scoped.admission_find queue)) (λ s c e.
            let valid = find_admission-valid t queue s.registry c e in
            Holds-then scoped.above _ _ (scoped.lift _ _ (admission_set _ queue _ _ valid))
              (λ decision.
                Holds-then scoped.above _ _ (budget_left-Holds _ queue decision) (λ remaining.
                  with_group setting t scoped _ queue _ (λ _ g.
                    Holds-then scoped.above _ _
                      (scoped.lift _ _ (scoped.group_set _ queue _ _ valid))
                      (λ id.
                        Holds-seq scoped.above _ _ (remember-Holds _ queue id embedding valid) (
                          Holds-seq scoped.above _ _ (scoped.logs _ _)
                            (Holds-pure scoped.above _)))))))))

  pub index-Holds :
      (queue : Text) (embedding : Option (Embedding G))
      → Q _ (elim embedding [
        | none ↦ pure tt
        | some _ ↦ do index ← on_registry (find_dedup t queue); pure tt
      ])
  index-Holds queue none = Holds-pure scoped.above tt
  index-Holds queue (some _) =
      Holds-then scoped.above _ _ (scoped.lift _ _ (scoped.dedup_find queue))
        (λ _. Holds-pure scoped.above tt)

  pub enqueue_impl-Holds :
      (readings : EnqueueReadings V) (params : EnqueueParams F G V)
      → SetsAdmission t P
      → Q _ (enqueue_impl setting readings t params)
  unfolding enqueue_impl
  enqueue_impl-Holds readings params admission_set =
      Holds-then scoped.above _ _ (check-Holds _ _) (λ embedding.
        Holds-then scoped.above _ _ (resolve_target_queue-Holds _ _ embedding) (λ queue.
          with_group setting t scoped _ queue _ (λ valid g.
            Holds-then scoped.above _ _ (scoped.lift _ _ (scoped.admission_find queue)) (λ c.
              Holds-seq scoped.above _ _ (index-Holds queue embedding) (
                Holds-then scoped.above _ _ (check-Holds _ _) (λ key.
                  Holds-then scoped.above _ _ (find_duplicate-Holds _ queue embedding) (λ twin.
                    Holds-cases scoped.above twin _ _
                      (enqueue_new-Holds readings params queue embedding key admission_set)
                      (λ found.
                        Holds-seq scoped.above _ _ (scoped.logs _ _)
                          (Holds-pure scoped.above _)))))))))

decided-Holds :
    {F G V : Type 0} {Q : (A : Type 0) → Call (Server F G V) A → Type 0} (tenant : TenantId)
    (decision : QuotaDecision)
    → IsLogic Q
    → Q _ (elim decision as (λ _. Call (Server F G V) (Option TenantId)) [
      | allowed _ ↦ pure (some tenant)
      | denied retry_after ↦ refuse (throttled retry_after)
    ])
decided-Holds tenant (allowed _) above = Holds-pure above _
decided-Holds tenant (denied _) above = Holds-refuse above _ _

module _ {F G V : Type 0} (setting : Setting F G)
    {P : (A : Type 0) → Call (Registry F G V) A → Type 0}
    {Q : (A : Type 0) → Call (Server F G V) A → Type 0} where
  pub authorize-Holds :
      (now : ℕ) (t : Option TenantId) → IsScoped setting t P Q → Q _ (authorize now t)
  unfolding authorize
  authorize-Holds now none scoped = Holds-pure scoped.above none
  authorize-Holds now (some tenant) scoped =
      Holds-then scoped.above _ _
        (scoped.lift _ _ (scoped.quota_step _ tenant (λ q _ _. try_acquire now q) (inr refl)))
        (λ decision. decided-Holds tenant decision scoped.above)

-- ===== src/Server/Frames.antt =====
-- The tools of crates/qaas-server/src/mcp.rs, whatever is to be shown of a call: where it holds of the steps on what
-- belongs to the caller, it holds of every tool.
pub mod Tools
pub mod Enqueue
pub mod Settings
pub mod Requests
use queue_as_a_service.Base.{
  ℕ, ◌≡◌, ◌≢◌, refl, sym, arith, Bool, true, false, Option, none, some, ◌⊎◌, inl, inr, Bool-cases,
  Option-cases, get, if◌then◌else◌,
}
use queue_as_a_service.Log.{Result, ok, failed}
use queue_as_a_service.Types.{MessageId, Text}
use queue_as_a_service.Retry.{RetryPolicy}
use queue_as_a_service.ConsumerGroup.State.{Group}
use queue_as_a_service.ConsumerGroup.Recovery.{open_group}
use queue_as_a_service.Quota.{TenantQuota}
use queue_as_a_service.Admission.{AdmissionController}
use queue_as_a_service.Semantic.{EmbeddingIndex}
use queue_as_a_service.Auth.{TenantId, Text-discrete, ApiKeyStore}
use queue_as_a_service.Server.State.{Setting, Server, AuditEvent, on_registry, log_event}
use queue_as_a_service.Server.Producing.{at_pending_limit}
use queue_as_a_service.Server.Credentials.{on_keys}
use queue_as_a_service.Server.Answers.{
  ErrorData, Answer, done, refused, Call, pure, refuse, gets, step, step_io, when, or_refuse,
  refuse_if, modify, ◌>>=◌, ◌>>◌, answered,
}
use queue_as_a_service.Server.Registry.{
  Registry, Opening, scope_key, tenant_key, is_queue_name, validate_queue_name, find_quota,
  find_admission, find_dedup, find_routes, at_queue_limit, open_new, find_group, set_group,
  set_admission, set_dedup, set_routes, set_quota, tenant_queue_count, tenant_pending_total,
}

-- What holds of a call, shown step by step: rules for what the tools are made of.
pub record IsLogic {S : Type 0} (P : (A : Type 0) → Call S A → Type 0) : Type 1 where
  pub bind_rule :
      (A B : Type 0) (m : Call S A) (f : A → Call S B)
      → P A m
      → ((s : S) (a : A) → (m s).1 ≡ done a → P B (f a))
      → P B (m >>= f)
  pub pure_rule : (A : Type 0) (a : A) → P A (pure a)
  pub refuse_rule : (A : Type 0) (e : ErrorData) → P A (refuse e)

refused_not-done : {S A : Type 0} (e : ErrorData) (s : S) (a : A) → (refuse {S = S} e s).1 ≢ done a
unfolding refuse
refused_not-done e s a h = absurd (ground (arith, h))

module _ {S : Type 0} {P : (A : Type 0) → Call S A → Type 0} (p : IsLogic P) where
  -- What follows may use how the first part was answered.
  pub Holds-bind :
      {A B : Type 0} (m : Call S A) (f : A → Call S B)
      → P _ m
      → ((s : S) (a : A) → (m s).1 ≡ done a → P _ (f a))
      → P _ (m >>= f)
  Holds-bind m f h k = p.bind_rule _ _ m f h k

  pub Holds-then :
      {A B : Type 0} (m : Call S A) (f : A → Call S B)
      → P _ m
      → ((a : A) → P _ (f a))
      → P _ (m >>= f)
  Holds-then m f h k = Holds-bind m f h (λ _ a _. k a)

  pub Holds-seq : {A B : Type 0} (m : Call S A) (m' : Call S B) → P _ m → P _ m' → P _ (m >> m')
  unfolding ◌>>◌
  Holds-seq m m' h h' = Holds-then m (λ _. m') h (λ _. h')

  pub Holds-pure : {A : Type 0} (a : A) → P _ (pure a)
  Holds-pure a = p.pure_rule _ a

  pub Holds-refuse : (A : Type 0) (e : ErrorData) → P _ (refuse {A = A} e)
  Holds-refuse A e = p.refuse_rule A e

  -- Behind a test, what follows may use that it succeeded.
  pub Holds-guarded :
      {A : Type 0} (b : Bool) (e : ErrorData) (m : Call S A)
      → (b ≡ true → P _ m)
      → P _ ((if b then pure tt else refuse e) >> m)
  unfolding ◌>>◌
  Holds-guarded true e m h = Holds-seq (pure tt) m (Holds-pure tt) (h refl)
  Holds-guarded false e m h =
      Holds-bind (refuse e) (λ _. m) (Holds-refuse _ e)
        (λ s a said. absurd (refused_not-done e s a said))

  pub Holds-or_refuse : {A : Type 0} (o : Option A) (e : ErrorData) → P _ (or_refuse o e)
  unfolding or_refuse
  Holds-or_refuse none e = Holds-refuse _ e
  Holds-or_refuse (some a) e = Holds-pure a

  pub Holds-refuse_if : (b : Bool) (e : ErrorData) → P _ (refuse_if b e)
  unfolding refuse_if
  Holds-refuse_if true e = Holds-refuse _ e
  Holds-refuse_if false e = Holds-pure tt

  pub Holds-when : {A : Type 0} (b : Bool) (a : A) (m : Call S A) → P _ m → P _ (when b a m)
  unfolding when
  Holds-when true a m h = h
  Holds-when false a m h = Holds-pure a

  pub Holds-cases :
      {A B : Type 0} (o : Option A) (m : Call S B) (f : A → Call S B)
      → P _ m
      → ((a : A) → P _ (f a))
      → P _ (elim o [ none ↦ m | some a ↦ f a ])
  Holds-cases none m f h k = h
  Holds-cases (some a) m f h k = k a

guarded-done :
    {S A : Type 0} (b : Bool) (e : ErrorData) (m : Call S A) (s : S) (a : A)
    → (((if b then pure tt else refuse e) >> m) s).1 ≡ done a
    → b ≡ true
unfolding ◌>>=◌ ◌>>◌ answered pure refuse
guarded-done true e m s a h = refl
guarded-done false e m s a h = absurd (ground (arith, h))

-- The relation between the registries of two servers.
abbrev pub On :
    {F G V : Type 0}
    → (Registry F G V → Registry F G V → Type 0)
    → Server F G V
    → Server F G V
    → Type 0
On R s s' = R s.registry s'.registry

-- What the tools do with the registry and the server, for one caller. The local connection may also set the quota of
-- any tenant and work on the API keys.
pub record IsScoped {F G V : Type 0} (setting : Setting F G) (t : Option TenantId)
    (P : (A : Type 0) → Call (Registry F G V) A → Type 0)
    (Q : (A : Type 0) → Call (Server F G V) A → Type 0) : Type 1 where
  pub order : IsLogic P
  pub above : IsLogic Q
  pub lift : (A : Type 0) (m : Call (Registry F G V) A) → P A m → Q A (on_registry m)
  pub logs : (at : ℕ) (event : AuditEvent) → Q (Unit {0}) (log_event at event)
  pub keys : (A : Type 0) (m : Call ApiKeyStore A) → t ≡ none → Q A (on_keys setting m)
  pub group_look :
      (queue : Text)
      → is_queue_name queue ≡ true
      → P (Option (Group F V V)) (gets (λ r. get Text-discrete (scope_key t queue) r.groups))
  pub group_set :
      (A : Type 0) (queue : Text) (g : Group F V V) (a : Answer A)
      → is_queue_name queue ≡ true
      → P A (λ r. (set_group (scope_key t queue) g r, a))
  pub admission_find : (queue : Text) → P (AdmissionController F) (find_admission t queue)
  pub dedup_find : (queue : Text) → P (EmbeddingIndex MessageId G) (find_dedup t queue)
  pub dedup_set :
      (A : Type 0) (queue : Text) (x : EmbeddingIndex MessageId G) (a : Answer A)
      → is_queue_name queue ≡ true
      → P A (λ r. (set_dedup (scope_key t queue) x r, a))
  pub routes_step :
      (A : Type 0) (f : EmbeddingIndex Text G → EmbeddingIndex Text G × A)
      → P A (
          step (λ r.
            let (r', x) = find_routes t r in
            let (x', a) = f x in (set_routes (tenant_key t) x' r', a)))
  -- What is done to a quota may depend on how many queues and messages the tenant has.
  pub quota_step :
      (A : Type 0) (tenant : TenantId) (f : TenantQuota → ℕ → ℕ → TenantQuota × A)
      → (t ≡ none) ⊎ (t ≡ some tenant)
      → P A (
          step (λ r.
            let (r', q) = find_quota tenant r in
            let (q', a) = f q (tenant_queue_count tenant r') (tenant_pending_total tenant r') in
            (set_quota tenant q' r', a)))
  pub queue_limit : P Bool (step (at_queue_limit t))
  pub pending_limit : P Bool (step (at_pending_limit t))

-- Some tools also set the budget of a queue of the caller.
abbrev pub SetsAdmission :
    {F G V : Type 0} → Option TenantId → ((A : Type 0) → Call (Registry F G V) A → Type 0) → Type 1
SetsAdmission {F} t P =
    (A : Type 0) (queue : Text) (c : AdmissionController F) (a : Answer A)
    → is_queue_name queue ≡ true
    → P A (λ r. (set_admission (scope_key t queue) c r, a))

module _ {F G V : Type 0} {setting : Setting F G} {t : Option TenantId}
    {P : (A : Type 0) → Call (Registry F G V) A → Type 0}
    {Q : (A : Type 0) → Call (Server F G V) A → Type 0} (scoped : IsScoped setting t P Q) where
  open scoped use {order}

  Holds-open_new :
      (policy : RetryPolicy F) (opening : Opening V) (queue : Text)
      → is_queue_name queue ≡ true
      → P _ (open_new policy opening t queue)
  unfolding open_new modify
  Holds-open_new policy opening queue valid = Holds-then order _ _ scoped.queue_limit (λ full.
      Holds-seq order _ _ (Holds-refuse_if order full _) (
        Holds-then order _ _ (Holds-or_refuse order opening _) (λ logs.
          Holds-seq order _ _ (scoped.group_set _ queue _ (done tt) valid) (Holds-pure order _))))

  Holds-open_or_found :
      (policy : RetryPolicy F) (opening : Opening V) (queue : Text) (found : Option (Group F V V))
      → P _ (open_new policy opening t queue)
      → P _ (elim found [ some g ↦ pure g | none ↦ open_new policy opening t queue ])
  Holds-open_or_found policy opening queue none h = h
  Holds-open_or_found policy opening queue (some g) h = Holds-pure order g

  pub Holds-find_group :
      (policy : RetryPolicy F) (opening : Opening V) (queue : Text)
      → P _ (find_group policy opening t queue)
  unfolding find_group validate_queue_name
  Holds-find_group policy opening queue = Holds-guarded order (is_queue_name queue) _ _ (λ valid.
      Holds-then order _ _ (scoped.group_look queue valid) (λ found.
        Holds-open_or_found policy opening queue found (Holds-open_new policy opening queue valid)))

-- A look-up that succeeds has validated the name.
module _ {F G V : Type 0} where
  pub find_group-valid :
      (policy : RetryPolicy F) (opening : Opening V) (t : Option TenantId) (queue : Text)
      (r : Registry F G V) (g : Group F V V)
      → (find_group policy opening t queue r).1 ≡ done g
      → is_queue_name queue ≡ true
  unfolding find_group validate_queue_name
  find_group-valid policy opening t queue r g h = guarded-done (is_queue_name queue) _ _ r g h

  pub find_admission-valid :
      (t : Option TenantId) (queue : Text) (r : Registry F G V) (c : AdmissionController F)
      → (find_admission t queue r).1 ≡ done c
      → is_queue_name queue ≡ true
  unfolding find_admission validate_queue_name
  find_admission-valid t queue r c h = guarded-done (is_queue_name queue) _ _ r c h

  pub find_dedup-valid :
      (t : Option TenantId) (queue : Text) (r : Registry F G V) (x : EmbeddingIndex MessageId G)
      → (find_dedup t queue r).1 ≡ done x
      → is_queue_name queue ≡ true
  unfolding find_dedup validate_queue_name
  find_dedup-valid t queue r x h = guarded-done (is_queue_name queue) _ _ r x h

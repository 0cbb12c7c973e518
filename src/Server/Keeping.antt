-- ===== src/Server/Keeping.antt =====
-- Relations between the registry of crates/qaas-server/src/mcp.rs before and after a call, which hold across each call
-- where they hold across the writes under the keys of the caller.
use queue_as_a_service.Base.{
  ℕ, ◌≡◌, refl, true, Option, none, some, ◌⊎◌, inl, inr, Option-cases, get,
}
use queue_as_a_service.Types.{MessageId, Text}
use queue_as_a_service.ConsumerGroup.State.{Group}
use queue_as_a_service.Quota.{TenantQuota}
use queue_as_a_service.Admission.{AdmissionController}
use queue_as_a_service.Semantic.{EmbeddingIndex}
use queue_as_a_service.Auth.{TenantId, Text-discrete}
use queue_as_a_service.Server.State.{Setting, on_registry, log_event}
use queue_as_a_service.Server.Producing.{at_pending_limit}
use queue_as_a_service.Server.Credentials.{on_keys}
use queue_as_a_service.Server.Answers.{
  Answer, done, refused, Call, pure, refuse, gets, step, modify, ◌>>=◌, answered,
}
use queue_as_a_service.Server.Registry.{
  Registry, scope_key, tenant_key, is_queue_name, validate_queue_name, find_quota, find_admission,
  find_dedup, find_routes, at_queue_limit, set_group, set_admission, set_dedup, set_routes,
  set_quota,
}
use queue_as_a_service.Server.Frames.{On, IsLogic, IsScoped, SetsAdmission, Holds-guarded}
use queue_as_a_service.Server.Frames.Requests.{serve-Holds}
use queue_as_a_service.Server.Requests.{Request, serve}

-- The state after a call stands in the relation to the state before it, whatever the answer.
unfoldable pub Keeps : {S : Type 0} → (S → S → Type 0) → (A : Type 0) → Call S A → Type 0
Keeps {S} R A m = (s : S) → R s (m s).0

pub record IsPreorder {S : Type 0} (R : S → S → Type 0) : Type 0 where
  pub reflexive : (s : S) → R s s
  pub transitive : (a b c : S) → R a b → R b c → R a c

module _ {S : Type 0} {R : S → S → Type 0} (p : IsPreorder R) where
  answered-Keeps :
      {A B : Type 0} (s s' : S) (answer : Answer A) (f : A → Call S B)
      → R s s'
      → ((a : A) → answer ≡ done a → Keeps R B (f a))
      → R s (answered f s' answer).0
  unfolding Keeps answered
  answered-Keeps s s' (done a) f h k = p.transitive s s' _ h (k a refl s')
  answered-Keeps s s' (refused e) f h k = h

  pub Keeps-IsLogic : IsLogic (Keeps R)
  unfolding Keeps ◌>>=◌ pure refuse
  Keeps-IsLogic = record {
    bind_rule = λ A B m f h k s. answered-Keeps s (m s).0 (m s).1 f (h s) (k s);
    pure_rule = λ A a s. p.reflexive s;
    refuse_rule = λ A e s. p.reflexive s;
  }

-- A relation on registries that the writes of the caller `t` keep. The local connection may also set the
-- quota of any tenant.
pub record IsLocal {F G V : Type 0} (R : Registry F G V → Registry F G V → Type 0)
    (t : Option TenantId) : Type 0 where
  pub order : IsPreorder R
  pub group_set :
      (queue : Text) (g : Group F V V) (r : Registry F G V)
      → is_queue_name queue ≡ true
      → R r (set_group (scope_key t queue) g r)
  pub admission_set :
      (queue : Text) (c : AdmissionController F) (r : Registry F G V)
      → is_queue_name queue ≡ true
      → R r (set_admission (scope_key t queue) c r)
  pub dedup_set :
      (queue : Text) (x : EmbeddingIndex MessageId G) (r : Registry F G V)
      → is_queue_name queue ≡ true
      → R r (set_dedup (scope_key t queue) x r)
  pub routes_set :
      (x : EmbeddingIndex Text G) (r : Registry F G V) → R r (set_routes (tenant_key t) x r)
  pub quota_set :
      (tenant : TenantId) (q : TenantQuota) (r : Registry F G V)
      → (t ≡ none) ⊎ (t ≡ some tenant)
      → R r (set_quota tenant q r)

module _ {F G V : Type 0} {R : Registry F G V → Registry F G V → Type 0} {t : Option TenantId}
    (local : IsLocal R t) where
  open local use {order}

  logic : IsLogic (Keeps R)
  logic = Keeps-IsLogic order

  Keeps-find_quota :
      (tenant : TenantId) (r : Registry F G V)
      → (t ≡ none) ⊎ (t ≡ some tenant)
      → R r (find_quota tenant r).0
  unfolding find_quota
  Keeps-find_quota tenant r h =
      elim (Option-cases (get Text-discrete tenant.text r.tenant_quotas)) [
        | inl e ↦ rw (e, find_quota) (local.quota_set tenant _ r h)
        | inr (q, e) ↦ rw (e, find_quota) (order.reflexive r)
      ]

  Keeps-find_routes : (r : Registry F G V) → R r (find_routes t r).0
  unfolding find_routes
  Keeps-find_routes r = elim (Option-cases (get Text-discrete (tenant_key t) r.routes)) [
    | inl e ↦ rw (e, find_routes) (local.routes_set _ r)
    | inr (q, e) ↦ rw (e, find_routes) (order.reflexive r)
  ]

  Keeps-find_admission : (queue : Text) → Keeps R _ (find_admission t queue)
  unfolding find_admission validate_queue_name Keeps step
  Keeps-find_admission queue = Holds-guarded logic (is_queue_name queue) _ _ (λ valid r.
      elim (Option-cases (get Text-discrete (scope_key t queue) r.admission)) [
        | inl e ↦ rw (e, step) (local.admission_set queue _ r valid)
        | inr (c, e) ↦ rw (e, step) (order.reflexive r)
      ])

  Keeps-find_dedup : (queue : Text) → Keeps R _ (find_dedup t queue)
  unfolding find_dedup validate_queue_name Keeps step
  Keeps-find_dedup queue = Holds-guarded logic (is_queue_name queue) _ _ (λ valid r.
      elim (Option-cases (get Text-discrete (scope_key t queue) r.dedup)) [
        | inl e ↦ rw (e, step) (local.dedup_set queue _ r valid)
        | inr (c, e) ↦ rw (e, step) (order.reflexive r)
      ])

at_queue :
    {F G V : Type 0} {R : Registry F G V → Registry F G V → Type 0} (t : Option TenantId)
    → IsLocal R t
    → (r : Registry F G V) → R r (at_queue_limit t r).0
unfolding at_queue_limit
at_queue none local r = local.order.reflexive r
at_queue (some tenant) local r = Keeps-find_quota local tenant r (inr refl)

at_pending :
    {F G V : Type 0} {R : Registry F G V → Registry F G V → Type 0} (t : Option TenantId)
    → IsLocal R t
    → (r : Registry F G V) → R r (at_pending_limit t r).0
unfolding at_pending_limit
at_pending none local r = local.order.reflexive r
at_pending (some tenant) local r = Keeps-find_quota local tenant r (inr refl)

module _ {F G V : Type 0} (setting : Setting F G)
    (R : Registry F G V → Registry F G V → Type 0) where
  Keeps-IsScoped : (t : Option TenantId) → IsLocal R t → IsScoped setting t (Keeps R) (Keeps (On R))
  unfolding Keeps on_registry log_event modify on_keys gets step
  Keeps-IsScoped t local =
      let p = local.order in
      record {
        order = Keeps-IsLogic p;
        above = Keeps-IsLogic (record {
          reflexive = λ s. p.reflexive s.registry;
          transitive = λ a b c. p.transitive a.registry b.registry c.registry;
        });
        lift = λ A m h s. h s.registry;
        logs = λ at event s. p.reflexive s.registry;
        keys = λ A m _ s. p.reflexive s.registry;
        group_look = λ queue valid r. p.reflexive r;
        group_set = λ A queue g a valid r. local.group_set queue g r valid;
        admission_find = Keeps-find_admission local;
        dedup_find = Keeps-find_dedup local;
        dedup_set = λ A queue x a valid r. local.dedup_set queue x r valid;
        routes_step =
            λ A f r. p.transitive r _ _ (Keeps-find_routes local r) (local.routes_set _ _);
        quota_step = λ A tenant f own r.
            p.transitive r _ _ (Keeps-find_quota local tenant r own)
              (local.quota_set tenant _ _ own);
        queue_limit = at_queue t local;
        pending_limit = at_pending t local;
      }

  Keeps-SetsAdmission : (t : Option TenantId) → IsLocal R t → SetsAdmission t (Keeps R)
  unfolding Keeps
  Keeps-SetsAdmission t local A queue c a valid r = local.admission_set queue c r valid

  -- Every call keeps what the writes under the keys of its caller keep.
  pub serve-Keeps :
      (t : Option TenantId)
      → IsLocal R t
      → (now : ℕ) (request : Request F G V) → Keeps (On R) _ (serve setting now t request)
  serve-Keeps t local now request =
      serve-Holds setting t (Keeps-IsScoped t local) (Keeps-SetsAdmission t local) now request

-- ===== src/Server/Views/Agreement.antt =====
-- Two states of the registry in crates/qaas-server/src/mcp.rs that one tenant cannot tell apart, and calls that
-- answer it alike in both.
use mathlib.Core.Path.{subst}
use queue_as_a_service.Base.{
  ◌≡◌, refl, sym, ap, ◌∙◌, true, some, Option-cases, inl, inr, Map, get, insert, get-insert, ite,
}
use queue_as_a_service.Types.{MessageId, Text}
use queue_as_a_service.ConsumerGroup.State.{Group}
use queue_as_a_service.Quota.{TenantQuota}
use queue_as_a_service.Admission.{AdmissionController}
use queue_as_a_service.Semantic.{EmbeddingIndex}
use queue_as_a_service.Auth.{TenantId, Text-discrete}
use queue_as_a_service.Server.Answers.{Answer, done, refused, Call, pure, refuse, ◌>>=◌, answered}
use queue_as_a_service.Server.Registry.{
  Registry, scope_key, tenant_key, is_queue_name, find_quota, find_routes, set_group, set_admission,
  set_dedup, set_routes, set_quota,
}
use queue_as_a_service.Server.Frames.{IsLogic}
use queue_as_a_service.Server.Views.{own_groups, own_prefix, own_groups-insert}

-- From two states that agree, the answers are the same, and the states after agree.
unfoldable pub Respects : {S : Type 0} → (S → S → Type 0) → (A : Type 0) → Call S A → Type 0
Respects {S} R A m = (s s' : S) → R s s' → ((m s).1 ≡ (m s').1) × R (m s).0 (m s').0

module _ {S : Type 0} (R : S → S → Type 0) where
  answered-Respects :
      {A B : Type 0} (s s' : S) (answer : Answer A) (f : A → Call S B)
      → R s s'
      → ((a : A) → answer ≡ done a → Respects R B (f a))
      → ((answered f s answer).1 ≡ (answered f s' answer).1)
        × R (answered f s answer).0 (answered f s' answer).0
  unfolding Respects answered
  answered-Respects s s' (done a) f h k = k a refl s s' h
  answered-Respects s s' (refused e) f h k = (refl, h)

  pub Respects-IsLogic : IsLogic (Respects R)
  unfolding Respects ◌>>=◌ pure refuse
  Respects-IsLogic = record {
    bind_rule = λ A B m f h k s s' w.
        let (same, after) = h s s' w in
        subst
          (λ y.
            ((answered f (m s).0 (m s).1).1 ≡ (answered f (m s').0 y).1)
            × R (answered f (m s).0 (m s).1).0 (answered f (m s').0 y).0)
          same (answered-Respects (m s).0 (m s').0 (m s).1 f after (k s));
    pure_rule = λ A a s s' w. (refl, w);
    refuse_rule = λ A e s s' w. (refl, w);
  }

-- Two registries that agree on what belongs to the tenant.
pub record IsSameFor {F G V : Type 0} (a : TenantId) (r r' : Registry F G V) : Type 0 where
  pub groups : own_groups a r.groups ≡ own_groups a r'.groups
  pub admission :
      (name : Text)
      → is_queue_name name ≡ true
      → get Text-discrete (scope_key (some a) name) r.admission
        ≡ get Text-discrete (scope_key (some a) name) r'.admission
  pub dedup :
      (name : Text)
      → is_queue_name name ≡ true
      → get Text-discrete (scope_key (some a) name) r.dedup
        ≡ get Text-discrete (scope_key (some a) name) r'.dedup
  pub routes :
      get Text-discrete (tenant_key (some a)) r.routes
      ≡ get Text-discrete (tenant_key (some a)) r'.routes
  pub quota : get Text-discrete a.text r.tenant_quotas ≡ get Text-discrete a.text r'.tenant_quotas

-- The same write to two maps that agree at a key.
get-insert_same :
    {V : Type 0} (k j : Text) (v : V) (m m' : Map Text V)
    → get Text-discrete j m ≡ get Text-discrete j m'
    → get Text-discrete j (insert Text-discrete k v m)
      ≡ get Text-discrete j (insert Text-discrete k v m')
get-insert_same k j v m m' e =
    get-insert Text-discrete k j v m
    ∙ ap (ite (Text-discrete k j) (some v)) e
    ∙ sym (get-insert Text-discrete k j v m')

module _ {F G V : Type 0} (a : TenantId) where
  pub set_group-IsSameFor :
      (name : Text) (g : Group F V V) (r r' : Registry F G V)
      → IsSameFor a r r'
      → IsSameFor a
          (set_group (scope_key (some a) name) g r)
          (set_group (scope_key (some a) name) g r')
  set_group-IsSameFor name g r r' w =
      let own = own_prefix a name in
      record {
        groups =
            own_groups-insert a _ g r.groups own
            ∙ ap (insert Text-discrete (scope_key (some a) name) g) w.groups
            ∙ sym (own_groups-insert a _ g r'.groups own);
        admission = w.admission;
        dedup = w.dedup;
        routes = w.routes;
        quota = w.quota;
      }

  pub set_admission-IsSameFor :
      (key : Text) (c : AdmissionController F) (r r' : Registry F G V)
      → IsSameFor a r r'
      → IsSameFor a (set_admission key c r) (set_admission key c r')
  set_admission-IsSameFor key c r r' w = record {
    groups = w.groups;
    admission = λ name v. get-insert_same key _ c r.admission r'.admission (w.admission name v);
    dedup = w.dedup;
    routes = w.routes;
    quota = w.quota;
  }

  pub set_dedup-IsSameFor :
      (key : Text) (x : EmbeddingIndex MessageId G) (r r' : Registry F G V)
      → IsSameFor a r r'
      → IsSameFor a (set_dedup key x r) (set_dedup key x r')
  set_dedup-IsSameFor key x r r' w = record {
    groups = w.groups;
    admission = w.admission;
    dedup = λ name v. get-insert_same key _ x r.dedup r'.dedup (w.dedup name v);
    routes = w.routes;
    quota = w.quota;
  }

  pub set_routes-IsSameFor :
      (key : Text) (x : EmbeddingIndex Text G) (r r' : Registry F G V)
      → IsSameFor a r r'
      → IsSameFor a (set_routes key x r) (set_routes key x r')
  set_routes-IsSameFor key x r r' w = record {
    groups = w.groups;
    admission = w.admission;
    dedup = w.dedup;
    routes = get-insert_same key _ x r.routes r'.routes w.routes;
    quota = w.quota;
  }

  pub set_quota-IsSameFor :
      (tenant : TenantId) (q : TenantQuota) (r r' : Registry F G V)
      → IsSameFor a r r'
      → IsSameFor a (set_quota tenant q r) (set_quota tenant q r')
  set_quota-IsSameFor tenant q r r' w = record {
    groups = w.groups;
    admission = w.admission;
    dedup = w.dedup;
    routes = w.routes;
    quota = get-insert_same tenant.text _ q r.tenant_quotas r'.tenant_quotas w.quota;
  }

  pub find_quota-same :
      (r r' : Registry F G V)
      → IsSameFor a r r'
      → ((find_quota a r).1 ≡ (find_quota a r').1)
        × IsSameFor a (find_quota a r).0 (find_quota a r').0
  unfolding find_quota
  find_quota-same r r' w = elim (Option-cases (get Text-discrete a.text r.tenant_quotas)) [
    | inl e ↦ rw (e, sym w.quota ∙ e, find_quota) (refl, set_quota-IsSameFor a _ r r' w)
    | inr (q, e) ↦ rw (e, sym w.quota ∙ e, find_quota) (refl, w)
  ]

  pub find_routes-same :
      (r r' : Registry F G V)
      → IsSameFor a r r'
      → ((find_routes (some a) r).1 ≡ (find_routes (some a) r').1)
        × IsSameFor a (find_routes (some a) r).0 (find_routes (some a) r').0
  unfolding find_routes
  find_routes-same r r' w = elim (Option-cases (get Text-discrete (tenant_key (some a)) r.routes)) [
    | inl e ↦ rw (e, sym w.routes ∙ e, find_routes) (refl, set_routes-IsSameFor _ _ r r' w)
    | inr (q, e) ↦ rw (e, sym w.routes ∙ e, find_routes) (refl, w)
  ]

  pub routes_step-same :
      {A : Type 0} (f : EmbeddingIndex Text G → EmbeddingIndex Text G × A) (r r' : Registry F G V)
      (x x' : EmbeddingIndex Text G)
      → x ≡ x'
      → IsSameFor a r r'
      → (done (f x).1 ≡ done (f x').1)
        × IsSameFor a
            (set_routes (tenant_key (some a)) (f x).0 r)
            (set_routes (tenant_key (some a)) (f x').0 r')
  routes_step-same f r r' x x' e w = (
    ap (λ y. done (f y).1) e,
    subst
        (λ y.
          IsSameFor a (set_routes (tenant_key (some a)) (f x).0 r)
            (set_routes (tenant_key (some a)) (f y).0 r'))
        e (set_routes-IsSameFor _ (f x).0 r r' w),
  )

  pub quota_step-same :
      {A : Type 0} (r r' : Registry F G V) (x x' : TenantQuota × A)
      → x ≡ x'
      → IsSameFor a r r'
      → (done x.1 ≡ done x'.1) × IsSameFor a (set_quota a x.0 r) (set_quota a x'.0 r')
  quota_step-same r r' x x' e w = (
    ap (λ y. done y.1) e,
    subst (λ y. IsSameFor a (set_quota a x.0 r) (set_quota a y.0 r')) e
        (set_quota-IsSameFor a x.0 r r' w),
  )

-- ===== src/Server/Views/Answered.antt =====
-- What a tenant is answered by crates/qaas-server/src/mcp.rs comes from the entries under its own keys.
use mathlib.Core.Path.{subst}
use queue_as_a_service.Base.{
  ℕ, ◌≡◌, refl, sym, ap, ◌∙◌, arith, Bool, false, leb, none, some, Option-cases, inl, inr, get,
}
use queue_as_a_service.Types.{Text}
use queue_as_a_service.Quota.{TenantQuota}
use queue_as_a_service.Auth.{TenantId, Text-discrete}
use queue_as_a_service.Server.State.{Setting, on_registry, log_event}
use queue_as_a_service.Server.Producing.{at_pending_limit}
use queue_as_a_service.Server.Answers.{done, Call, gets, step, modify}
use queue_as_a_service.Server.Registry.{
  Registry, scope_key, is_queue_name, validate_queue_name, find_quota, find_admission, find_dedup,
  at_queue_limit, set_quota, tenant_queue_count, tenant_pending_total,
}
use queue_as_a_service.Server.Frames.{On, IsLogic, IsScoped, SetsAdmission, Holds-guarded}
use queue_as_a_service.Server.Frames.Requests.{serve-Holds}
use queue_as_a_service.Server.Requests.{Request, serve}
use queue_as_a_service.Server.Scopes.{own_tenant}
use queue_as_a_service.Server.Views.Agreement.{
  Respects, Respects-IsLogic, IsSameFor, set_group-IsSameFor, set_admission-IsSameFor,
  set_dedup-IsSameFor, find_quota-same, find_routes-same, routes_step-same, quota_step-same,
}
use queue_as_a_service.Server.Views.{own_get, own_count, own_pending}

fed :
    {A B C D : Type 0} (f : A → B → C → D) {x x' : A} {y y' : B} {z z' : C}
    → x ≡ x'
    → y ≡ y'
    → z ≡ z'
    → f x y z ≡ f x' y' z'
fed f p q r = λ i. f (p i) (q i) (r i)

module _ (F G V : Type 0) (a : TenantId) where
  abbrev Agrees : (A : Type 0) → Call (Registry F G V) A → Type 0
  Agrees = Respects (IsSameFor a)

  logic : IsLogic Agrees
  logic = Respects-IsLogic (IsSameFor a)

  find_admission-Respects : (queue : Text) → Agrees _ (find_admission (some a) queue)
  unfolding find_admission validate_queue_name Respects step
  find_admission-Respects queue = Holds-guarded logic (is_queue_name queue) _ _ (λ valid r r' w.
      let same = w.admission queue valid in
      elim (Option-cases (get Text-discrete (scope_key (some a) queue) r.admission)) [
        | inl e ↦ rw (e, sym same ∙ e, step) (refl, set_admission-IsSameFor a _ _ r r' w)
        | inr (c, e) ↦ rw (e, sym same ∙ e, step) (refl, w)
      ])

  find_dedup-Respects : (queue : Text) → Agrees _ (find_dedup (some a) queue)
  unfolding find_dedup validate_queue_name Respects step
  find_dedup-Respects queue = Holds-guarded logic (is_queue_name queue) _ _ (λ valid r r' w.
      let same = w.dedup queue valid in
      elim (Option-cases (get Text-discrete (scope_key (some a) queue) r.dedup)) [
        | inl e ↦ rw (e, sym same ∙ e, step) (refl, set_dedup-IsSameFor a _ _ r r' w)
        | inr (c, e) ↦ rw (e, sym same ∙ e, step) (refl, w)
      ])

  Agrees-SetsAdmission : SetsAdmission (some a) Agrees
  unfolding Respects
  Agrees-SetsAdmission A queue c x valid r r' w = (refl, set_admission-IsSameFor a _ c r r' w)

  quota_step-Respects :
      (A : Type 0) (f : TenantQuota → ℕ → ℕ → TenantQuota × A)
      → Agrees A (
          step (λ r.
            let (r', q) = find_quota a r in
            let (q', x) = f q (tenant_queue_count a r') (tenant_pending_total a r') in
            (set_quota a q' r', x)))
  unfolding Respects step tenant_queue_count tenant_pending_total
  quota_step-Respects A f r r' w =
      let (same, after) = find_quota-same a r r' w in
      let m = (find_quota a r).0.groups in
      let m' = (find_quota a r').0.groups in
      quota_step-same a _ _ _ _
        (fed f same (own_count a m m' after.groups) (own_pending a m m' after.groups)) after

  queue_limit-Respects : Agrees _ (step (at_queue_limit (some a)))
  unfolding Respects step at_queue_limit
  queue_limit-Respects r r' w =
      let (same, after) = find_quota-same a r r' w in
      let counted = own_count a _ _ after.groups in
      (
        λ i. done (elim (same i).config.max_queues as (λ _. Bool) [
          | none ↦ false
          | some limit ↦ leb limit (counted i)
        ]),
        after,
      )

  pending_limit-Respects : Agrees _ (step (at_pending_limit (some a)))
  unfolding Respects step at_pending_limit tenant_pending_total
  pending_limit-Respects r r' w =
      let (same, after) = find_quota-same a r r' w in
      let counted = own_pending a _ _ after.groups in
      (
        λ i. done (elim (same i).config.max_pending_messages as (λ _. Bool) [
          | none ↦ false
          | some limit ↦ leb limit (counted i)
        ]),
        after,
      )

module _ {F G V : Type 0} (setting : Setting F G) (a : TenantId) where
  Respects-IsScoped :
      IsScoped {V = V} setting (some a) (Respects (IsSameFor a)) (Respects (On (IsSameFor a)))
  unfolding Respects on_registry log_event modify gets step
  Respects-IsScoped = record {
    order = Respects-IsLogic _;
    above = Respects-IsLogic _;
    lift = λ A m h s s' w. h s.registry s'.registry w;
    logs = λ at event s s' w. (refl, w);
    keys = λ A m local. absurd (ground (arith, local));
    group_look = λ queue valid r r' w. (ap done (own_get a queue r.groups r'.groups w.groups), w);
    group_set = λ A queue g x valid r r' w. (refl, set_group-IsSameFor a queue g r r' w);
    admission_find = find_admission-Respects F G V a;
    dedup_find = find_dedup-Respects F G V a;
    dedup_set = λ A queue i x valid r r' w. (refl, set_dedup-IsSameFor a _ i r r' w);
    routes_step = λ A f r r' w.
        let (same, after) = find_routes-same a r r' w in routes_step-same a f _ _ _ _ same after;
    quota_step = λ A tenant f own. elim own [
      | inl none_is ↦ absurd (ground (arith, none_is))
      | inr is ↦
          subst
            (λ u. Respects (IsSameFor {F = F} {G = G} {V = V} a) A (
              step (λ r.
                let (r', q) = find_quota u r in
                let (q', x) = f q (tenant_queue_count u r') (tenant_pending_total u r') in
                (set_quota u q' r', x))))
            (own_tenant is) (quota_step-Respects F G V a A f)
    ];
    queue_limit = queue_limit-Respects F G V a;
    pending_limit = pending_limit-Respects F G V a;
  }

  -- A call of the tenant is answered alike by two servers that agree on what belongs to it.
  pub serve-Respects :
      (now : ℕ) (request : Request F G V)
      → Respects (On (IsSameFor a)) _ (serve setting now (some a) request)
  serve-Respects now request =
      serve-Holds setting (some a) Respects-IsScoped (Agrees-SetsAdmission F G V a) now request

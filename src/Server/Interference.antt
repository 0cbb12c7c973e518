-- ===== src/Server/Interference.antt =====
-- What the calls of other tenants do to the answers of one, in crates/qaas-server/src/mcp.rs.
use mathlib.Core.Path.{subst}
use queue_as_a_service.Base.{
  ℕ, ◌≡◌, ◌≢◌, refl, sym, ap, ◌∙◌, arith, true, some, List, [], ◌∷◌, All, inl, inr, ite, if_neg,
  if_pos,
}
use queue_as_a_service.Types.{Text}
use queue_as_a_service.Auth.{TenantId, Text-discrete}
use queue_as_a_service.Server.Answers.{Answer}
use queue_as_a_service.Server.Registry.{Registry, scope_key, is_queue_name}
use queue_as_a_service.Server.State.{Setting, Server}
use queue_as_a_service.Server.Scopes.{
  IsTenant, own_tenant, scope_key-injective, tenant_key-injective,
}
use queue_as_a_service.Server.Keeping.{Keeps, IsPreorder, IsLocal, serve-Keeps}
use queue_as_a_service.Server.Isolation.{same_text, get-insert_other}
use queue_as_a_service.Server.Requests.{Request, Reply, serve}
use queue_as_a_service.Server.Views.{own_groups-insert_other, other_prefix}
use queue_as_a_service.Server.Views.Agreement.{Respects, IsSameFor}
use queue_as_a_service.Server.Views.Answered.{serve-Respects}

module _ {F G V : Type 0} (a : TenantId) where
  same : (r : Registry F G V) → IsSameFor a r r
  same r = record {
    groups = refl;
    admission = λ _ _. refl;
    dedup = λ _ _. refl;
    routes = refl;
    quota = refl;
  }

  same_back : (r r' : Registry F G V) → IsSameFor a r r' → IsSameFor a r' r
  same_back r r' h = record {
    groups = sym h.groups;
    admission = λ name v. sym (h.admission name v);
    dedup = λ name v. sym (h.dedup name v);
    routes = sym h.routes;
    quota = sym h.quota;
  }

  IsSameFor-IsPreorder : IsPreorder {S = Registry F G V} (IsSameFor a)
  IsSameFor-IsPreorder = record {
    reflexive = same;
    transitive = λ r r' r'' h k. record {
      groups = h.groups ∙ k.groups;
      admission = λ name v. h.admission name v ∙ k.admission name v;
      dedup = λ name v. h.dedup name v ∙ k.dedup name v;
      routes = h.routes ∙ k.routes;
      quota = h.quota ∙ k.quota;
    };
  }

  -- The writes of another tenant leave what belongs to this one.
  IsSameFor-IsLocal :
      (u : TenantId)
      → IsTenant (some a)
      → IsTenant (some u)
      → u ≢ a
      → IsLocal {F = F} {G = G} {V = V} (IsSameFor a) (some u)
  IsSameFor-IsLocal u ha hu differ =
      let other : (queue name : Text)
          → is_queue_name queue ≡ true
          → is_queue_name name ≡ true
          → scope_key (some u) queue ≢ scope_key (some a) name =
        λ queue name v v' e.
          differ (own_tenant (scope_key-injective (some u) (some a) queue name hu ha v v' e).0) in
      record {
        order = IsSameFor-IsPreorder;
        group_set = λ queue g r v. record {
          groups =
              sym (own_groups-insert_other a _ g r.groups (other_prefix a u queue ha hu differ v));
          admission = λ _ _. refl;
          dedup = λ _ _. refl;
          routes = refl;
          quota = refl;
        };
        admission_set = λ queue c r v. record {
          groups = refl;
          admission = λ name v'. sym (get-insert_other _ _ c r.admission (other queue name v v'));
          dedup = λ _ _. refl;
          routes = refl;
          quota = refl;
        };
        dedup_set = λ queue x r v. record {
          groups = refl;
          admission = λ _ _. refl;
          dedup = λ name v'. sym (get-insert_other _ _ x r.dedup (other queue name v v'));
          routes = refl;
          quota = refl;
        };
        routes_set = λ x r. record {
          groups = refl;
          admission = λ _ _. refl;
          dedup = λ _ _. refl;
          routes = sym (
              get-insert_other _ _ x r.routes
                (λ e. differ (own_tenant (tenant_key-injective (some u) (some a) hu ha e))));
          quota = refl;
        };
        quota_set = λ tenant q r own. record {
          groups = refl;
          admission = λ _ _. refl;
          dedup = λ _ _. refl;
          routes = refl;
          quota = sym (
              get-insert_other _ _ q r.tenant_quotas (λ e. elim own [
                | inl none_is ↦ absurd (ground (arith, none_is))
                | inr is ↦ differ (own_tenant is ∙ same_text tenant a e)
              ]));
        };
      }

module _ {F G V : Type 0} (setting : Setting F G) where
  -- The calls of several tenants, each with the reading of the clock, and the answers to those of one.
  abbrev pub after_calls : List (ℕ × TenantId × Request F G V) → Server F G V → Server F G V
  after_calls [] s = s
  after_calls ((now, u, request) ∷ calls) s =
      after_calls calls (serve setting now (some u) request s).0

  abbrev pub answers_to :
      TenantId → List (ℕ × TenantId × Request F G V) → Server F G V → List (Answer (Reply F G V))
  answers_to a [] s = []
  answers_to a ((now, u, request) ∷ calls) s =
      let (s', answer) = serve setting now (some u) request s in
      let rest = answers_to a calls s' in ite (Text-discrete u.text a.text) (answer ∷ rest) rest

  abbrev pub own_calls :
      TenantId → List (ℕ × TenantId × Request F G V) → List (ℕ × TenantId × Request F G V)
  own_calls a [] = []
  own_calls a ((now, u, request) ∷ calls) =
      let rest = own_calls a calls in
      ite (Text-discrete u.text a.text) ((now, u, request) ∷ rest) rest

  -- What one caller sees of a run.
  abbrev IsAlike :
      TenantId
      → List (ℕ × TenantId × Request F G V)
      → Server F G V
      → List (ℕ × TenantId × Request F G V)
      → Server F G V
      → Type 0
  IsAlike a calls s calls' s' =
      (answers_to a calls s ≡ answers_to a calls' s')
      × IsSameFor a (after_calls calls s).registry (after_calls calls' s').registry

  IsAlike-own :
      (a u : TenantId) (now : ℕ) (request : Request F G V)
      (calls calls' : List (ℕ × TenantId × Request F G V)) (s s' : Server F G V)
      → u.text ≡ a.text
      → (serve setting now (some u) request s).1 ≡ (serve setting now (some u) request s').1
      → IsAlike a calls
          (serve setting now (some u) request s).0
          calls'
          (serve setting now (some u) request s').0
      → IsAlike a ((now, u, request) ∷ calls) s ((now, u, request) ∷ calls') s'
  IsAlike-own a u now request calls calls' s s' is answer (answers, after) = (
    if_pos (Text-discrete u.text a.text) is _ _
        ∙ (λ i. answer i ∷ answers i)
        ∙ sym (if_pos (Text-discrete u.text a.text) is _ _),
    after,
  )

  IsAlike-other :
      (a u : TenantId) (now : ℕ) (request : Request F G V)
      (calls calls' : List (ℕ × TenantId × Request F G V)) (s s' : Server F G V)
      → u.text ≢ a.text
      → IsAlike a calls (serve setting now (some u) request s).0 calls' s'
      → IsAlike a ((now, u, request) ∷ calls) s calls' s'
  IsAlike-other a u now request calls calls' s s' differ (answers, after) =
      (if_neg (Text-discrete u.text a.text) differ _ _ ∙ answers, after)

  IsAlike-own_calls :
      (a : TenantId) (calls : List (ℕ × TenantId × Request F G V)) (s s' : Server F G V)
      → IsTenant (some a)
      → All (λ c. IsTenant (some c.1)) calls
      → IsSameFor a s.registry s'.registry
      → IsAlike a calls s (own_calls a calls) s'
  unfolding Respects Keeps
  IsAlike-own_calls a [] s s' ha _ h = (refl, h)
  IsAlike-own_calls a ((now, u, request) ∷ calls) s s' ha (hu, hs) h =
      elim (Text-discrete u.text a.text) [
        | yes is ↦
            let (answer, after) =
              subst
                (λ t.
                  Respects (λ x x'. IsSameFor a x.registry x'.registry) _
                    (serve setting now (some t) request))
                (sym (same_text u a is)) (serve-Respects setting a now request) s s' h in
            subst (λ cs. IsAlike a ((now, u, request) ∷ calls) s cs s')
              (sym (if_pos (Text-discrete u.text a.text) is _ _))
              (IsAlike-own a u now request calls (own_calls a calls) s s' is answer
                (IsAlike-own_calls a calls _ _ ha hs after))
        | no differ ↦
            let local = IsSameFor-IsLocal a u ha hu (λ e. differ (ap (λ t. t.text) e)) in
            let kept = serve-Keeps setting (IsSameFor a) (some u) local now request s in
            subst (λ cs. IsAlike a ((now, u, request) ∷ calls) s cs s')
              (sym (if_neg (Text-discrete u.text a.text) differ _ _))
              (IsAlike-other a u now request calls (own_calls a calls) s s' differ (
                IsAlike-own_calls a calls _ s' ha hs
                  (local.order.transitive _ _ _ (same_back a _ _ kept) h)))
      ]

  -- No tenant can tell from its answers what the other tenants call: whatever they call in between, and
  -- whatever the server holds, each call of the tenant is answered as in the run of its own calls alone,
  -- and after both runs the registry holds the same of what belongs to it, where the tenants are valid.
  pub answers_to-own_calls :
      (a : TenantId) (calls : List (ℕ × TenantId × Request F G V)) (s : Server F G V)
      → IsTenant (some a)
      → All (λ c. IsTenant (some c.1)) calls
      → (answers_to a calls s ≡ answers_to a (own_calls a calls) s)
        × IsSameFor a (after_calls calls s).registry (after_calls (own_calls a calls) s).registry
  answers_to-own_calls a calls s ha hs = IsAlike-own_calls a calls s s ha hs (same a s.registry)

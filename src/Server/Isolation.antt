-- ===== src/Server/Isolation.antt =====
-- What the calls of one tenant leave of every other tenant, and of the local connection, in
-- crates/qaas-server/src/mcp.rs.
use queue_as_a_service.Base.{
  ℕ, ◌≡◌, ◌≢◌, refl, sym, ap, ◌∙◌, arith, true, Option, some, List, [], ◌∷◌, Map, get, insert,
  get-insert, if_neg, inl, inr,
}
use queue_as_a_service.Types.{Text}
use queue_as_a_service.Auth.{TenantId, Text-discrete}
use queue_as_a_service.Server.Registry.{Registry, scope_key, tenant_key, is_queue_name}
use queue_as_a_service.Server.State.{Setting, Server}
use queue_as_a_service.Server.Scopes.{IsTenant, scope_key-injective, tenant_key-injective}
use queue_as_a_service.Server.Keeping.{Keeps, IsPreorder, IsLocal, serve-Keeps}
use queue_as_a_service.Server.Requests.{Request, serve}

-- Nothing of `u` differs: the queues with their budgets and indexes, the routes and the quota.
pub record IsUntouched {F G V : Type 0} (u : Option TenantId) (r r' : Registry F G V) : Type 0 where
  pub groups :
      (name : Text)
      → is_queue_name name ≡ true
      → get Text-discrete (scope_key u name) r'.groups
        ≡ get Text-discrete (scope_key u name) r.groups
  pub admission :
      (name : Text)
      → is_queue_name name ≡ true
      → get Text-discrete (scope_key u name) r'.admission
        ≡ get Text-discrete (scope_key u name) r.admission
  pub dedup :
      (name : Text)
      → is_queue_name name ≡ true
      → get Text-discrete (scope_key u name) r'.dedup ≡ get Text-discrete (scope_key u name) r.dedup
  pub routes :
      get Text-discrete (tenant_key u) r'.routes ≡ get Text-discrete (tenant_key u) r.routes
  pub quota :
      (tenant : TenantId)
      → u ≡ some tenant
      → get Text-discrete tenant.text r'.tenant_quotas
        ≡ get Text-discrete tenant.text r.tenant_quotas

pub get-insert_other :
    {V : Type 0} (k j : Text) (v : V) (m : Map Text V)
    → k ≢ j
    → get Text-discrete j (insert Text-discrete k v m) ≡ get Text-discrete j m
get-insert_other k j v m h = get-insert Text-discrete k j v m ∙ if_neg (Text-discrete k j) h _ _

other_scope :
    (t u : Option TenantId) (queue name : Text)
    → IsTenant t
    → IsTenant u
    → t ≢ u
    → is_queue_name queue ≡ true
    → is_queue_name name ≡ true
    → scope_key t queue ≢ scope_key u name
other_scope t u queue name ht hu differ hq hn e =
    differ (scope_key-injective t u queue name ht hu hq hn e).0

pub same_text : (a b : TenantId) → a.text ≡ b.text → a ≡ b
same_text a b e = ground (arith, e)

module _ {F G V : Type 0} (u : Option TenantId) where
  untouched : (r : Registry F G V) → IsUntouched u r r
  untouched r = record {
    groups = λ _ _. refl;
    admission = λ _ _. refl;
    dedup = λ _ _. refl;
    routes = refl;
    quota = λ _ _. refl;
  }

  IsUntouched-IsPreorder : IsPreorder {S = Registry F G V} (IsUntouched u)
  IsUntouched-IsPreorder = record {
    reflexive = untouched;
    transitive = λ a b c h k. record {
      groups = λ name v. k.groups name v ∙ h.groups name v;
      admission = λ name v. k.admission name v ∙ h.admission name v;
      dedup = λ name v. k.dedup name v ∙ h.dedup name v;
      routes = k.routes ∙ h.routes;
      quota = λ tenant e. k.quota tenant e ∙ h.quota tenant e;
    };
  }

  -- The writes of a tenant are under keys that no other has.
  IsUntouched-IsLocal :
      (a : TenantId)
      → IsTenant (some a)
      → IsTenant u
      → some a ≢ u
      → IsLocal {F = F} {G = G} {V = V} (IsUntouched u) (some a)
  IsUntouched-IsLocal a ha hu differ =
      let t = some a in
      let other : (queue name : Text)
          → is_queue_name queue ≡ true
          → is_queue_name name ≡ true
          → scope_key t queue ≢ scope_key u name =
        λ queue name. other_scope t u queue name ha hu differ in
      record {
        order = IsUntouched-IsPreorder;
        group_set = λ queue g r v. record {
          groups = λ name v'. get-insert_other _ _ g r.groups (other queue name v v');
          admission = λ _ _. refl;
          dedup = λ _ _. refl;
          routes = refl;
          quota = λ _ _. refl;
        };
        admission_set = λ queue c r v. record {
          groups = λ _ _. refl;
          admission = λ name v'. get-insert_other _ _ c r.admission (other queue name v v');
          dedup = λ _ _. refl;
          routes = refl;
          quota = λ _ _. refl;
        };
        dedup_set = λ queue x r v. record {
          groups = λ _ _. refl;
          admission = λ _ _. refl;
          dedup = λ name v'. get-insert_other _ _ x r.dedup (other queue name v v');
          routes = refl;
          quota = λ _ _. refl;
        };
        routes_set = λ x r. record {
          groups = λ _ _. refl;
          admission = λ _ _. refl;
          dedup = λ _ _. refl;
          routes = get-insert_other _ _ x r.routes (λ e. differ (tenant_key-injective t u ha hu e));
          quota = λ _ _. refl;
        };
        quota_set = λ tenant q r own. record {
          groups = λ _ _. refl;
          admission = λ _ _. refl;
          dedup = λ _ _. refl;
          routes = refl;
          quota = λ w e. get-insert_other _ _ q r.tenant_quotas (λ same. elim own [
            | inl none_is ↦ absurd (ground (arith, none_is))
            | inr own ↦ differ (own ∙ ap some (same_text tenant w same) ∙ sym e)
          ]);
        };
      }

module _ {F G V : Type 0} (setting : Setting F G) where
  -- The calls of one caller, each with the reading of the clock.
  abbrev pub serve_all : Option TenantId → List (ℕ × Request F G V) → Server F G V → Server F G V
  serve_all t [] s = s
  serve_all t ((now, request) ∷ calls) s = serve_all t calls (serve setting now t request s).0

  -- Whatever a tenant calls, and however often, it changes no queue, budget, index, route or quota of
  -- another tenant or of the local connection, where the tenants are valid.
  pub serve_all-IsUntouched :
      (a : TenantId) (u : Option TenantId) (calls : List (ℕ × Request F G V)) (s : Server F G V)
      → IsTenant (some a)
      → IsTenant u
      → some a ≢ u
      → IsUntouched u s.registry (serve_all (some a) calls s).registry
  unfolding Keeps
  serve_all-IsUntouched a u [] s ha hu differ = untouched u s.registry
  serve_all-IsUntouched a u ((now, request) ∷ calls) s ha hu differ =
      let local = IsUntouched-IsLocal u a ha hu differ in
      local.order.transitive s.registry (serve setting now (some a) request s).0.registry _
        (serve-Keeps setting (IsUntouched u) (some a) local now request s)
        (serve_all-IsUntouched a u calls _ ha hu differ)

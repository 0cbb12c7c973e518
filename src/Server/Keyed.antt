-- ===== src/Server/Keyed.antt =====
-- Every queue of the registry in crates/qaas-server/src/mcp.rs stands under a key that the registry has made,
-- so the dashboard finds a valid tenant behind each.
use queue_as_a_service.Base.{
  ℕ, ◌≡◌, refl, ap, ◌∙◌, true, Option, none, some, List, [], ◌∷◌, All, All-ite, Map, insert, remove,
}
use queue_as_a_service.Types.{Text}
use queue_as_a_service.Auth.{TenantId, Text-discrete, new_tenant_id}
use queue_as_a_service.Server.Registry.{
  Registry, new_registry, scope_key, is_queue_name, split_once,
}
use queue_as_a_service.Server.State.{Setting, Server}
use queue_as_a_service.Server.Dashboard.{
  TenantStatus, tenant_labels, tenant_status, tenant_rows, tenant_snapshots,
}
use queue_as_a_service.Server.Scopes.{IsTenant, split_once-scope_key}
use queue_as_a_service.Server.Keeping.{Keeps, IsLocal, serve-Keeps}
use queue_as_a_service.Server.Requests.{Request, serve}

-- The key of a valid tenant, or of none, and a valid name.
abbrev pub IsScope : Text → Type 0
IsScope key =
    (t : Option TenantId) × (name : Text) × IsTenant t
    × (is_queue_name name ≡ true)
    × (key ≡ scope_key t name)

abbrev pub IsKeyed : {F G V : Type 0} → Registry F G V → Type 0
IsKeyed r = All (λ e. IsScope e.0) r.groups

All-remove :
    {V : Type 0} (P : Text → Type 0) (k : Text) (m : Map Text V)
    → All (λ e. P e.0) m
    → All (λ e. P e.0) (remove Text-discrete k m)
unfolding remove
All-remove P k [] h = tt
All-remove P k ((j, v) ∷ m) (h, hs) =
    All-ite (λ e. P e.0) (Text-discrete j k) _ _ (All-remove P k m hs) (h, All-remove P k m hs)

module _ {F G V : Type 0} where
  IsKeyed-IsLocal :
      (t : Option TenantId)
      → IsTenant t
      → IsLocal {F = F} {G = G} {V = V} (λ r r'. IsKeyed r → IsKeyed r') t
  unfolding insert
  IsKeyed-IsLocal t ht = record {
    order = record { reflexive = λ r h. h; transitive = λ a b c f g h. g (f h) };
    group_set = λ queue g r v h.
        ((t, queue, ht, v, refl), All-remove IsScope (scope_key t queue) r.groups h);
    admission_set = λ queue c r v h. h;
    dedup_set = λ queue x r v h. h;
    routes_set = λ x r h. h;
    quota_set = λ tenant q r own h. h;
  }

module _ {F G V : Type 0} (setting : Setting F G) where
  -- Calls of any callers.
  abbrev pub serve_mixed : List (ℕ × Option TenantId × Request F G V) → Server F G V → Server F G V
  serve_mixed [] s = s
  serve_mixed ((now, t, request) ∷ calls) s = serve_mixed calls (serve setting now t request s).0

  pub serve_mixed-IsKeyed :
      (calls : List (ℕ × Option TenantId × Request F G V)) (s : Server F G V)
      → All (λ c. IsTenant c.1) calls
      → IsKeyed s.registry
      → IsKeyed (serve_mixed calls s).registry
  unfolding Keeps
  serve_mixed-IsKeyed [] s _ h = h
  serve_mixed-IsKeyed ((now, t, request) ∷ calls) s (ht, hs) h =
      serve_mixed-IsKeyed calls (serve setting now t request s).0 hs (
        serve-Keeps setting (λ r r'. IsKeyed r → IsKeyed r') t (IsKeyed-IsLocal t ht) now request s
          h)

-- The text of a valid tenant.
abbrev IsLabel : Text → Type 0
IsLabel label = (tenant : TenantId) × (new_tenant_id label ≡ some tenant)

tenant_labels-IsLabel :
    {A : Type 0} (m : Map Text A) → All (λ e. IsScope e.0) m → All IsLabel (tenant_labels m)
unfolding tenant_labels
tenant_labels-IsLabel [] h = tt
tenant_labels-IsLabel ((key, g) ∷ m) ((none, name, ht, hn, e), hs) =
    rw (ap split_once e ∙ split_once-scope_key none name ht hn, tenant_labels)
      (tenant_labels-IsLabel m hs)
tenant_labels-IsLabel ((key, g) ∷ m) ((some tenant, name, ht, hn, e), hs) =
    rw (ap split_once e ∙ split_once-scope_key (some tenant) name ht hn, tenant_labels)
      ((tenant, ht), tenant_labels-IsLabel m hs)

tenant_rows-some :
    {F G V : Type 0} (now : ℕ) (labels : List Text) (r : Registry F G V)
    → All IsLabel labels
    → (rows : List TenantStatus) × ((tenant_rows now labels r).1 ≡ some rows)
unfolding tenant_rows
tenant_rows-some now [] r h = ([], refl)
tenant_rows-some now (label ∷ labels) r ((tenant, valid), hs) =
    let (rows, e) = tenant_rows-some now labels (tenant_status now tenant r).0 hs in
    ((tenant_status now tenant r).1 ∷ rows, rw (valid, tenant_rows) (rw e refl))

module _ {F G V : Type 0} (setting : Setting F G) where
  -- After any calls of valid tenants and of the local connection, from the start of the server on, the
  -- snapshot of the tenants never panics: each label that it finds in a key is a valid tenant. The
  -- collection into a set only drops and reorders labels.
  pub tenant_snapshots-some :
      (calls : List (ℕ × Option TenantId × Request F G V)) (s : Server F G V)
      (as_set : List Text → List Text) (now : ℕ)
      → s.registry ≡ new_registry
      → All (λ c. IsTenant c.1) calls
      → ((P : Text → Type 0) (xs : List Text) → All P xs → All P (as_set xs))
      → (rows : List TenantStatus) × ((tenant_snapshots as_set now
            (serve_mixed setting calls s).registry).1
          ≡ some rows)
  unfolding tenant_snapshots new_registry
  tenant_snapshots-some calls s as_set now start callers elements =
      let after = (serve_mixed setting calls s).registry in
      tenant_rows-some now (as_set (tenant_labels after.groups)) after (
        elements IsLabel _ (
          tenant_labels-IsLabel after.groups
            (serve_mixed-IsKeyed setting calls s callers (rw start tt))))

-- ===== src/Server/Scopes.antt =====
-- The keys of the registry in crates/qaas-server/src/mcp.rs keep the tenants apart.
use queue_as_a_service.Base.{
  ◌≡◌, refl, sym, ap, ◌∙◌, arith, true, [], ◌∷◌, ◌++◌, Option, none, some, All,
}
use queue_as_a_service.Types.{Text}
use queue_as_a_service.Auth.{TenantId, new_tenant_id}
use queue_as_a_service.Auth.Names.{IsPlain, all_name_chars-IsPlain, new_tenant_id-IsPlain}
use queue_as_a_service.Server.Registry.{scope_key, tenant_key, split_once, is_queue_name}

-- A tenant that `TenantId::new` gives; the local connection has none.
abbrev pub IsTenant : Option TenantId → Type 0
IsTenant none = Unit
IsTenant (some tenant) = new_tenant_id tenant.text ≡ some tenant

is_queue_name-IsPlain : (name : Text) → is_queue_name name ≡ true → All IsPlain name
unfolding is_queue_name
is_queue_name-IsPlain [] h = tt
is_queue_name-IsPlain (c ∷ cs) h = all_name_chars-IsPlain (c ∷ cs) (ground arith)

split_once-plain : (text : Text) → All IsPlain text → split_once text ≡ none
unfolding split_once
split_once-plain [] h = refl
split_once-plain (c ∷ cs) ((nul, _, _, _), h) = ground (arith, nul, split_once-plain cs h)

pub split_once-append :
    (text rest : Text) → All IsPlain text → split_once (text ++ 0 ∷ rest) ≡ some (text, rest)
unfolding split_once
split_once-append [] rest h = refl
split_once-append (c ∷ cs) rest ((nul, _, _, _), h) =
    ground (arith, nul, split_once-append cs rest h)

-- The parts of a key: the tenant's text, if there is one.
abbrev parts : Option TenantId → Text → Option (Text × Text)
parts none name = none
parts (some tenant) name = some (tenant.text, name)

pub split_once-scope_key :
    (t : Option TenantId) (name : Text)
    → IsTenant t
    → is_queue_name name ≡ true
    → split_once (scope_key t name) ≡ parts t name
unfolding scope_key
split_once-scope_key none name ht hn = split_once-plain name (is_queue_name-IsPlain name hn)
split_once-scope_key (some tenant) name ht hn =
    let (_, _, _, plain) = new_tenant_id-IsPlain tenant.text tenant ht in
    split_once-append tenant.text name plain

-- Two scopes with one key are the same tenant and the same queue, where tenants and names are valid.
pub scope_key-injective :
    (t u : Option TenantId) (name name' : Text)
    → IsTenant t
    → IsTenant u
    → is_queue_name name ≡ true
    → is_queue_name name' ≡ true
    → scope_key t name ≡ scope_key u name'
    → (t ≡ u) × (name ≡ name')
unfolding scope_key
scope_key-injective t u name name' ht hu hn hn' e =
    decide t u
      (sym (split_once-scope_key t name ht hn)
        ∙ ap split_once e
        ∙ split_once-scope_key u name' hu hn')
      e
  where
    decide :
        (t u : Option TenantId)
        → parts t name ≡ parts u name'
        → scope_key t name ≡ scope_key u name'
        → (t ≡ u) × (name ≡ name')
    decide none none same e = (refl, e)
    decide none (some b) same e = absurd (ground (arith, same))
    decide (some a) none same e = absurd (ground (arith, same))
    decide (some a) (some b) same e = (ground (arith, same), ground (arith, same))

pub tenant_key-injective :
    (t u : Option TenantId) → IsTenant t → IsTenant u → tenant_key t ≡ tenant_key u → t ≡ u
unfolding tenant_key new_tenant_id
tenant_key-injective none none ht hu e = refl
tenant_key-injective none (some b) ht hu e =
    absurd (ground (arith, (new_tenant_id-IsPlain b.text b hu).1, e))
tenant_key-injective (some a) none ht hu e =
    absurd (ground (arith, (new_tenant_id-IsPlain a.text a ht).1, e))
tenant_key-injective (some a) (some b) ht hu e = ground (arith, e, ht, hu)

pub own_tenant : {a b : TenantId} → some a ≡ some b → a ≡ b
own_tenant e = ground (arith, e)

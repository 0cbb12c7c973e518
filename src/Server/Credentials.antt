-- ===== src/Server/Credentials.antt =====
-- API keys at the server: the tools of crates/qaas-server/src/mcp.rs that make and revoke them, and the
-- check of a request in crates/qaas-server/src/http_auth.rs. The verification of a signed token by the
-- jsonwebtoken crate is a parameter.
use queue_as_a_service.Base.{ℕ, Bool, Option, none, some, List, [], ◌∷◌, ◌==◌, if◌then◌else◌}
use queue_as_a_service.Log.{AppendIo}
use queue_as_a_service.Types.{Text}
use queue_as_a_service.Auth.{TenantId, ApiKeyStore, new_tenant_id, mint, revoke, authenticate}
use queue_as_a_service.Server.Answers.{
  invalid_params, invalid_request, Call, pure, refuse, step_io, or_refuse, ◌>>=◌,
}
use queue_as_a_service.Server.State.{Setting, Server}

module _ {F G V : Type 0} (setting : Setting F G) where
  open setting use {sha256}

  unfoldable pub on_keys : {A : Type 0} → Call ApiKeyStore A → Call (Server F G V) A
  on_keys m s = let r = m s.api_keys in (record s { api_keys = r.0 }, r.1)

  -- `raw_key` is what `generate_raw_key` draws.
  unfoldable pub create_api_key_impl :
      AppendIo → Text → Option TenantId → Text → Call (Server F G V) (Text × TenantId)
  create_api_key_impl io raw_key (some caller) tenant_id = refuse invalid_request
  create_api_key_impl io raw_key none tenant_id = do
    tenant ← or_refuse (new_tenant_id tenant_id) invalid_params
    key ← on_keys (step_io (mint sha256 io raw_key tenant))
    pure (key, tenant)

  unfoldable pub revoke_api_key_impl : AppendIo → Option TenantId → Text → Call (Server F G V) Bool
  revoke_api_key_impl io (some caller) api_key = refuse invalid_request
  revoke_api_key_impl io none api_key = on_keys (step_io (revoke sha256 io api_key))

-- `AuthState`; a key for tokens comes from a secret that is not empty.
pub record AuthState : Type 0 where
  pub api_keys : ApiKeyStore
  pub jwt_key : Option Text

unfoldable pub new_auth_state : Option Text → ApiKeyStore → AuthState
new_auth_state none api_keys = record { api_keys = api_keys; jwt_key = none }
new_auth_state (some []) api_keys = record { api_keys = api_keys; jwt_key = none }
new_auth_state (some (b ∷ bs)) api_keys = record { api_keys = api_keys; jwt_key = some (b ∷ bs) }

unfoldable pub strip_prefix : Text → Text → Option Text
strip_prefix [] text = some text
strip_prefix (p ∷ ps) [] = none
strip_prefix (p ∷ ps) (c ∷ cs) = let rest = strip_prefix ps cs in if p == c then rest else none

-- "Bearer "
abbrev pub bearer : Text
bearer = 66 ∷ 101 ∷ 97 ∷ 114 ∷ 101 ∷ 114 ∷ 32 ∷ []

-- From the value of the `Authorization` header, if there is one and it is text.
unfoldable pub bearer_credential : Option Text → Option Text
unfolding strip_prefix
bearer_credential none = none
bearer_credential (some value) = strip_prefix bearer value

-- What becomes of a request: a 401, or the handlers behind, with the tenant.
pub data Response (R : Type 0) : Type 0 where
  unauthorized : Response R
  answered_by : R → Response R

-- `decode` gives the tenant that a token names, where the key has signed it and it has not expired.
module _ (sha256 : List ℕ → List ℕ) (decode : Text → Text → Option Text) where
  unfoldable pub verify_jwt : Text → Text → Option TenantId
  verify_jwt token key = elim (decode token key) [
    | none ↦ none
    | some tenant_id ↦ new_tenant_id tenant_id
  ]

  -- The tenant that a credential proves: that of an API key, else that of a token.
  unfoldable pub tenant_of : AuthState → Text → Option TenantId
  unfolding verify_jwt
  tenant_of state credential = elim (authenticate sha256 credential state.api_keys) [
    | some tenant ↦ some tenant
    | none ↦ elim state.jwt_key [ none ↦ none | some key ↦ verify_jwt credential key ]
  ]

  unfoldable pub require_tenant :
      {R : Type 0} → AuthState → Option Text → (TenantId → R) → Response R
  unfolding tenant_of bearer_credential
  require_tenant state header next = elim (bearer_credential header) [
    | none ↦ unauthorized
    | some credential ↦ elim (tenant_of state credential) [
      | none ↦ unauthorized
      | some tenant ↦ answered_by (next tenant)
    ]
  ]

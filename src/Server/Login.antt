-- ===== src/Server/Login.antt =====
-- Who gets past the check of crates/qaas-server/src/http_auth.rs.
use queue_as_a_service.Base.{
  ℕ, ◌≡◌, refl, ap, arith, Option, none, some, List, [], ◌∷◌, ◌++◌, get-insert, Option-cases, ◌⊎◌,
  inl, inr,
}
use queue_as_a_service.Log.{AppendIo, synced, unsynced, torn, rejected, ok, failed}
use queue_as_a_service.Types.{Text}
use queue_as_a_service.Auth.{
  TenantId, ApiKeyStore, Text-discrete, new_tenant_id, hash_key, mint, authenticate,
}
use queue_as_a_service.Server.Answers.{done, pure, refuse, step_io, or_refuse, answered, ◌>>=◌}
use queue_as_a_service.Server.State.{Setting, Server}
use queue_as_a_service.Server.Credentials.{
  AuthState, strip_prefix, bearer, bearer_credential, answered_by, verify_jwt, tenant_of,
  require_tenant, on_keys, create_api_key_impl,
}

strip_prefix-append : (p text : Text) → strip_prefix p (p ++ text) ≡ some text
unfolding strip_prefix
strip_prefix-append [] text = refl
strip_prefix-append (c ∷ cs) text = ground (arith, strip_prefix-append cs text)

strip_prefix-some : (p text rest : Text) → strip_prefix p text ≡ some rest → text ≡ p ++ rest
unfolding strip_prefix
strip_prefix-some [] text rest h = ground (arith, h)
strip_prefix-some (c ∷ cs) [] rest h = absurd (ground (arith, h))
strip_prefix-some (c ∷ cs) (d ∷ ds) rest h = ground (arith, h, strip_prefix-some cs ds rest)

module _ (sha256 : List ℕ → List ℕ) (decode : Text → Text → Option Text) where
  -- What proves a tenant: an API key of it, or, for a credential that is no API key, a token that the key
  -- of the server has signed and that names a valid tenant.
  pub data Proves (state : AuthState) (credential : Text) (tenant : TenantId) : Type 0 where
    by_key :
        authenticate sha256 credential state.api_keys ≡ some tenant → Proves state credential tenant
    by_token :
        (key name : Text)
        → authenticate sha256 credential state.api_keys ≡ none
        → state.jwt_key ≡ some key
        → decode credential key ≡ some name
        → new_tenant_id name ≡ some tenant
        → Proves state credential tenant

  tenant_of-Proves :
      (state : AuthState) (credential : Text) (tenant : TenantId)
      → tenant_of sha256 decode state credential ≡ some tenant
      → Proves state credential tenant
  unfolding tenant_of verify_jwt
  tenant_of-Proves state credential tenant h =
      elim (Option-cases (authenticate sha256 credential state.api_keys)) [
        | inr (t, e) ↦ by_key (ground (arith, e, h))
        | inl no_key ↦ elim (Option-cases state.jwt_key) [
          | inl e ↦ absurd (ground (arith, no_key, e, h))
          | inr (key, e) ↦ elim (Option-cases (decode credential key)) [
            | inl e' ↦ absurd (ground (arith, no_key, e, e', h))
            | inr (name, e') ↦ by_token key name no_key e e' (ground (arith, no_key, e, e', h))
          ]
        ]
      ]

  -- A request gets to the handlers only with a header that is "Bearer " and a credential that proves the
  -- tenant it is handed on with; every other request is answered with a 401.
  pub require_tenant-Proves :
      {R : Type 0} (state : AuthState) (header : Option Text) (next : TenantId → R) (r : R)
      → require_tenant sha256 decode state header next ≡ answered_by r
      → (credential : Text) × (tenant : TenantId) × (header ≡ some (bearer ++ credential))
        × Proves state credential tenant
        × (r ≡ next tenant)
  unfolding require_tenant bearer_credential
  require_tenant-Proves state none next r h = absurd (ground (arith, h))
  require_tenant-Proves state (some value) next r h =
      elim (Option-cases (strip_prefix bearer value)) [
        | inl e ↦ absurd (ground (arith, e, h))
        | inr (credential, e) ↦ elim (Option-cases (tenant_of sha256 decode state credential)) [
          | inl e' ↦ absurd (ground (arith, e, e', h))
          | inr (tenant, e') ↦ (
            credential,
            tenant,
            ap some (strip_prefix-some bearer value credential e),
            tenant_of-Proves state credential tenant e',
            ground (arith, e, e', h),
          )
        ]
      ]

-- A key that `mint` returns is the one that was drawn, and authenticates the tenant.
mint_stored :
    (sha256 : List ℕ → List ℕ) (io : AppendIo) (raw_key : Text) (tenant : TenantId)
    (s : ApiKeyStore)
    → let (s', result) = mint sha256 io raw_key tenant s in
      (result ≡ failed) ⊎ (result ≡ ok raw_key) × (authenticate sha256 raw_key s' ≡ some tenant)
unfolding mint authenticate
mint_stored sha256 synced raw_key tenant s =
    let k = hash_key sha256 raw_key in
    inr (refl, ground (arith, get-insert Text-discrete k k tenant s.keys))
mint_stored sha256 unsynced raw_key tenant s = inl refl
mint_stored sha256 torn raw_key tenant s = inl refl
mint_stored sha256 rejected raw_key tenant s = inl refl

module _ {F G V : Type 0} (setting : Setting F G) where
  create_api_key_stored :
      (io : AppendIo) (raw_key : Text) (tenant_id key : Text) (tenant : TenantId) (s : Server F G V)
      → (create_api_key_impl setting io raw_key none tenant_id s).1 ≡ done (key, tenant)
      → (key ≡ raw_key)
        × (new_tenant_id tenant_id ≡ some tenant)
        × (authenticate setting.sha256 raw_key
              (create_api_key_impl setting io raw_key none tenant_id s).0.api_keys
            ≡ some tenant)
  unfolding create_api_key_impl on_keys step_io or_refuse pure refuse ◌>>=◌ answered
  create_api_key_stored io raw_key tenant_id key tenant s h =
      elim (Option-cases (new_tenant_id tenant_id)) [
        | inl e ↦ absurd (ground (arith, e, h))
        | inr (t, e) ↦
            let stored = mint_stored setting.sha256 io raw_key t s.api_keys in
            (
              ground (arith, e, h, stored),
              ground (arith, e, h, stored),
              ground (arith, e, h, stored),
            )
      ]

  -- A key that the local connection has made for a tenant lets a request in as that tenant, whatever tokens
  -- the server takes.
  pub create_api_key-admits :
      {R : Type 0} (io : AppendIo) (raw_key : Text) (tenant_id key : Text) (tenant : TenantId)
      (s : Server F G V) (jwt_key : Option Text) (decode : Text → Text → Option Text)
      (next : TenantId → R)
      → (create_api_key_impl setting io raw_key none tenant_id s).1 ≡ done (key, tenant)
      → require_tenant setting.sha256 decode
          (record {
            api_keys = (create_api_key_impl setting io raw_key none tenant_id s).0.api_keys;
            jwt_key = jwt_key;
          })
          (some (bearer ++ key))
          next
        ≡ answered_by (next tenant)
  unfolding require_tenant bearer_credential tenant_of
  create_api_key-admits io raw_key tenant_id key tenant s jwt_key decode next h =
      let (same, valid, stored) = create_api_key_stored io raw_key tenant_id key tenant s h in
      ground (arith, strip_prefix-append bearer key, same, stored)

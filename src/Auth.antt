-- ===== src/Auth.antt =====
-- Tenants and API keys, crates/qaas-core/src/auth.rs. `Sha256::digest` and the printing of a UUID are
-- parameters, and the two UUIDs of a key and the course of a log write are arguments. The store's lock is
-- given up between a look at the keys, a write and a change; a call is modelled without another between.
pub mod Names
pub mod Hex
pub mod Credentials
pub mod Restart
pub mod Tests
use queue_as_a_service.Base.{
  ℕ, ◌+◌, ◌/◌, ◌%◌, Bool, true, false, ◌&&◌, ◌||◌, List, [], ◌∷◌, ◌++◌, Option, none, some, Map,
  get, remove, insert, ℕ_discrete, length, leb, ltb, ◌==◌, if◌then◌else◌,
}
use queue_as_a_service.Log.{Log, AppendIo, Result, ok, failed, append, reopen}
use queue_as_a_service.Types.{Text}

unfoldable pub max_tenant_id_len : ℕ
max_tenant_id_len = 128

pub record TenantId : Type 0 where
  pub text : Text

-- `c.is_ascii_alphanumeric() || c == '-' || c == '_'`. The bytes of a character outside ASCII are above
-- 127, so the test on bytes is the test on characters.
unfoldable pub is_name_char : ℕ → Bool
is_name_char c =
    (leb 48 c && leb c 57)
    || (leb 65 c && leb c 90)
    || (leb 97 c && leb c 122)
    || c == 45
    || c == 95

unfoldable pub all_name_chars : Text → Bool
all_name_chars [] = true
all_name_chars (c ∷ cs) = is_name_char c && all_name_chars cs

-- `TenantId::new`.
unfoldable pub new_tenant_id : Text → Option TenantId
unfolding max_tenant_id_len
new_tenant_id [] = none
new_tenant_id (c ∷ cs) =
    if leb (length (c ∷ cs)) max_tenant_id_len && all_name_chars (c ∷ cs)
    then some (record { text = c ∷ cs })
    else none

pub data WalRecord : Type 0 where
  minted : Text → TenantId → WalRecord
  revoked : Text → WalRecord

unfoldable pub Text-discrete : Discrete Text
Text-discrete = hlevel ℕ_discrete

-- A digit of `{byte:02x}`.
unfoldable pub hex_digit : ℕ → ℕ
hex_digit d = if ltb d 10 then 48 + d else 87 + d

unfoldable pub hex_encode : List ℕ → Text
hex_encode [] = []
hex_encode (byte ∷ bytes) = hex_digit (byte / 16) ∷ hex_digit (byte % 16) ∷ hex_encode bytes

-- "qaas_" before the two UUIDs.
unfoldable pub generate_raw_key : (ℕ → Text) → ℕ → ℕ → Text
generate_raw_key simple a b = (113 ∷ 97 ∷ 97 ∷ 115 ∷ 95 ∷ []) ++ simple a ++ simple b

pub record ApiKeyStore : Type 0 where
  pub keys : Map Text TenantId
  pub wal : Log WalRecord

unfoldable pub apply : Map Text TenantId → WalRecord → Map Text TenantId
apply keys (minted key_hash tenant) = insert Text-discrete key_hash tenant keys
apply keys (revoked key_hash) = remove Text-discrete key_hash keys

unfoldable pub replay_from : Map Text TenantId → List WalRecord → Map Text TenantId
replay_from keys [] = keys
replay_from keys (r ∷ rs) = replay_from (apply keys r) rs

unfoldable pub open_store : Log WalRecord → ApiKeyStore
open_store wal = record { keys = replay_from [] wal.records; wal = reopen wal }

module _ (sha256 : List ℕ → List ℕ) where
  unfoldable pub hash_key : Text → Text
  hash_key raw_key = hex_encode (sha256 raw_key)

  -- `mint`, from the drawing of the key on.
  unfoldable pub mint : AppendIo → Text → TenantId → ApiKeyStore → ApiKeyStore × Result Text
  mint io raw_key tenant s =
      let key_hash = hash_key raw_key in
      let (wal, result) = append io (minted key_hash tenant) s.wal in
      elim result [
        | failed ↦ (record s { wal = wal }, failed)
        | ok _ ↦
            (record { keys = insert Text-discrete key_hash tenant s.keys; wal = wal }, ok raw_key)
      ]

  unfoldable pub revoke : AppendIo → Text → ApiKeyStore → ApiKeyStore × Result Bool
  revoke io raw_key s =
      let key_hash = hash_key raw_key in
      elim (get Text-discrete key_hash s.keys) [
        | none ↦ (s, ok false)
        | some _ ↦
            let (wal, result) = append io (revoked key_hash) s.wal in
            elim result [
              | failed ↦ (record s { wal = wal }, failed)
              | ok _ ↦ (record { keys = remove Text-discrete key_hash s.keys; wal = wal }, ok true)
            ]
      ]

  unfoldable pub authenticate : Text → ApiKeyStore → Option TenantId
  authenticate raw_key s = get Text-discrete (hash_key raw_key) s.keys

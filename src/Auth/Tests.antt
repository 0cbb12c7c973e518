-- ===== src/Auth/Tests.antt =====
-- The key store on concrete inputs, with the identity as the digest.
use queue_as_a_service.Base.{
  ℕ, ◌≡◌, refl, true, false, List, [], ◌∷◌, none, some, get, insert, ℕ_discrete, inl, inr,
}
use queue_as_a_service.Log
use queue_as_a_service.Log.{Log, synced, torn, rejected, ok, empty}
use queue_as_a_service.Auth.{
  TenantId, WalRecord, minted, Text-discrete, open_store, replay_from, hash_key, hex_encode,
  hex_digit, apply, mint, revoke, authenticate,
}
use queue_as_a_service.Auth.Credentials.{Call, minting, revoking, run, effects, authenticate-run}
use queue_as_a_service.Auth.Restart.{authenticate-open_store, revoke_undone}

abbrev digest : List ℕ → List ℕ
digest bytes = bytes

abbrev tenant : TenantId
tenant = record { text = 97 ∷ [] }

abbrev calls : List Call
calls =
    minting synced (1 ∷ []) tenant
    ∷ minting synced (2 ∷ []) tenant
    ∷ revoking synced (1 ∷ [])
    ∷ revoking rejected (2 ∷ [])
    ∷ []

authenticate-run_example :
    authenticate digest (2 ∷ []) (run digest calls (open_store Log.empty))
    ≡ effects digest calls
        (λ h. get Text-discrete h (open_store Log.empty).keys)
        (hash_key digest (2 ∷ []))
authenticate-run_example = authenticate-run digest calls (open_store Log.empty) (2 ∷ [])

authenticate-open_store_example :
    authenticate digest (2 ∷ []) (open_store (run digest calls (open_store Log.empty)).wal)
    ≡ authenticate digest (2 ∷ []) (run digest calls (open_store Log.empty))
authenticate-open_store_example =
    authenticate-open_store digest Log.empty calls (2 ∷ [])
      (inl refl, (inl refl, (inl refl, (inr refl, tt))))

-- The log of one key.
abbrev one_key : Log WalRecord
one_key = record { records = minted (48 ∷ 49 ∷ []) tenant ∷ []; spoiled = false }

revoke_undone_example :
    let torn_store = (mint digest torn (2 ∷ []) tenant (open_store one_key)).0 in
    let revoked_store = (revoke digest synced (1 ∷ []) torn_store).0 in
    ((revoke digest synced (1 ∷ []) torn_store).1 ≡ ok true)
    × (authenticate digest (1 ∷ []) revoked_store ≡ none)
    × (authenticate digest (1 ∷ []) (open_store revoked_store.wal) ≡ some tenant)
unfolding authenticate open_store replay_from get Text-discrete hash_key hex_encode hex_digit
    ℕ_discrete apply insert
revoke_undone_example = revoke_undone digest one_key (1 ∷ []) (2 ∷ []) tenant tenant refl

abbrev bytes : List ℕ
bytes = 0 ∷ 171 ∷ []

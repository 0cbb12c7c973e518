-- ===== src/Auth/Credentials.antt =====
-- What the store of crates/qaas-core/src/auth.rs answers after any calls.
use queue_as_a_service.Base.{
  ◌≡◌, refl, arith, ℕ, List, [], ◌∷◌, Option, none, some, get, get-insert, get-remove, ite,
  Option-cases, inl, inr,
}
use queue_as_a_service.Log.{AppendIo, synced, unsynced, torn, rejected, failed, Log, append}
use queue_as_a_service.Types.{Text}
use queue_as_a_service.Auth.{
  TenantId, ApiKeyStore, WalRecord, revoked, Text-discrete, hash_key, mint, revoke, authenticate,
}

-- A call that changes the store, with the course of its log write.
pub data Call : Type 0 where
  minting : AppendIo → Text → TenantId → Call
  revoking : AppendIo → Text → Call

-- The tenant of each hash: what the store is to its callers.
abbrev pub Owners : Type 0
Owners = Text → Option TenantId

module _ (sha256 : List ℕ → List ℕ) where
  abbrev pub perform : Call → ApiKeyStore → ApiKeyStore
  perform (minting io raw tenant) s = (mint sha256 io raw tenant s).0
  perform (revoking io raw) s = (revoke sha256 io raw s).0

  abbrev pub run : List Call → ApiKeyStore → ApiKeyStore
  run [] s = s
  run (c ∷ cs) s = run cs (perform c s)

  -- A call whose write returned `Ok` sets or clears the owner of one hash; any other does nothing.
  abbrev pub effect : Call → Owners → Owners
  effect (minting synced raw tenant) f h =
      ite (Text-discrete (hash_key sha256 raw) h) (some tenant) (f h)
  effect (revoking synced raw) f h = ite (Text-discrete (hash_key sha256 raw) h) none (f h)
  effect (minting _ _ _) f h = f h
  effect (revoking _ _) f h = f h

  abbrev pub effects : List Call → Owners → Owners
  effects [] f = f
  effects (c ∷ cs) f = effects cs (effect c f)

  mint-effect :
      (io : AppendIo) (raw : Text) (tenant : TenantId) (s : ApiKeyStore) (f : Owners) (h : Text)
      → get Text-discrete h s.keys ≡ f h
      → get Text-discrete h (perform (minting io raw tenant) s).keys
        ≡ effect (minting io raw tenant) f h
  unfolding mint
  mint-effect synced raw tenant s f h e =
      ground (arith, e, get-insert Text-discrete (hash_key sha256 raw) h tenant s.keys)
  mint-effect unsynced raw tenant s f h e = e
  mint-effect torn raw tenant s f h e = e
  mint-effect rejected raw tenant s f h e = e

  -- A call of `revoke` whose write fails takes no key away.
  pub revoke_failed :
      (io : AppendIo) (raw : Text) (s : ApiKeyStore)
      → ((l : Log WalRecord) (r : WalRecord) → (append io r l).1 ≡ failed)
      → (revoke sha256 io raw s).0.keys ≡ s.keys
  unfolding revoke
  revoke_failed io raw s fails =
      elim (Option-cases (get Text-discrete (hash_key sha256 raw) s.keys)) [
        | inl absent ↦ rw (absent, revoke) refl
        | inr (t, found) ↦ rw (found, fails s.wal (revoked (hash_key sha256 raw)), revoke) refl
      ]

  revoke-effect :
      (io : AppendIo) (raw : Text) (s : ApiKeyStore) (f : Owners) (h : Text)
      → ((j : Text) → get Text-discrete j s.keys ≡ f j)
      → get Text-discrete h (perform (revoking io raw) s).keys ≡ effect (revoking io raw) f h
  unfolding revoke
  revoke-effect synced raw s f h e =
      ground (
        arith,
        e h,
        e (hash_key sha256 raw),
        get-remove Text-discrete (hash_key sha256 raw) h s.keys,
      )
  revoke-effect unsynced raw s f h e = rw (revoke_failed unsynced raw s (λ _ _. refl)) (e h)
  revoke-effect torn raw s f h e = rw (revoke_failed torn raw s (λ _ _. refl)) (e h)
  revoke-effect rejected raw s f h e = rw (revoke_failed rejected raw s (λ _ _. refl)) (e h)

  -- Every call changes the owners as `effect` says.
  pub perform-effect :
      (c : Call) (s : ApiKeyStore) (f : Owners)
      → ((j : Text) → get Text-discrete j s.keys ≡ f j)
      → (h : Text) → get Text-discrete h (perform c s).keys ≡ effect c f h
  perform-effect (minting io raw tenant) s f e h = mint-effect io raw tenant s f h (e h)
  perform-effect (revoking io raw) s f e h = revoke-effect io raw s f h e

  run-effects :
      (cs : List Call) (s : ApiKeyStore) (f : Owners)
      → ((j : Text) → get Text-discrete j s.keys ≡ f j)
      → (h : Text) → get Text-discrete h (run cs s).keys ≡ effects cs f h
  run-effects [] s f e h = e h
  run-effects (c ∷ cs) s f e h =
      run-effects cs (perform c s) (effect c f) (perform-effect c s f e) h

  -- After any calls, with any course of the log writes, a key authenticates the tenant that the calls
  -- that succeeded leave to the hash of the key, starting from the owners in the store: the last of
  -- them about this hash decides.
  pub authenticate-run :
      (cs : List Call) (s : ApiKeyStore) (raw : Text)
      → authenticate sha256 raw (run cs s)
        ≡ effects cs (λ h. get Text-discrete h s.keys) (hash_key sha256 raw)
  unfolding authenticate
  authenticate-run cs s raw = run-effects cs s _ (λ _. refl) (hash_key sha256 raw)

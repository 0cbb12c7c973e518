-- ===== src/Auth/Restart.antt =====
-- What the log of the key store of crates/qaas-core/src/auth.rs gives back after a restart.
use queue_as_a_service.Base.{
  ◌≡◌, refl, sym, arith, true, false, ℕ, List, [], ◌∷◌, ◌++◌, none, some, All, ◌⊎◌, inl, inr, get,
  get-insert, get-remove, Option-cases, ite,
}
use queue_as_a_service.Log.{synced, torn, rejected, ok, Log}
use queue_as_a_service.Types.{Text}
use queue_as_a_service.Auth.{
  TenantId, WalRecord, minted, revoked, ApiKeyStore, Text-discrete, apply, replay_from, open_store,
  hash_key, mint, revoke, authenticate,
}
use queue_as_a_service.Auth.Credentials.{Call, minting, revoking, perform, run}

replay_from-append :
    (keys : List (Text × TenantId)) (rs : List WalRecord) (r : WalRecord)
    → replay_from keys (rs ++ r ∷ []) ≡ apply (replay_from keys rs) r
unfolding replay_from
replay_from-append keys [] r = refl
replay_from-append keys (q ∷ rs) r = replay_from-append (apply keys q) rs r

-- No part of a record stands in the log, and the log holds the owner of every hash.
pub record IsDurable (s : ApiKeyStore) : Type 0 where
  pub sound : s.wal.spoiled ≡ false
  pub agrees :
      (h : Text) → get Text-discrete h (replay_from [] s.wal.records) ≡ get Text-discrete h s.keys

-- The write of the call is complete, or leaves no trace.
abbrev pub IsClean : Call → Type 0
IsClean (minting io _ _) = (io ≡ synced) ⊎ (io ≡ rejected)
IsClean (revoking io _) = (io ≡ synced) ⊎ (io ≡ rejected)

pub open_store-IsDurable : (wal : Log WalRecord) → IsDurable (open_store wal)
unfolding open_store
open_store-IsDurable wal = record { sound = refl; agrees = λ h. refl }

-- The answer after a record is the answer before it, with one hash changed.
replay-minted :
    (rs : List WalRecord) (k : Text) (t : TenantId) (h : Text)
    → get Text-discrete h (replay_from [] (rs ++ minted k t ∷ []))
      ≡ ite (Text-discrete k h) (some t) (get Text-discrete h (replay_from [] rs))
unfolding apply
replay-minted rs k t h =
    rw (replay_from-append [] rs (minted k t)) (get-insert Text-discrete k h t (replay_from [] rs))

replay-revoked :
    (rs : List WalRecord) (k h : Text)
    → get Text-discrete h (replay_from [] (rs ++ revoked k ∷ []))
      ≡ ite (Text-discrete k h) none (get Text-discrete h (replay_from [] rs))
unfolding apply
replay-revoked rs k h =
    rw (replay_from-append [] rs (revoked k)) (get-remove Text-discrete k h (replay_from [] rs))

module _ (sha256 : List ℕ → List ℕ) where
  logged_mint :
      (raw : Text) (tenant : TenantId) (s : ApiKeyStore)
      → IsDurable s
      → IsDurable (mint sha256 synced raw tenant s).0
  unfolding mint
  logged_mint raw tenant s d =
      let k = hash_key sha256 raw in
      record {
        sound = d.sound;
        agrees = λ h.
            rw (d.sound, replay-minted s.wal.records k tenant h, d.agrees h)
              (sym (get-insert Text-discrete k h tenant s.keys));
      }

  logged_revoke :
      (raw : Text) (s : ApiKeyStore) → IsDurable s → IsDurable (revoke sha256 synced raw s).0
  unfolding revoke
  logged_revoke raw s d =
      let k = hash_key sha256 raw in
      elim (Option-cases (get Text-discrete k s.keys)) [
        | inl absent ↦ rw (absent, revoke) d
        | inr (t, found) ↦
            rw (found, revoke)
              (record {
                sound = d.sound;
                agrees = λ h.
                    rw (d.sound, replay-revoked s.wal.records k h, d.agrees h)
                      (sym (get-remove Text-discrete k h s.keys));
              })
      ]

  refused_revoke :
      (raw : Text) (s : ApiKeyStore) → IsDurable s → IsDurable (revoke sha256 rejected raw s).0
  unfolding revoke
  refused_revoke raw s d = elim (Option-cases (get Text-discrete (hash_key sha256 raw) s.keys)) [
    | inl absent ↦ rw (absent, revoke) d
    | inr (t, found) ↦ rw (found, revoke) (record { sound = d.sound; agrees = d.agrees })
  ]

  pub perform-IsDurable :
      (c : Call) (s : ApiKeyStore) → IsClean c → IsDurable s → IsDurable (perform sha256 c s)
  unfolding mint
  perform-IsDurable (minting io raw t) s (inl e) d = rw e (logged_mint raw t s d)
  perform-IsDurable (minting io raw t) s (inr e) d =
      rw e (record { sound = d.sound; agrees = d.agrees })
  perform-IsDurable (revoking io raw) s (inl e) d = rw e (logged_revoke raw s d)
  perform-IsDurable (revoking io raw) s (inr e) d = rw e (refused_revoke raw s d)

  pub run-IsDurable :
      (cs : List Call) (s : ApiKeyStore)
      → All IsClean cs
      → IsDurable s
      → IsDurable (run sha256 cs s)
  run-IsDurable [] s h d = d
  run-IsDurable (c ∷ cs) s (h, hs) d =
      run-IsDurable cs (perform sha256 c s) hs (perform-IsDurable c s h d)

  -- A store that is opened from any log, and then called any number of times, with every log write
  -- complete or without a trace, answers for every key, when it is closed and opened again, as before.
  pub authenticate-open_store :
      (wal : Log WalRecord) (cs : List Call) (raw : Text)
      → All IsClean cs
      → authenticate sha256 raw (open_store (run sha256 cs (open_store wal)).wal)
        ≡ authenticate sha256 raw (run sha256 cs (open_store wal))
  unfolding authenticate open_store
  authenticate-open_store wal cs raw h =
      (run-IsDurable cs (open_store wal) h (open_store-IsDurable wal)).agrees (hash_key sha256 raw)

  -- A key that was valid when the store was opened is valid again after a restart, although `revoke` returned
  -- `true` and the key was refused, if between the two a mint left a part of its record in the log.
  pub revoke_undone :
      (wal : Log WalRecord) (raw other : Text) (t u : TenantId)
      → authenticate sha256 raw (open_store wal) ≡ some t
      → let torn_store = (mint sha256 torn other u (open_store wal)).0 in
        let revoked_store = (revoke sha256 synced raw torn_store).0 in
        ((revoke sha256 synced raw torn_store).1 ≡ ok true)
        × (authenticate sha256 raw revoked_store ≡ none)
        × (authenticate sha256 raw (open_store revoked_store.wal) ≡ some t)
  unfolding authenticate open_store mint revoke
  revoke_undone wal raw other t u h =
      let k = hash_key sha256 raw in
      (
        rw (h, revoke) refl,
        rw (h, revoke) (ground (arith, get-remove Text-discrete k k (replay_from [] wal.records))),
        rw (h, revoke) h,
      )

-- ===== src/Raft/Snapshots.antt =====
-- A snapshot of crates/qaas-core/src/raft/state_machine.rs stands for the entries that it replaces.
use queue_as_a_service.Base.{
  ◌≡◌, refl, sym, ap, ◌∙◌, arith, List, [], ◌∷◌, ◌++◌, Option, some, Map, Option-cases, inl, inr,
}
use queue_as_a_service.Types.{Text}
use queue_as_a_service.Raft.{Entry}
use queue_as_a_service.Raft.StateMachine.{
  StateMachineStore, StateMachineData, StoredSnapshot, apply, apply_all, apply_entry,
  build_snapshot, install_snapshot,
}

module _ {L M : Type 0} where
  apply_all-append :
      (es fs : List (Entry L M)) (d : StateMachineData L M)
      → apply_all (es ++ fs) d ≡ (
        (apply_all fs (apply_all es d).0).0,
        (apply_all es d).1 ++ (apply_all fs (apply_all es d).0).1,
      )
  unfolding apply_all
  apply_all-append [] fs d = refl
  apply_all-append (e ∷ es) fs d =
      let rest = apply_all-append es fs (apply_entry e d).0 in rw rest refl

  -- A snapshot has what was applied, and the map in its encoding.
  build_snapshot-contents :
      (encode : Map Text Text → Option Text) (s : StateMachineStore L M)
      (snapshot : StoredSnapshot L M)
      → (build_snapshot encode s).1 ≡ some snapshot
      → (encode s.contents.kv ≡ some snapshot.bytes)
        × (snapshot.meta.last_log_id ≡ s.contents.last_applied_log)
        × (snapshot.meta.last_membership ≡ s.contents.last_membership)
  unfolding build_snapshot
  build_snapshot-contents encode s snapshot h = elim (Option-cases (encode s.contents.kv)) [
    | inl e ↦ absurd (ground (arith, e, h))
    | inr (bytes, e) ↦ (ground (arith, e, h), ground (arith, e, h), ground (arith, e, h))
  ]

  -- A node that installs a snapshot which another node has built after some entries, and then applies the
  -- entries behind it, has the state and gives the responses of a node that applies all of them, where
  -- what is encoded is decoded again.
  pub install_snapshot-apply :
      (encode : Map Text Text → Option Text) (decode : Text → Option (Map Text Text))
      (es fs : List (Entry L M)) (leader follower : StateMachineStore L M)
      (snapshot : StoredSnapshot L M)
      → ((kv : Map Text Text) (bytes : Text) → encode kv ≡ some bytes → decode bytes ≡ some kv)
      → (build_snapshot encode (apply es leader).0).1 ≡ some snapshot
      → (installed : StateMachineStore L M) × (install_snapshot decode snapshot follower
          ≡ some installed)
        × ((apply fs installed).0.contents ≡ (apply (es ++ fs) leader).0.contents)
        × ((apply (es ++ fs) leader).1 ≡ (apply es leader).1 ++ (apply fs installed).1)
  unfolding apply install_snapshot
  install_snapshot-apply encode decode es fs leader follower snapshot law built =
      let d = (apply_all es leader.contents).0 in
      let (encoded, last, members) =
        build_snapshot-contents encode (apply es leader).0 snapshot built in
      let installed : StateMachineStore L M = record follower {
        contents = record {
          last_applied_log = snapshot.meta.last_log_id;
          last_membership = snapshot.meta.last_membership;
          kv = d.kv;
        };
        current_snapshot = some snapshot;
      } in
      let same : installed.contents ≡ d = rw (last, members) refl in
      let whole = apply_all-append es fs leader.contents in
      (
        installed,
        rw (law d.kv snapshot.bytes encoded, install_snapshot) refl,
        ap (λ c. (apply_all fs c).0) same ∙ sym (ap (λ p. p.0) whole),
        ap (λ p. p.1) whole
            ∙ sym (ap (λ c. (apply_all es leader.contents).1 ++ (apply_all fs c).1) same),
      )

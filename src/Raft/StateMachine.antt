-- ===== src/Raft/StateMachine.antt =====
-- `StateMachineStore` of crates/qaas-core/src/raft/state_machine.rs: a map of texts, and its snapshots. The
-- coding of the map by serde_json is a parameter.
use queue_as_a_service.Base.{ℕ, ◌+◌, List, [], ◌∷◌, Option, none, some, Map, get, insert, u64}
use queue_as_a_service.Types.{Text}
use queue_as_a_service.Auth.{Text-discrete}
use queue_as_a_service.Raft.{LogId, set_value, Response, blank, normal, membership, Entry}

-- `StoredMembership`: a membership with the id of its entry.
pub record StoredMembership (L M : Type 0) : Type 0 where
  pub log_id : Option (LogId L)
  pub membership : M

pub record StateMachineData (L M : Type 0) : Type 0 where
  pub last_applied_log : Option (LogId L)
  pub last_membership : StoredMembership L M
  pub kv : Map Text Text

-- The id of a snapshot is the printed form of the last id with a number that is counted up.
pub record SnapshotMeta (L M : Type 0) : Type 0 where
  pub last_log_id : Option (LogId L)
  pub last_membership : StoredMembership L M
  pub snapshot_id : Option (LogId L) × ℕ

pub record StoredSnapshot (L M : Type 0) : Type 0 where
  pub meta : SnapshotMeta L M
  pub bytes : Text

pub record StateMachineStore (L M : Type 0) : Type 0 where
  pub contents : StateMachineData L M
  pub current_snapshot : Option (StoredSnapshot L M)
  pub snapshot_idx : ℕ

module _ {L M : Type 0} where
  unfoldable pub get_value : Text → StateMachineStore L M → Option Text
  get_value key s = get Text-discrete key s.contents.kv

  unfoldable pub applied_state : StateMachineStore L M → Option (LogId L) × StoredMembership L M
  applied_state s = (s.contents.last_applied_log, s.contents.last_membership)

  -- One turn of the loop of `apply`.
  unfoldable pub apply_entry : Entry L M → StateMachineData L M → StateMachineData L M × Response
  apply_entry e d = elim e.payload [
    | blank ↦ (record d { last_applied_log = some e.log_id }, record { value = none })
    | normal (set_value key value) ↦ (
      record d { last_applied_log = some e.log_id; kv = insert Text-discrete key value d.kv },
      record { value = some value },
    )
    | membership m ↦ (
      record d {
        last_applied_log = some e.log_id;
        last_membership = record { log_id = some e.log_id; membership = m };
      },
      record { value = none },
    )
  ]

  unfoldable pub apply_all :
      List (Entry L M) → StateMachineData L M → StateMachineData L M × List Response
  unfolding apply_entry
  apply_all [] d = (d, [])
  apply_all (e ∷ es) d =
      let (d', r) = apply_entry e d in let (d'', rs) = apply_all es d' in (d'', r ∷ rs)

  unfoldable pub apply :
      List (Entry L M) → StateMachineStore L M → StateMachineStore L M × List Response
  unfolding apply_all
  apply entries s =
      let (d, responses) = apply_all entries s.contents in (record s { contents = d }, responses)

  unfoldable pub get_current_snapshot : StateMachineStore L M → Option (StoredSnapshot L M)
  get_current_snapshot s = s.current_snapshot

  -- `encode` fails where `to_vec` does.
  unfoldable pub build_snapshot :
      (Map Text Text → Option Text)
      → StateMachineStore L M
      → StateMachineStore L M × Option (StoredSnapshot L M)
  build_snapshot encode s =
      let d = s.contents in
      elim (encode d.kv) [
        | none ↦ (s, none)
        | some bytes ↦
            let snapshot : StoredSnapshot L M = record {
              meta = record {
                last_log_id = d.last_applied_log;
                last_membership = d.last_membership;
                snapshot_id = (d.last_applied_log, s.snapshot_idx);
              };
              bytes = bytes;
            } in
            (
              record s {
                current_snapshot = some snapshot;
                snapshot_idx = u64 (s.snapshot_idx + 1);
              },
              some snapshot,
            )
      ]

  -- A snapshot that cannot be read changes nothing.
  unfoldable pub install_snapshot :
      (Text → Option (Map Text Text))
      → StoredSnapshot L M
      → StateMachineStore L M
      → Option (StateMachineStore L M)
  install_snapshot decode snapshot s = elim (decode snapshot.bytes) [
    | none ↦ none
    | some kv ↦ some (record s {
      contents = record {
        last_applied_log = snapshot.meta.last_log_id;
        last_membership = snapshot.meta.last_membership;
        kv = kv;
      };
      current_snapshot = some snapshot;
    })
  ]

-- ===== src/Envelope.antt =====
-- The envelope of a message, crates/qaas-types/src/envelope.rs and version.rs. The coding by serde_json is a
-- parameter; a fresh id and the reading of the clock are arguments.
pub mod Versions
pub mod Tests
use queue_as_a_service.Base.{
  ℕ, ◌+◌, ◌*◌, ◌/◌, min, Bool, Option, none, some, List, [], Map, insert, ◌==◌, if◌then◌else◌,
}
use queue_as_a_service.Types.{MessageId, Text, IdempotencyKey}
use queue_as_a_service.Auth.{Text-discrete}

pub record SchemaVersion : Type 0 where
  pub major : ℕ
  pub minor : ℕ

unfoldable pub current : SchemaVersion
current = record { major = 1; minor = 0 }

unfoldable pub is_compatible_with : SchemaVersion → SchemaVersion → Bool
is_compatible_with reader other = reader.major == other.major

-- `Timestamp::now`, from the milliseconds since the epoch.
unfoldable pub timestamp_of : ℕ → ℕ
timestamp_of millis = min millis 18446744073709551615

-- `MessageId::timestamp`, from the parts that the uuid crate reads.
unfoldable pub id_timestamp : ℕ → ℕ → ℕ
id_timestamp seconds subsec_nanos = seconds * 1000 + subsec_nanos / 1000000

pub record Envelope (T : Type 0) : Type 0 where
  pub version : SchemaVersion
  pub id : MessageId
  pub created_at : ℕ
  pub idempotency_key : Option IdempotencyKey
  pub trace_id : Option ℕ
  pub headers : Map Text Text
  pub payload : T

pub data EnvelopeError : Type 0 where
  incompatible_version : SchemaVersion → SchemaVersion → EnvelopeError
  serialize_failed deserialize_failed : EnvelopeError

pub data Decoded (A : Type 0) : Type 0 where
  decoded : A → Decoded A
  undecoded : EnvelopeError → Decoded A

module _ {T : Type 0} where
  unfoldable pub new_envelope : MessageId → ℕ → T → Envelope T
  unfolding current
  new_envelope id created_at payload = record {
    version = current;
    id = id;
    created_at = created_at;
    idempotency_key = none;
    trace_id = none;
    headers = [];
    payload = payload;
  }

  unfoldable pub with_idempotency_key : IdempotencyKey → Envelope T → Envelope T
  with_idempotency_key key e = record e { idempotency_key = some key }

  unfoldable pub with_trace_id : ℕ → Envelope T → Envelope T
  with_trace_id trace_id e = record e { trace_id = some trace_id }

  unfoldable pub with_header : Text → Text → Envelope T → Envelope T
  with_header key value e = record e { headers = insert Text-discrete key value e.headers }

  unfoldable pub to_json : (Envelope T → Option Text) → Envelope T → Decoded Text
  to_json encode e = elim (encode e) [
    | none ↦ undecoded serialize_failed
    | some bytes ↦ decoded bytes
  ]

  unfoldable pub from_json : (Text → Option (Envelope T)) → Text → Decoded (Envelope T)
  unfolding is_compatible_with current
  from_json decode bytes = elim (decode bytes) [
    | none ↦ undecoded deserialize_failed
    | some e ↦
        if is_compatible_with current e.version
        then decoded e
        else undecoded (incompatible_version e.version current)
  ]

-- ===== src/Envelope/Versions.antt =====
-- What a reader gets of an envelope of crates/qaas-types/src/envelope.rs that was written.
use queue_as_a_service.Base.{◌≡◌, arith, Option, some, ◌==◌, if◌then◌else◌, Option-cases, inl, inr}
use queue_as_a_service.Types.{Text}
use queue_as_a_service.Envelope.{
  Envelope, decoded, undecoded, incompatible_version, current, to_json, from_json,
}

-- Bytes that were written from an envelope are read as the same envelope if its major version is 1, and
-- refused with both versions otherwise, whatever the minor version, where what is encoded is decoded again.
pub from_json-to_json :
    {T : Type 0} (encode : Envelope T → Option Text) (decode : Text → Option (Envelope T))
    (e : Envelope T) (bytes : Text)
    → ((e' : Envelope T) (bytes' : Text) → encode e' ≡ some bytes' → decode bytes' ≡ some e')
    → to_json encode e ≡ decoded bytes
    → from_json decode bytes ≡ (
        if e.version.major == 1
        then decoded e
        else undecoded (incompatible_version e.version current))
unfolding to_json from_json current
from_json-to_json encode decode e bytes law h = elim (Option-cases (encode e)) [
  | inl none_is ↦ absurd (ground (arith, none_is, h))
  | inr (written, is_written) ↦
      let same : encode e ≡ some bytes = ground (arith, is_written, h) in
      ground (arith, law e bytes same)
]

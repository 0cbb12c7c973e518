-- ===== src/Envelope/Tests.antt =====
-- An envelope on a concrete input: one whose major version is not this build's.
use queue_as_a_service.Base.{
  ℕ, ◌≡◌, refl, arith, Option, none, some, Map, [], ◌∷◌, ◌==◌, if◌then◌else◌,
}
use queue_as_a_service.Types.{Text, IdempotencyKey}
use queue_as_a_service.Envelope.{
  Envelope, decoded, undecoded, incompatible_version, current, to_json, from_json,
}
use queue_as_a_service.Envelope.Versions.{from_json-to_json}

abbrev future : Envelope ℕ
future = record {
  version = record { major = 2; minor = 1 };
  id = 7;
  created_at = 0;
  idempotency_key = none;
  trace_id = none;
  headers = [];
  payload = 5;
}

-- A coding of the envelopes without keys and headers.
abbrev plain : Envelope ℕ → Option IdempotencyKey → Option ℕ → Map Text Text → Option Text
plain e none none [] =
    some (e.version.major ∷ e.version.minor ∷ e.id ∷ e.created_at ∷ e.payload ∷ [])
plain e _ _ _ = none

abbrev encode : Envelope ℕ → Option Text
encode e = plain e e.idempotency_key e.trace_id e.headers

abbrev decode : Text → Option (Envelope ℕ)
decode (major ∷ minor ∷ id ∷ created_at ∷ payload ∷ []) = some (record {
  version = record { major = major; minor = minor };
  id = id;
  created_at = created_at;
  idempotency_key = none;
  trace_id = none;
  headers = [];
  payload = payload;
})
decode _ = none

decode-encode : (e : Envelope ℕ) (bytes : Text) → encode e ≡ some bytes → decode bytes ≡ some e
decode-encode e bytes h = parts e.idempotency_key e.trace_id e.headers refl refl refl
  where
    parts :
        (key : Option IdempotencyKey) (trace_id : Option ℕ) (headers : Map Text Text)
        → e.idempotency_key ≡ key
        → e.trace_id ≡ trace_id
        → e.headers ≡ headers
        → decode bytes ≡ some e
    parts none none [] hk ht hh = ground (arith, h, hk, ht, hh)
    parts _ _ _ hk ht hh = absurd (ground (arith, h, hk, ht, hh))

from_json-to_json_example : from_json decode (2 ∷ 1 ∷ 7 ∷ 0 ∷ 5 ∷ []) ≡ (
    if future.version.major == 1
    then decoded future
    else undecoded (incompatible_version future.version current))
unfolding to_json
from_json-to_json_example =
    from_json-to_json encode decode future (2 ∷ 1 ∷ 7 ∷ 0 ∷ 5 ∷ []) decode-encode refl

-- ===== src/Types.antt =====
-- The identifiers of crates/qaas-types/src/ids.rs.
use queue_as_a_service.Base.{ℕ, List, [], ◌∷◌, Option, none, some, ℕ_discrete}

-- A UUID, as its 128-bit number. The uuid crate makes fresh ones.
abbrev pub MessageId : Type 0
MessageId = ℕ

-- Text as its bytes.
abbrev pub Text : Type 0
Text = List ℕ

pub record IdempotencyKey : Type 0 where
  pub text : Text

unfoldable pub IdempotencyKey-discrete : Discrete IdempotencyKey
IdempotencyKey-discrete = hlevel ℕ_discrete

-- `IdempotencyKey::new`.
unfoldable pub new_key : Text → Option IdempotencyKey
new_key [] = none
new_key (b ∷ bs) = some (record { text = b ∷ bs })

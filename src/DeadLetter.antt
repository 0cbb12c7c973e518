-- ===== src/DeadLetter.antt =====
-- The dead-letter queue, crates/qaas-core/src/dead_letter.rs: a map of dead letters behind a log. Items
-- have the type `T`, JSON values the type `V`.
pub mod Durability
pub mod Tests
use mathlib.Core.List.{foldl}
use queue_as_a_service.Base.{
  ℕ, Bool, true, false, List, [], ◌∷◌, map, Option, none, some, ℕ_discrete, Map, get, remove,
  insert, values, length,
}
use queue_as_a_service.Log.{Log, AppendIo, Result, ok, failed, append, reopen}
use queue_as_a_service.Types.{MessageId, IdempotencyKey, Text}

pub data TriageClassification : Type 0 where
  transient permanent : TriageClassification

pub record TriageVerdict : Type 0 where
  pub classification : TriageClassification
  pub reason : Text
  pub triaged_at : ℕ

pub record DeadLetter (T V : Type 0) : Type 0 where
  pub id : MessageId
  pub idempotency_key : Option IdempotencyKey
  pub item : T
  pub delivery_count : ℕ
  pub last_error : Option Text
  pub dead_lettered_at : ℕ
  pub checkpoint : Option V
  pub triage : Option TriageVerdict

pub data WalRecord (T V : Type 0) : Type 0 where
  dead_letter : DeadLetter T V → WalRecord T V
  removed : MessageId → WalRecord T V
  annotated : MessageId → TriageVerdict → WalRecord T V

pub record DeadLetterQueue (T V : Type 0) : Type 0 where
  pub entries : Map MessageId (DeadLetter T V)
  pub wal : Log (WalRecord T V)

abbrev pub Entries : Type 0 → Type 0 → Type 0
Entries T V = Map MessageId (DeadLetter T V)

module _ {T V : Type 0} where
  -- `get_mut` of an entry, and the write of its verdict.
  unfoldable pub set_triage : MessageId → TriageVerdict → Entries T V → Entries T V
  set_triage id verdict entries = elim (get ℕ_discrete id entries) [
    | none ↦ entries
    | some letter ↦ insert ℕ_discrete id (record letter { triage = some verdict }) entries
  ]

  unfoldable pub apply : Entries T V → WalRecord T V → Entries T V
  apply entries (dead_letter letter) = insert ℕ_discrete letter.id letter entries
  apply entries (removed id) = remove ℕ_discrete id entries
  apply entries (annotated id verdict) = set_triage id verdict entries

  unfoldable pub replay : List (WalRecord T V) → Entries T V
  replay = foldl apply []

  unfoldable pub open_queue : Log (WalRecord T V) → DeadLetterQueue T V
  open_queue wal = record { entries = replay wal.records; wal = reopen wal }

  unfoldable pub add_letter :
      AppendIo → DeadLetter T V → DeadLetterQueue T V → DeadLetterQueue T V × Result (Unit {0})
  add_letter io letter q =
      let (wal, result) = append io (dead_letter letter) q.wal in
      let logged : DeadLetterQueue T V = record q { wal = wal } in
      elim result [
        | ok _ ↦ (record logged { entries = insert ℕ_discrete letter.id letter q.entries }, ok tt)
        | failed ↦ (logged, failed)
      ]

  unfoldable pub list : DeadLetterQueue T V → List (DeadLetter T V)
  list q = values q.entries

  unfoldable pub ids_and_keys : DeadLetterQueue T V → List (MessageId × Option IdempotencyKey)
  ids_and_keys q = map (λ letter. (letter.id, letter.idempotency_key)) (values q.entries)

  unfoldable pub len : DeadLetterQueue T V → ℕ
  len q = length q.entries

  -- The entry leaves the map before its removal is logged.
  unfoldable pub take_letter :
      AppendIo
      → MessageId
      → DeadLetterQueue T V
      → DeadLetterQueue T V × Result (Option (DeadLetter T V))
  take_letter io id q = elim (get ℕ_discrete id q.entries) [
    | none ↦ (q, ok none)
    | some letter ↦
        let (wal, result) = append io (removed id) q.wal in
        let q' : DeadLetterQueue T V = record {
          entries = remove ℕ_discrete id q.entries;
          wal = wal;
        } in
        elim result [ ok _ ↦ (q', ok (some letter)) | failed ↦ (q', failed) ]
  ]

  -- What `annotate` does once its record is written, under the lock taken again.
  unfoldable pub finish_annotate :
      MessageId → TriageVerdict → DeadLetterQueue T V → DeadLetterQueue T V × Bool
  finish_annotate id verdict q = elim (get ℕ_discrete id q.entries) [
    | none ↦ (q, false)
    | some _ ↦ (record q { entries = set_triage id verdict q.entries }, true)
  ]

  unfoldable pub annotate :
      AppendIo → MessageId → TriageVerdict → DeadLetterQueue T V → DeadLetterQueue T V × Result Bool
  unfolding finish_annotate
  annotate io id verdict q = elim (get ℕ_discrete id q.entries) [
    | none ↦ (q, ok false)
    | some _ ↦
        let (wal, result) = append io (annotated id verdict) q.wal in
        let logged : DeadLetterQueue T V = record q { wal = wal } in
        let (finished, present) = finish_annotate id verdict logged in
        elim result [ ok _ ↦ (finished, ok present) | failed ↦ (logged, failed) ]
  ]

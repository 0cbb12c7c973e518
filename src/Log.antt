-- ===== src/Log.antt =====
-- The write-ahead log as its clients in crates/qaas-core/src see it: the records that `Wal::open` would
-- return. `Wal.Crash` is about the bytes of the file.
use queue_as_a_service.Base.{Bool, true, false, List, [], ◌∷◌, ◌++◌, if◌then◌else◌}

-- How one call of `Wal::append` goes: it returns `Ok`; all is written and the sync fails; a part of the
-- frame is written; nothing is, as the record cannot be encoded.
pub data AppendIo : Type 0 where
  synced unsynced torn rejected : AppendIo

pub data Result {ℓ} (A : Type ℓ) : Type ℓ where
  ok : A → Result A
  failed : Result A

-- Behind a part of a frame, `spoiled`, no further record is found again.
pub record Log (R : Type 0) : Type 0 where
  pub records : List R
  pub spoiled : Bool

abbrev pub empty : {R : Type 0} → Log R
empty = record { records = []; spoiled = false }

abbrev pub add_record : {R : Type 0} → R → Log R → Log R
add_record r l = record l { records = if l.spoiled then l.records else l.records ++ r ∷ [] }

-- `Wal::append`.
abbrev pub append : {R : Type 0} → AppendIo → R → Log R → Log R × Result (Unit {0})
append synced r l = (add_record r l, ok tt)
append unsynced r l = (add_record r l, failed)
append torn r l = (record l { spoiled = true }, failed)
append rejected r l = (l, failed)

-- `Wal::open` cuts the part of a frame off.
abbrev pub reopen : {R : Type 0} → Log R → Log R
reopen l = record l { spoiled = false }

-- ===== src/Audit.antt =====
-- The audit logger, crates/qaas-core/src/audit.rs: a bounded channel that `log` fills and never waits for,
-- and workers that write what they take from it. A worker takes one record and then writes it; other steps
-- come between. The channel is not closed while the logger exists.
pub mod Accounts
pub mod Draining
pub mod Tests
use queue_as_a_service.Base.{
  ℕ, zero, suc, ◌+◌, max, Bool, List, [], ◌∷◌, ◌++◌, Option, none, some, length, ltb, u64,
  if◌then◌else◌,
}
use queue_as_a_service.Log.{Log, AppendIo, ok, failed, append, reopen}

pub record AuditLoggerConfig : Type 0 where
  pub workers : ℕ
  pub channel_capacity : ℕ

unfoldable pub default_config : AuditLoggerConfig
default_config = record { workers = 4; channel_capacity = 4096 }

pub record AuditRecord (E : Type 0) : Type 0 where
  pub at : ℕ
  pub event : E

-- The logger with its workers: `in_flight` has the records that workers took and have not written yet.
pub record AuditLogger (E : Type 0) : Type 0 where
  pub channel : List (AuditRecord E)
  pub channel_capacity : ℕ
  pub workers : ℕ
  pub in_flight : List (AuditRecord E)
  pub wal : Log (AuditRecord E)
  pub dropped : ℕ
  pub written : ℕ

-- What the scheduler runs: a call of `log`, a worker's `recv`, or the end of the write of the n-th record
-- in flight.
pub data Step (E : Type 0) : Type 0 where
  logging : ℕ → E → Step E
  receiving : Step E
  writing : AppendIo → ℕ → Step E

module _ {E : Type 0} where
  unfoldable pub open_logger : AuditLoggerConfig → Log (AuditRecord E) → AuditLogger E
  open_logger config wal = record {
    channel = [];
    channel_capacity = config.channel_capacity;
    workers = max config.workers 1;
    in_flight = [];
    wal = reopen wal;
    dropped = 0;
    written = 0;
  }

  -- `AuditLogger::log`, with the reading of the clock.
  unfoldable pub log : ℕ → E → AuditLogger E → AuditLogger E
  log at event l =
      let r : AuditRecord E = record { at = at; event = event } in
      if ltb (length l.channel) l.channel_capacity
      then record l { channel = l.channel ++ r ∷ [] }
      else record l { dropped = u64 (l.dropped + 1) }

  -- An idle worker takes the first record, if there are both.
  unfoldable pub receive : AuditLogger E → AuditLogger E
  receive l = elim l.channel [
    | [] ↦ l
    | r ∷ rest ↦
        if ltb (length l.in_flight) l.workers
        then record l { channel = rest; in_flight = l.in_flight ++ r ∷ [] }
        else l
  ]

  unfoldable pub pick : ℕ → List (AuditRecord E) → Option (AuditRecord E × List (AuditRecord E))
  pick n [] = none
  pick zero (r ∷ rs) = some (r, rs)
  pick (suc n) (r ∷ rs) = elim (pick n rs) [
    | none ↦ none
    | some found ↦ some (found.0, r ∷ found.1)
  ]

  -- The write of a worker, and what it counts.
  unfoldable pub write : AppendIo → ℕ → AuditLogger E → AuditLogger E
  write io n l = elim (pick n l.in_flight) [
    | none ↦ l
    | some found ↦
        let (wal, result) = append io found.0 l.wal in
        elim result [
          | failed ↦ record l { in_flight = found.1; wal = wal }
          | ok _ ↦ record l { in_flight = found.1; wal = wal; written = u64 (l.written + 1) }
        ]
  ]

  unfoldable pub perform : Step E → AuditLogger E → AuditLogger E
  unfolding log receive write
  perform (logging at event) l = log at event l
  perform receiving l = receive l
  perform (writing io n) l = write io n l

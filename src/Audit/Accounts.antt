-- ===== src/Audit/Accounts.antt =====
-- Where every event of crates/qaas-core/src/audit.rs is, at any time.
use queue_as_a_service.Base.{
  ℕ, zero, suc, ◌+◌, ◌≤◌, ◌<◌, ◌≡◌, refl, arith, List, [], ◌∷◌, none, some, length, length-append,
  ltb, ◌⊎◌, inl, inr, Bool-cases, Option-cases,
}
use queue_as_a_service.Log.{Log, AppendIo, synced, unsynced, torn, rejected, ok, failed, append}
use queue_as_a_service.Audit.{
  AuditLoggerConfig, AuditRecord, AuditLogger, Step, logging, receiving, writing, open_logger, log,
  receive, pick, write, perform,
}

-- The logger, with the number of calls of `log` and of the writes that failed so far.
pub record Ledger (E : Type 0) : Type 0 where
  pub logger : AuditLogger E
  pub calls : ℕ
  pub failures : ℕ

-- Whether `Wal::append` returns an error.
abbrev pub fails : AppendIo → ℕ
fails synced = 0
fails _ = 1

pub append-cases :
    {R : Type 0} (io : AppendIo) (r : R) (l : Log R)
    → ((append io r l).1 ≡ ok tt) × (fails io ≡ 0) ⊎ ((append io r l).1 ≡ failed) × (fails io ≡ 1)
append-cases synced r l = inl (refl, refl)
append-cases unsynced r l = inr (refl, refl)
append-cases torn r l = inr (refl, refl)
append-cases rejected r l = inr (refl, refl)

module _ {E : Type 0} where
  -- Whether a step is a write that fails of a record that is in flight.
  abbrev failure : Step E → AuditLogger E → ℕ
  failure (logging _ _) l = 0
  failure receiving l = 0
  failure (writing io n) l = elim (pick n l.in_flight) [ none ↦ 0 | some _ ↦ fails io ]

  abbrev is_call : Step E → ℕ
  is_call (logging _ _) = 1
  is_call receiving = 0
  is_call (writing _ _) = 0

  abbrev pub advance : Step E → Ledger E → Ledger E
  advance step s = record {
    logger = perform step s.logger;
    calls = s.calls + is_call step;
    failures = s.failures + failure step s.logger;
  }

  abbrev pub run : List (Step E) → Ledger E → Ledger E
  run [] s = s
  run (step ∷ steps) s = run steps (advance step s)

  abbrev pub opened : AuditLoggerConfig → Log (AuditRecord E) → Ledger E
  opened config wal = record { logger = open_logger config wal; calls = 0; failures = 0 }

  -- Each call of `log` is counted as written, counted as dropped, lost in a write that failed, or still
  -- in the channel or with a worker; the channel and the workers hold no more than they can.
  pub record IsAccounted (s : Ledger E) : Type 0 where
    pub parts :
        s.calls
        ≡ s.logger.written
          + s.logger.dropped
          + s.failures
          + length s.logger.in_flight
          + length s.logger.channel
    pub fits : length s.logger.channel ≤ s.logger.channel_capacity
    pub busy : length s.logger.in_flight ≤ s.logger.workers

  length-pick :
      (n : ℕ) (rs : List (AuditRecord E)) (found : AuditRecord E × List (AuditRecord E))
      → pick n rs ≡ some found
      → length rs ≡ suc (length found.1)
  unfolding pick
  length-pick n [] found h = absurd (ground (arith, h))
  length-pick zero (r ∷ rs) found h = ground (arith, h)
  length-pick (suc n) (r ∷ rs) found h = elim (Option-cases (pick n rs)) [
    | inl none_left ↦ absurd (ground (arith, none_left, h))
    | inr (deeper, e) ↦ ground (arith, length-pick n rs deeper e, e, h)
  ]

  log-IsAccounted :
      (at : ℕ) (event : E) (s : Ledger E)
      → s.calls + 1 < 18446744073709551616
      → IsAccounted s
      → IsAccounted (advance (logging at event) s)
  unfolding perform log
  log-IsAccounted at event s small a =
      elim (Bool-cases (ltb (length s.logger.channel) s.logger.channel_capacity)) [
        | inl room ↦
            let long = length-append s.logger.channel (record { at = at; event = event } ∷ []) in
            record {
              parts = ground (arith, room, long, a.parts);
              fits = ground (arith, room, long);
              busy = ground (arith, room, a.busy);
            }
        | inr full ↦ record {
          parts = ground (arith, full, a.parts, small);
          fits = ground (arith, full, a.fits);
          busy = ground (arith, full, a.busy);
        }
      ]

  receive-front :
      (s : Ledger E) (channel : List (AuditRecord E))
      → s.logger.channel ≡ channel
      → IsAccounted s
      → IsAccounted (advance receiving s)
  unfolding perform receive
  receive-front s [] e a = record {
    parts = ground (arith, e, a.parts);
    fits = ground (arith, e, a.fits);
    busy = ground (arith, e, a.busy);
  }
  receive-front s (r ∷ rest) e a =
      elim (Bool-cases (ltb (length s.logger.in_flight) s.logger.workers)) [
        | inl idle ↦
            let long = length-append s.logger.in_flight (r ∷ []) in
            record {
              parts = ground (arith, e, idle, long, a.parts);
              fits = ground (arith, e, idle, a.fits);
              busy = ground (arith, e, idle, long, a.busy);
            }
        | inr all_busy ↦ record {
          parts = ground (arith, e, all_busy, a.parts);
          fits = ground (arith, e, all_busy, a.fits);
          busy = ground (arith, e, all_busy, a.busy);
        }
      ]

  write-IsAccounted :
      (io : AppendIo) (n : ℕ) (s : Ledger E)
      → s.calls < 18446744073709551616
      → IsAccounted s
      → IsAccounted (advance (writing io n) s)
  unfolding perform write
  write-IsAccounted io n s small a = elim (Option-cases (pick n s.logger.in_flight)) [
    | inl e ↦ record {
      parts = ground (arith, e, a.parts);
      fits = ground (arith, e, a.fits);
      busy = ground (arith, e, a.busy);
    }
    | inr (found, e) ↦
        let long = length-pick n s.logger.in_flight found e in
        let course = append-cases io found.0 s.logger.wal in
        record {
          parts = ground (arith, e, long, a.parts, small, course);
          fits = ground (arith, e, a.fits, course);
          busy = ground (arith, e, long, a.busy, course);
        }
  ]

  advance-IsAccounted :
      (step : Step E) (s : Ledger E)
      → s.calls + 1 < 18446744073709551616
      → IsAccounted s
      → IsAccounted (advance step s)
  advance-IsAccounted (logging at event) s small a = log-IsAccounted at event s small a
  advance-IsAccounted receiving s small a = receive-front s s.logger.channel refl a
  advance-IsAccounted (writing io n) s small a = write-IsAccounted io n s (omega (arith, small)) a

  is_call_le : (step : Step E) → is_call step ≤ 1
  is_call_le (logging _ _) = omega arith
  is_call_le receiving = omega arith
  is_call_le (writing _ _) = omega arith

  pub run-IsAccounted :
      (steps : List (Step E)) (s : Ledger E)
      → s.calls + length steps < 18446744073709551616
      → IsAccounted s
      → IsAccounted (run steps s)
  run-IsAccounted [] s small a = a
  run-IsAccounted (step ∷ steps) s small a =
      run-IsAccounted steps (advance step s) (omega (arith, small, is_call_le step))
        (advance-IsAccounted step s (omega (arith, small)) a)

  -- From the opening of a logger on, in any course of fewer than 2^64 calls of `log`, takings and writes,
  -- each call is counted once as written or dropped, or its write failed, or it is still in the channel
  -- or with a worker; and the channel and the workers hold no more than the configuration says.
  pub opened-IsAccounted :
      (config : AuditLoggerConfig) (wal : Log (AuditRecord E)) (steps : List (Step E))
      → length steps < 18446744073709551616
      → IsAccounted (run steps (opened config wal))
  unfolding open_logger
  opened-IsAccounted config wal steps small =
      run-IsAccounted steps (opened config wal) (omega (arith, small))
        (record { parts = refl; fits = omega arith; busy = omega arith })

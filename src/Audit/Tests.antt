-- ===== src/Audit/Tests.antt =====
-- The audit logger on a concrete course: a channel for two events and one worker.
use queue_as_a_service.Base.{ℕ, ◌+◌, ◌≡◌, refl, arith, List, [], ◌∷◌}
use queue_as_a_service.Log
use queue_as_a_service.Log.{synced, torn}
use queue_as_a_service.Audit.{
  AuditLoggerConfig, Step, logging, receiving, writing, open_logger, pick, perform,
}
use queue_as_a_service.Audit.Accounts.{Ledger, IsAccounted, run, opened, opened-IsAccounted}
use queue_as_a_service.Audit.Draining.{catch_up, catch_up-partition}

abbrev config : AuditLoggerConfig
config = record { workers = 1; channel_capacity = 2 }

abbrev steps : List (Step ℕ)
steps =
    logging 1 10 ∷ receiving ∷ logging 2 20 ∷ logging 3 30 ∷ logging 4 40 ∷ writing synced 0 ∷ []

abbrev course : Ledger ℕ
course = run steps (opened config Log.empty)

course-IsAccounted : IsAccounted course
course-IsAccounted = opened-IsAccounted config Log.empty steps (omega arith)

opened-IsAccounted_example : IsAccounted (run steps (opened config Log.empty))
opened-IsAccounted_example = opened-IsAccounted config Log.empty steps (omega arith)

catch_up-partition_example :
    let after = run (catch_up [] (synced ∷ torn ∷ [])) course in
    (after.logger.channel ≡ [])
    × (after.logger.in_flight ≡ [])
    × (after.logger.written + after.logger.dropped + after.failures ≡ course.calls)
unfolding open_logger perform pick
catch_up-partition_example =
    catch_up-partition [] (synced ∷ torn ∷ []) course course-IsAccounted (omega arith) refl refl
      (omega arith)

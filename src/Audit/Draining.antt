-- ===== src/Audit/Draining.antt =====
-- The workers of crates/qaas-core/src/audit.rs catch up.
use queue_as_a_service.Base.{◌+◌, ◌≤◌, ◌<◌, ◌≡◌, refl, ◌∙◌, arith, List, [], ◌∷◌, length}
use queue_as_a_service.Log.{AppendIo}
use queue_as_a_service.Audit.{
  AuditRecord, AuditLogger, Step, receiving, writing, receive, pick, write, perform,
}
use queue_as_a_service.Audit.Accounts.{
  Ledger, append-cases, IsAccounted, advance, run, run-IsAccounted,
}

-- The writes of what is in flight, then a taking and a write for each record in the channel; each write
-- goes as it goes.
abbrev pub catch_up : {E : Type 0} → List AppendIo → List AppendIo → List (Step E)
catch_up [] [] = []
catch_up [] (io ∷ ios) = receiving ∷ writing io 0 ∷ catch_up [] ios
catch_up (io ∷ ios) rest = writing io 0 ∷ catch_up ios rest

module _ {E : Type 0} where
  -- A write of the first record in flight takes it away and leaves the rest.
  write_first :
      (io : AppendIo) (r : AuditRecord E) (rs : List (AuditRecord E)) (l : AuditLogger E)
      → l.in_flight ≡ r ∷ rs
      → ((write io 0 l).in_flight ≡ rs)
        × ((write io 0 l).channel ≡ l.channel)
        × ((write io 0 l).workers ≡ l.workers)
  unfolding write pick
  write_first io r rs l e =
      let course = append-cases io r l.wal in
      (ground (arith, e, course), ground (arith, e, course), ground (arith, e, course))

  receive_first :
      (r : AuditRecord E) (rs : List (AuditRecord E)) (l : AuditLogger E)
      → l.channel ≡ r ∷ rs
      → l.in_flight ≡ []
      → 1 ≤ l.workers
      → ((receive l).in_flight ≡ r ∷ [])
        × ((receive l).channel ≡ rs)
        × ((receive l).workers ≡ l.workers)
  unfolding receive
  receive_first r rs l e idle some_worker = (
    ground (arith, e, idle, some_worker),
    ground (arith, e, idle, some_worker),
    ground (arith, e, idle, some_worker),
  )

  -- Nothing is left in the channel or in flight, and `log` was not called.
  abbrev pub HasCaughtUp : Ledger E → Ledger E → Type 0
  HasCaughtUp before after =
      (after.logger.channel ≡ []) × (after.logger.in_flight ≡ []) × (after.calls ≡ before.calls)

  drain_channel :
      (ios : List AppendIo) (rs : List (AuditRecord E)) (s : Ledger E)
      → s.logger.channel ≡ rs
      → s.logger.in_flight ≡ []
      → length ios ≡ length rs
      → 1 ≤ s.logger.workers
      → HasCaughtUp s (run (catch_up [] ios) s)
  unfolding perform
  drain_channel [] [] s e idle same w = (e, idle, refl)
  drain_channel [] (r ∷ rs) s e idle same w = absurd (omega (arith, same))
  drain_channel (io ∷ ios) [] s e idle same w = absurd (omega (arith, same))
  drain_channel (io ∷ ios) (r ∷ rs) s e idle same w =
      let (taken, left, kept) = receive_first r rs s.logger e idle w in
      let (written, left', kept') = write_first io r [] (receive s.logger) taken in
      let (empty, none_left, calls) =
        drain_channel ios rs (advance (writing io 0) (advance receiving s)) (left' ∙ left) written
          (omega (arith, same)) (omega (arith, kept, kept', w)) in
      (empty, none_left, omega (arith, calls))

  drain_all :
      (ios ios' : List AppendIo) (rs : List (AuditRecord E)) (s : Ledger E)
      → s.logger.in_flight ≡ rs
      → length ios ≡ length rs
      → length ios' ≡ length s.logger.channel
      → 1 ≤ s.logger.workers
      → HasCaughtUp s (run (catch_up ios ios') s)
  unfolding perform
  drain_all [] ios' [] s e same same' w = drain_channel ios' s.logger.channel s refl e same' w
  drain_all [] ios' (r ∷ rs) s e same same' w = absurd (omega (arith, same))
  drain_all (io ∷ ios) ios' [] s e same same' w = absurd (omega (arith, same))
  drain_all (io ∷ ios) ios' (r ∷ rs) s e same same' w =
      let (written, left, kept) = write_first io r rs s.logger e in
      let (empty, none_left, calls) =
        drain_all ios ios' rs (advance (writing io 0) s) written (omega (arith, same))
          (ground (arith, same', left)) (omega (arith, kept, w)) in
      (empty, none_left, omega (arith, calls))

  -- Once the workers have caught up, at any time and however their writes go, nothing is left in the channel
  -- or with a worker, and each call of `log` so far was written, was dropped, or was lost in a write that
  -- failed.
  pub catch_up-partition :
      (ios ios' : List AppendIo) (s : Ledger E)
      → IsAccounted s
      → 1 ≤ s.logger.workers
      → length ios ≡ length s.logger.in_flight
      → length ios' ≡ length s.logger.channel
      → s.calls + length (catch_up {E = E} ios ios') < 18446744073709551616
      → let after = run (catch_up ios ios') s in
        (after.logger.channel ≡ [])
        × (after.logger.in_flight ≡ [])
        × (after.logger.written + after.logger.dropped + after.failures ≡ s.calls)
  catch_up-partition ios ios' s a w same same' small =
      let (empty, idle, calls) = drain_all ios ios' s.logger.in_flight s refl same same' w in
      let counted = run-IsAccounted (catch_up ios ios') s small a in
      (empty, idle, ground (arith, counted.parts, empty, idle, calls))

-- ===== src/ConsumerGroup/Attempts.antt =====
-- How often a message is delivered, where the policy of the group gives a number of attempts.
mod Calls
mod Failures
pub mod Claims
use mathlib.Core.List.{foldl}
use queue_as_a_service.Base.{
  ℕ, ◌+◌, ◌≤◌, ◌<◌, ◌≡◌, refl, sym, ap, ◌∙◌, true, false, Bool, List, [], ◌∷◌, ◌++◌, Option, none,
  some, arith, ℕ_discrete, Map, get, insert, remove, ite, dec_le, All, All-append, All-ite,
  Option-cases, Bool-cases, inl, inr, u32, ◌==◌, leb,
}
use queue_as_a_service.Log.{AppendIo, Result, ok, failed, append, synced, unsynced, torn, rejected}
use queue_as_a_service.Types.{MessageId, Text, IdempotencyKey, IdempotencyKey-discrete}
use queue_as_a_service.DeadLetter.{DeadLetter, take_letter}
use queue_as_a_service.Retry.{Float, RetryPolicy, is_exhausted}
use queue_as_a_service.ConsumerGroup.State.{
  WalRecord, enqueued, acked, dead_lettered, checkpointed, Pending, Leased, Delayed, LeaseToken,
  Claim, Group, notify_one, notify_waiters,
}
use queue_as_a_service.ConsumerGroup.Recovery.{
  open_group, apply, replay, start, attach, Replay, find_pending, remove_pending,
}
use queue_as_a_service.ConsumerGroup.Enqueue.{enqueue_with_id_and_key, write_enqueue_record}
use queue_as_a_service.ConsumerGroup.Resolve.{
  Attempt, ack, nack, checkpoint, finish_checkpoint, resolve_failed_delivery, delayed_of,
}
use queue_as_a_service.ConsumerGroup.Stream.{publish_partial_result}
use queue_as_a_service.ConsumerGroup.Letters.{
  annotate_dead_letter, reprocess_dead_letter, purge_dead_letter,
}
use queue_as_a_service.ConsumerGroup.Claiming.{
  Round, claimed, waits, ready, still_delayed, lease_first, claim_round, reclaim_expired_leases,
  resolve_expired, expired, unexpired, promote_ready_delayed, timed_out, promoted,
}
use queue_as_a_service.ConsumerGroup.Course.{
  Call, enqueues, acks, nacks, checkpoints, publishes, annotates, reprocesses, purges, Course,
  none_yet, calls, misses, takes,
}
use queue_as_a_service.ConsumerGroup.Restart.{restart}

-- What waits has been delivered less than `m` times, and what is leased at most `m` times.
pub record IsWithin {F T V : Type 0} (m : ℕ) (g : Group F T V) : Type 0 where
  pub policy : g.retry_policy.max_attempts ≡ some m
  pub pending : All (λ p. p.delivery_count < m) g.pending
  pub leased : All (λ e. e.1.delivery_count ≤ m) g.leased
  pub delayed : All (λ d. d.delivery_count < m) g.delayed

module _ {T V : Type 0} (m : ℕ) where
  abbrev AllHeld : Map MessageId (Leased T V) → Type 0
  AllHeld = All (λ e. e.1.delivery_count ≤ m)

  get-IsWithin :
      (id : MessageId) (ls : Map MessageId (Leased T V)) (lease : Leased T V)
      → AllHeld ls
      → get ℕ_discrete id ls ≡ some lease
      → lease.delivery_count ≤ m
  unfolding get
  get-IsWithin id [] lease h e = absurd (ground (arith, e))
  get-IsWithin id ((j, l) ∷ ls) lease (h, hs) e =
      go (ℕ_discrete j id) e (get-IsWithin id ls lease hs)
    where
      go :
          (d : Dec (j ≡ id))
          → ite d (some l) (get ℕ_discrete id ls) ≡ some lease
          → (get ℕ_discrete id ls ≡ some lease → lease.delivery_count ≤ m)
          → lease.delivery_count ≤ m
      go (yes _) same rest = ground (arith, same, h)
      go (no _) same rest = rest same

  remove-IsWithin :
      (id : MessageId) (ls : Map MessageId (Leased T V))
      → AllHeld ls
      → AllHeld (remove ℕ_discrete id ls)
  unfolding remove
  remove-IsWithin id [] h = tt
  remove-IsWithin id ((j, l) ∷ ls) (h, hs) =
      let rest = remove-IsWithin id ls hs in All-ite _ (ℕ_discrete j id) _ _ rest (h, rest)

  expired-IsWithin :
      (now : ℕ) (ls : Map MessageId (Leased T V)) → AllHeld ls → AllHeld (expired now ls)
  unfolding expired
  expired-IsWithin now [] h = tt
  expired-IsWithin now ((j, l) ∷ ls) (h, hs) =
      let rest = expired-IsWithin now ls hs in
      All-ite _ (dec_le l.expires_at now) _ _ (h, rest) rest

  unexpired-IsWithin :
      (now : ℕ) (ls : Map MessageId (Leased T V)) → AllHeld ls → AllHeld (unexpired now ls)
  unfolding unexpired
  unexpired-IsWithin now [] h = tt
  unexpired-IsWithin now ((j, l) ∷ ls) (h, hs) =
      let rest = unexpired-IsWithin now ls hs in
      All-ite _ (dec_le l.expires_at now) _ _ rest (h, rest)

  ready-IsWithin :
      (now : ℕ) (ds : List (Delayed T V))
      → All (λ d. d.delivery_count < m) ds
      → All (λ p. p.delivery_count < m) (ready now ds)
  unfolding ready
  ready-IsWithin now [] h = tt
  ready-IsWithin now (d ∷ ds) (h, hs) =
      let rest = ready-IsWithin now ds hs in
      All-ite _ (dec_le d.available_at now) _ _ (h, rest) rest

  still_delayed-IsWithin :
      (now : ℕ) (ds : List (Delayed T V))
      → All (λ d. d.delivery_count < m) ds
      → All (λ d. d.delivery_count < m) (still_delayed now ds)
  unfolding still_delayed
  still_delayed-IsWithin now [] h = tt
  still_delayed-IsWithin now (d ∷ ds) (h, hs) =
      let rest = still_delayed-IsWithin now ds hs in
      All-ite _ (dec_le d.available_at now) _ _ rest (h, rest)

module _ {T V : Type 0} where
  -- What is replayed has not been delivered yet.
  abbrev AllNew : List (Pending T V) → Type 0
  AllNew = All (λ p. p.delivery_count ≡ 0)

  remove_pending_new :
      (id : MessageId) (ps : List (Pending T V)) → AllNew ps → AllNew (remove_pending id ps)
  unfolding remove_pending
  remove_pending_new id [] h = tt
  remove_pending_new id (p ∷ ps) (h, hs) =
      All-ite _ (ℕ_discrete p.id id) _ _ hs (h, remove_pending_new id ps hs)

  apply_new :
      (r : Replay T V) (record_ : WalRecord T V)
      → AllNew r.pending
      → AllNew (apply r record_).pending
  unfolding apply
  apply_new r (enqueued id key item) h = All-append _ r.pending _ h (refl, tt)
  apply_new r (acked id) h = elim (Option-cases (find_pending id r.pending)) [
    | inl e ↦ rw (e, apply) h
    | inr (entry, e) ↦ rw (e, apply) (remove_pending_new id r.pending h)
  ]
  apply_new r (dead_lettered id) h = remove_pending_new id r.pending h
  apply_new r (checkpointed id state) h = h

  replay_new :
      (rs : List (WalRecord T V)) (r : Replay T V)
      → AllNew r.pending
      → AllNew (foldl apply r rs).pending
  replay_new [] r h = h
  replay_new (x ∷ rs) r h = replay_new rs (apply r x) (apply_new r x h)

  attach-IsWithin :
      (m : ℕ) (ps : List (Pending T V)) (states : Map MessageId V)
      → 1 ≤ m
      → AllNew ps
      → All (λ p. p.delivery_count < m) (attach ps states)
  unfolding attach
  attach-IsWithin m [] states some_ h = tt
  attach-IsWithin m (p ∷ ps) states some_ (h, hs) =
      (omega (arith, some_, h), attach-IsWithin m ps _ some_ hs)

module _ {F T V : Type 0} (m : ℕ) where
  restart-IsWithin :
      (timeout : ℕ) (policy : RetryPolicy F) (g : Group F T V)
      → policy.max_attempts ≡ some m
      → 1 ≤ m
      → IsWithin m (restart timeout policy g)
  unfolding open_group replay
  restart-IsWithin timeout policy g attempts some_ = record {
    policy = attempts;
    pending = attach-IsWithin m _ _ some_ (replay_new g.wal.records start tt);
    leased = tt;
    delayed = tt;
  }

  same-IsWithin :
      (g h : Group F T V)
      → IsWithin m g
      → h.retry_policy ≡ g.retry_policy
      → h.pending ≡ g.pending
      → h.leased ≡ g.leased
      → h.delayed ≡ g.delayed
      → IsWithin m h
  same-IsWithin g h w policy pending leased delayed = record {
    policy = ap (λ p. p.max_attempts) policy ∙ w.policy;
    pending = rw pending w.pending;
    leased = rw leased w.leased;
    delayed = rw delayed w.delayed;
  }

-- ===== src/ConsumerGroup/Restart.antt =====
-- What a restart makes of a group whose logs agree with its memory.
use queue_as_a_service.Base.{ℕ, ◌≡◌, refl, List, [], ◌∷◌, arith, ℕ_discrete, Map, get, remove}
use queue_as_a_service.Log.{empty}
use queue_as_a_service.Types.{MessageId}
use queue_as_a_service.Retry.{RetryPolicy}
use queue_as_a_service.DeadLetter
use queue_as_a_service.DeadLetter.{TriageVerdict, annotate, open_queue}
use queue_as_a_service.ConsumerGroup.State.{Pending, Group}
use queue_as_a_service.ConsumerGroup.Recovery.{replay, attach, open_group}
use queue_as_a_service.ConsumerGroup.Messages.{
  Message, in_pending, IsSingle, SameMessages, SameMessages-IsSingle,
}
use queue_as_a_service.ConsumerGroup.Durability.{logged, IsDurable}
use queue_as_a_service.ConsumerGroup.Keyed.{IsKept}

-- What holds between two calls.
pub record IsConsistent {F T V : Type 0} (g : Group F T V) : Type 0 where
  pub single : IsSingle g
  pub durable : IsDurable g
  pub kept : IsKept g.dlq

module _ {T V : Type 0} where
  -- A checkpoint is no part of the message.
  pub in_pending-attach :
      (w : Message T → ℕ) (ps : List (Pending T V)) (states : Map MessageId V)
      → in_pending w (attach ps states) ≡ in_pending w ps
  unfolding attach
  in_pending-attach w [] states = refl
  in_pending-attach w (p ∷ ps) states =
      omega (arith, in_pending-attach w ps (remove ℕ_discrete p.id states))

module _ {F T V : Type 0} (visibility_timeout : ℕ) (policy : RetryPolicy F) where
  -- What a restart finds.
  abbrev pub restart : Group F T V → Group F T V
  restart g = open_group g.wal g.dlq.wal visibility_timeout policy

  unfoldable pub fresh_group : Group F T V
  unfolding open_group
  fresh_group = open_group empty empty visibility_timeout policy

  -- A restart finds the messages of a consistent group, with their payloads and keys, and is consistent
  -- again: what was pending, leased or delayed is pending.
  pub restart-IsConsistent :
      (g : Group F T V) → IsConsistent g → SameMessages (restart g) g × IsConsistent (restart g)
  unfolding open_group open_queue
  restart-IsConsistent g c = (
    same,
    record {
      single = SameMessages-IsSingle (restart g) g same c.single;
      durable = record { sound = refl; agrees = λ w. omega (arith, recovered w) };
      kept = record {
        keyed = rw c.kept.durable.agrees c.kept.keyed;
        durable = record { sound = refl; agrees = refl };
      };
    },
  )
    where
      recovered : (w : Message T → ℕ) → in_pending w (restart g).pending ≡ logged w g.wal.records
      recovered w =
          in_pending-attach w (replay g.wal.records).pending (replay g.wal.records).checkpoints

      same : SameMessages (restart g) g
      same w = rw c.kept.durable.agrees (omega (arith, recovered w, c.durable.agrees w))

  pub fresh_group-IsConsistent : IsConsistent fresh_group
  unfolding open_group open_queue fresh_group attach replay DeadLetter.replay get
  fresh_group-IsConsistent = record {
    single = λ id. omega arith;
    durable = record { sound = refl; agrees = λ w. refl };
    kept = record {
      keyed = λ id l h. ground (arith, h);
      durable = record { sound = refl; agrees = refl };
    };
  }

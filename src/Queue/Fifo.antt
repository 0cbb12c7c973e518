-- ===== src/Queue/Fifo.antt =====
-- `FifoQueue`, crates/qaas-core/src/queue/fifo.rs. A call that waits is one round of its loop, which gives
-- `none` where the source waits for `Notify`.
use queue_as_a_service.Base.{
  ℕ, Bool, true, List, [], ◌∷◌, ◌++◌, Option, none, some, length, ltb, if◌then◌else◌,
}

-- The calls of `notify_one`.
pub data Signal : Type 0 where
  not_empty not_full : Signal

pub record FifoQueue (T : Type 0) : Type 0 where
  pub items : List T
  pub capacity : Option ℕ
  pub signals : List Signal

module _ {T : Type 0} where
  unfoldable pub unbounded : FifoQueue T
  unbounded = record { items = []; capacity = none; signals = [] }

  unfoldable pub bounded : ℕ → FifoQueue T
  bounded capacity = record { items = []; capacity = some capacity; signals = [] }

  unfoldable pub len : FifoQueue T → ℕ
  len q = length q.items

  unfoldable pub has_room : FifoQueue T → ℕ → Bool
  has_room q current_len = elim q.capacity [ none ↦ true | some cap ↦ ltb current_len cap ]

  unfoldable pub enqueue_round : T → FifoQueue T → Option (FifoQueue T)
  unfolding has_room
  enqueue_round item q =
      if has_room q (length q.items)
      then some (record q { items = q.items ++ item ∷ []; signals = not_empty ∷ q.signals })
      else none

  -- `Err` gives the item back.
  unfoldable pub try_enqueue : T → FifoQueue T → FifoQueue T × Option T
  unfolding has_room
  try_enqueue item q =
      if has_room q (length q.items)
      then (record q { items = q.items ++ item ∷ []; signals = not_empty ∷ q.signals }, none)
      else (q, some item)

  unfoldable pub dequeue_round : FifoQueue T → Option (FifoQueue T × T)
  dequeue_round q = elim q.items [
    | [] ↦ none
    | item ∷ rest ↦ some (record q { items = rest; signals = not_full ∷ q.signals }, item)
  ]

  unfoldable pub try_dequeue : FifoQueue T → FifoQueue T × Option T
  try_dequeue q = elim q.items [
    | [] ↦ (q, none)
    | item ∷ rest ↦ (record q { items = rest; signals = not_full ∷ q.signals }, some item)
  ]

-- ===== src/Queue/Priority.antt =====
-- `PriorityQueue`, crates/qaas-core/src/queue/priority.rs. `BinaryHeap` stands as the list of its entries:
-- `pop` takes the one that `cmp` puts first, as the standard library promises.
pub mod Order
use queue_as_a_service.Base.{
  ℕ, ◌+◌, Bool, true, List, [], ◌∷◌, Option, none, some, length, ltb, u64, if◌then◌else◌, ◌==◌,
  ◌||◌, ◌&&◌,
}
use queue_as_a_service.Queue.Fifo.{Signal, not_empty, not_full}

pub record Entry (T : Type 0) : Type 0 where
  pub priority : ℕ
  pub sequence : ℕ
  pub item : T

pub record PriorityQueue (T : Type 0) : Type 0 where
  pub items : List (Entry T)
  pub capacity : Option ℕ
  pub next_sequence : ℕ
  pub signals : List Signal

module _ {T : Type 0} where
  -- `cmp` of two entries is `Greater`.
  unfoldable pub is_before : Entry T → Entry T → Bool
  is_before a b =
      ltb b.priority a.priority || ((a.priority == b.priority) && ltb a.sequence b.sequence)

  -- The greatest entry, and the others.
  unfoldable pub pop : List (Entry T) → Option (Entry T × List (Entry T))
  pop [] = none
  pop (e ∷ es) = elim (pop es) [
    | none ↦ some (e, es)
    | some (best, rest) ↦ if is_before best e then some (best, e ∷ rest) else some (e, best ∷ rest)
  ]

  unfoldable pub unbounded : PriorityQueue T
  unbounded = record { items = []; capacity = none; next_sequence = 0; signals = [] }

  unfoldable pub bounded : ℕ → PriorityQueue T
  bounded capacity = record {
    items = [];
    capacity = some capacity;
    next_sequence = 0;
    signals = [];
  }

  unfoldable pub len : PriorityQueue T → ℕ
  len q = length q.items

  unfoldable pub has_room : PriorityQueue T → ℕ → Bool
  has_room q current_len = elim q.capacity [ none ↦ true | some cap ↦ ltb current_len cap ]

  -- `entry`, which draws the next number, and the `push` of it.
  unfoldable pub push_entry : T → ℕ → PriorityQueue T → PriorityQueue T
  push_entry item priority q = record q {
    items = record { priority = priority; sequence = q.next_sequence; item = item } ∷ q.items;
    next_sequence = u64 (q.next_sequence + 1);
    signals = not_empty ∷ q.signals;
  }

  -- A round of the loop gives `none` where the source waits.
  unfoldable pub enqueue_round : T → ℕ → PriorityQueue T → Option (PriorityQueue T)
  unfolding has_room push_entry
  enqueue_round item priority q =
      if has_room q (length q.items) then some (push_entry item priority q) else none

  unfoldable pub try_enqueue : T → ℕ → PriorityQueue T → PriorityQueue T × Option T
  unfolding has_room push_entry
  try_enqueue item priority q =
      if has_room q (length q.items) then (push_entry item priority q, none) else (q, some item)

  unfoldable pub dequeue_round : PriorityQueue T → Option (PriorityQueue T × T)
  unfolding pop
  dequeue_round q = elim (pop q.items) [
    | none ↦ none
    | some (entry, rest) ↦
        some (record q { items = rest; signals = not_full ∷ q.signals }, entry.item)
  ]

  unfoldable pub try_dequeue : PriorityQueue T → PriorityQueue T × Option T
  unfolding pop
  try_dequeue q = elim (pop q.items) [
    | none ↦ (q, none)
    | some (entry, rest) ↦
        (record q { items = rest; signals = not_full ∷ q.signals }, some entry.item)
  ]

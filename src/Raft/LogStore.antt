-- ===== src/Raft/LogStore.antt =====
-- `LogStore` of crates/qaas-core/src/raft/log_store.rs: entries by index, the vote, and the last entry that was
-- purged.
use queue_as_a_service.Base.{
  ℕ, zero, suc, ◌+◌, Bool, List, [], ◌∷◌, Option, none, some, Map, get, insert, ℕ_discrete, ltb,
  leb, if◌then◌else◌,
}
use queue_as_a_service.Raft.{LogId, Entry}

pub record LogStore (L M W : Type 0) : Type 0 where
  pub log : Map ℕ (Entry L M)
  pub vote : Option W
  pub last_purged : Option (LogId L)

pub record LogState (L : Type 0) : Type 0 where
  pub last_purged_log_id : Option (LogId L)
  pub last_log_id : Option (LogId L)

module _ {L M : Type 0} where
  -- The entries at `n` indices from the first one on, in order; missing ones are passed over.
  unfoldable pub entries_from : ℕ → ℕ → Map ℕ (Entry L M) → List (Entry L M)
  entries_from first zero log = []
  entries_from first (suc n) log =
      let rest = entries_from (first + 1) n log in
      elim (get ℕ_discrete first log) [ none ↦ rest | some entry ↦ entry ∷ rest ]

  -- The entry with the greatest index.
  unfoldable pub last_entry : Map ℕ (Entry L M) → Option (ℕ × Entry L M)
  last_entry [] = none
  last_entry ((index, entry) ∷ log) = elim (last_entry log) [
    | none ↦ some (index, entry)
    | some later ↦ if ltb index later.0 then some later else some (index, entry)
  ]

  unfoldable pub insert_all : List (Entry L M) → Map ℕ (Entry L M) → Map ℕ (Entry L M)
  insert_all [] log = log
  insert_all (e ∷ es) log = insert_all es (insert ℕ_discrete e.log_id.index e log)

  -- The two halves of `BTreeMap::split_off`.
  unfoldable pub below : ℕ → Map ℕ (Entry L M) → Map ℕ (Entry L M)
  below n [] = []
  below n ((index, entry) ∷ log) =
      let rest = below n log in if ltb index n then (index, entry) ∷ rest else rest

  unfoldable pub from : ℕ → Map ℕ (Entry L M) → Map ℕ (Entry L M)
  from n [] = []
  from n ((index, entry) ∷ log) =
      let rest = from n log in if leb n index then (index, entry) ∷ rest else rest

module _ {L M W : Type 0} where
  unfoldable pub new_store : LogStore L M W
  new_store = record { log = []; vote = none; last_purged = none }

  -- For a range of `n` indices.
  unfoldable pub try_get_log_entries : ℕ → ℕ → LogStore L M W → List (Entry L M)
  unfolding entries_from
  try_get_log_entries first n s = entries_from first n s.log

  unfoldable pub get_log_state : LogStore L M W → LogState L
  unfolding last_entry
  get_log_state s = record {
    last_purged_log_id = s.last_purged;
    last_log_id = elim (last_entry s.log) [ none ↦ s.last_purged | some last ↦ some last.1.log_id ];
  }

  unfoldable pub save_vote : W → LogStore L M W → LogStore L M W
  save_vote vote s = record s { vote = some vote }

  unfoldable pub read_vote : LogStore L M W → Option W
  read_vote s = s.vote

  unfoldable pub append : List (Entry L M) → LogStore L M W → LogStore L M W
  unfolding insert_all
  append entries s = record s { log = insert_all entries s.log }

  unfoldable pub truncate : LogId L → LogStore L M W → LogStore L M W
  unfolding below
  truncate log_id s = record s { log = below log_id.index s.log }

  -- `precedes` is `<` on log ids.
  unfoldable pub purge : (LogId L → LogId L → Bool) → LogId L → LogStore L M W → LogStore L M W
  unfolding from
  purge precedes log_id s =
      let purged : Option (LogId L) = elim s.last_purged [
        | none ↦ some log_id
        | some old ↦ if precedes old log_id then some log_id else some old
      ] in
      record s { log = from (log_id.index + 1) s.log; last_purged = purged }

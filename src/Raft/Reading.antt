-- ===== src/Raft/Reading.antt =====
-- What is read from the log of crates/qaas-core/src/raft/log_store.rs after it was changed.
use queue_as_a_service.Base.{
  ℕ, ◌+◌, ◌<◌, ◌≡◌, refl, arith, Bool, List, [], ◌∷◌, none, Map, get, insert, get-insert,
  ℕ_discrete, ite, length, ltb, leb, if◌then◌else◌, dec_lt,
}
use queue_as_a_service.Raft.{LogId, Entry}
use queue_as_a_service.Raft.LogStore.{
  LogStore, entries_from, insert_all, below, from, try_get_log_entries, append, truncate, purge,
}

module _ {L M : Type 0} where
  -- The entries have consecutive indices from the first one on.
  abbrev pub IsRun : ℕ → List (Entry L M) → Type 0
  IsRun first [] = Unit
  IsRun first (e ∷ es) = (e.log_id.index ≡ first) × IsRun (first + 1) es

  get-insert_all_before :
      (i first : ℕ) (es : List (Entry L M)) (log : Map ℕ (Entry L M))
      → IsRun first es
      → i < first
      → get ℕ_discrete i (insert_all es log) ≡ get ℕ_discrete i log
  unfolding insert_all
  get-insert_all_before i first [] log run h = refl
  get-insert_all_before i first (e ∷ es) log (at, run) h =
      let rest =
        get-insert_all_before i (first + 1) es (insert ℕ_discrete e.log_id.index e log) run
          (omega (arith, h)) in
      ground (arith, rest, at, h, get-insert ℕ_discrete e.log_id.index i e log)

  entries_from-insert_all :
      (first : ℕ) (es : List (Entry L M)) (log : Map ℕ (Entry L M))
      → IsRun first es
      → entries_from first (length es) (insert_all es log) ≡ es
  unfolding entries_from insert_all
  entries_from-insert_all first [] log run = refl
  entries_from-insert_all first (e ∷ es) log (at, run) =
      let log' = insert ℕ_discrete e.log_id.index e log in
      let rest = entries_from-insert_all (first + 1) es log' run in
      let here = get-insert_all_before first (first + 1) es log' run (omega arith) in
      ground (arith, rest, here, at, get-insert ℕ_discrete e.log_id.index first e log)

  get-below :
      (n i : ℕ) (log : Map ℕ (Entry L M))
      → get ℕ_discrete i (below n log) ≡ (if ltb i n then get ℕ_discrete i log else none)
  unfolding below get
  get-below n i [] = ground arith
  get-below n i ((j, e) ∷ log) = ground (arith, get-below n i log)

  get-from :
      (n i : ℕ) (log : Map ℕ (Entry L M))
      → get ℕ_discrete i (from n log) ≡ (if leb n i then get ℕ_discrete i log else none)
  unfolding from get
  get-from n i [] = ground arith
  get-from n i ((j, e) ∷ log) = ground (arith, get-from n i log)

module _ {L M W : Type 0} where
  -- Entries with consecutive indices that are appended are read back, in order, whatever the log held at
  -- these indices before; and an index before them is not changed.
  pub try_get_log_entries-append :
      (first : ℕ) (es : List (Entry L M)) (s : LogStore L M W)
      → IsRun first es
      → (try_get_log_entries first (length es) (append es s) ≡ es)
        × ((i : ℕ) → i < first → get ℕ_discrete i (append es s).log ≡ get ℕ_discrete i s.log)
  unfolding try_get_log_entries append
  try_get_log_entries-append first es s run = (
    entries_from-insert_all first es s.log run,
    λ i h. get-insert_all_before i first es s.log run h,
  )

  -- A truncation takes the entries from its index on, a purge those up to its index, and nothing else: after
  -- both an entry is there if and only if it was there and lies between them.
  pub get-truncate-purge :
      (precedes : LogId L → LogId L → Bool) (old new : LogId L) (i : ℕ) (s : LogStore L M W)
      → get ℕ_discrete i (truncate new (purge precedes old s)).log
        ≡ ite (dec_lt old.index i) (ite (dec_lt i new.index) (get ℕ_discrete i s.log) none) none
  unfolding truncate purge
  get-truncate-purge precedes old new i s =
      ground (
        arith,
        get-below new.index i (from (old.index + 1) s.log),
        get-from (old.index + 1) i s.log,
      )

-- ===== src/Raft/Membership.antt =====
-- The membership watcher of crates/qaas-core/src/raft/membership.rs. What the openraft crate does for a change
-- is a parameter; sets of nodes are lists, read by their members only.
use queue_as_a_service.Base.{
  ℕ, Bool, true, false, ◌||◌, List, [], ◌∷◌, Option, none, some, Map, map, ◌==◌, if◌then◌else◌,
}

-- A handle to a cluster: its voters, and calls that return whether they succeeded.
pub record RaftHandle (S N : Type 0) : Type 0 where
  pub voter_ids : S → List ℕ
  pub add_learner : ℕ → N → S → S × Bool
  pub add_voters : Map ℕ N → S → S × Bool
  pub remove_voters : List ℕ → S → S × Bool

pub record MembershipDiff : Type 0 where
  pub joined : List ℕ
  pub left : List ℕ

abbrev pub empty_diff : MembershipDiff
empty_diff = record { joined = []; left = [] }

pub data ReconcileError : Type 0 where
  source_failed change_membership_failed : ReconcileError
  add_learner_failed : ℕ → ReconcileError

pub data Reconciliation : Type 0 where
  reconciled : MembershipDiff → Reconciliation
  gave_up : ReconcileError → Reconciliation

unfoldable pub contains : ℕ → List ℕ → Bool
contains i [] = false
contains i (j ∷ js) = i == j || contains i js

abbrev pub ids : {N : Type 0} → Map ℕ N → List ℕ
ids = map (λ e. e.0)

unfoldable pub joining : {N : Type 0} → Map ℕ N → List ℕ → Map ℕ N
unfolding contains
joining [] voters = []
joining ((id, node) ∷ desired) voters =
    let rest = joining desired voters in if contains id voters then rest else (id, node) ∷ rest

unfoldable pub leaving : List ℕ → List ℕ → List ℕ
unfolding contains
leaving [] desired = []
leaving (id ∷ voters) desired =
    let rest = leaving voters desired in if contains id desired then rest else id ∷ rest

module _ {S N : Type 0} (raft : RaftHandle S N) where
  open raft use {voter_ids, add_learner, add_voters, remove_voters}

  -- The first node that cannot be added stops the loop.
  unfoldable pub add_learners : Map ℕ N → S → S × Option ℕ
  add_learners [] s = (s, none)
  add_learners ((id, node) ∷ nodes) s =
      let added = add_learner id node s in
      let rest = add_learners nodes added.0 in if added.1 then rest else (added.0, some id)

  -- A change of no nodes is not asked for.
  unfoldable pub add_new : Map ℕ N → S → S × Bool
  add_new [] s = (s, true)
  add_new (node ∷ nodes) s = add_voters (node ∷ nodes) s

  unfoldable pub remove_old : List ℕ → S → S × Bool
  remove_old [] s = (s, true)
  remove_old (id ∷ leaves) s = remove_voters (id ∷ leaves) s

  unfoldable pub change_voters : Map ℕ N → List ℕ → S → S × Reconciliation
  unfolding add_new remove_old
  change_voters joins leaves s =
      let joined = add_new joins s in
      let left = remove_old leaves joined.0 in
      let removed : S × Reconciliation =
        if left.1
        then (left.0, reconciled (record { joined = ids joins; left = leaves }))
        else (left.0, gave_up change_membership_failed) in
      if joined.1 then removed else (joined.0, gave_up change_membership_failed)

  unfoldable pub apply_changes : Map ℕ N → List ℕ → S → S × Reconciliation
  unfolding add_learners change_voters
  apply_changes [] [] s = (s, reconciled empty_diff)
  apply_changes joins leaves s =
      let learned = add_learners joins s in
      elim learned.1 [
        | some id ↦ (learned.0, gave_up (add_learner_failed id))
        | none ↦ change_voters joins leaves learned.0
      ]

  -- `desired` is `none` where the source cannot be read.
  unfoldable pub reconcile_once : Option (Map ℕ N) → S → S × Reconciliation
  unfolding apply_changes joining leaving
  reconcile_once none s = (s, gave_up source_failed)
  reconcile_once (some desired) s =
      apply_changes (joining desired (voter_ids s)) (leaving (voter_ids s) (ids desired)) s

-- One poll: what the cluster does by itself before it, and what the source then reads.
pub record Poll (S N : Type 0) : Type 0 where
  pub meanwhile : S → S
  pub found : Option (Map ℕ N)

-- `MembershipWatcher::run`, with the polls until the shutdown; an error is logged and the loop goes on.
module _ {S N : Type 0} (raft : RaftHandle S N) where
  unfoldable pub run : List (Poll S N) → S → S
  run [] s = s
  run (poll ∷ polls) s = run polls (reconcile_once raft poll.found (poll.meanwhile s)).0

-- ===== src/Raft/Watching.antt =====
-- The polling loop of crates/qaas-core/src/raft/membership.rs brings the cluster to the desired nodes.
use mathlib.Core.Path.{subst}
use queue_as_a_service.Base.{
  ℕ, ◌≡◌, refl, sym, ap, ◌∙◌, arith, true, false, ◌&&◌, ◌⊎◌, inl, inr, List, [], ◌∷◌, ◌++◌, some,
  none, Map, Bool-cases, Option-cases,
}
use queue_as_a_service.Raft.Membership.{
  RaftHandle, Reconciliation, source_failed, change_membership_failed, add_learner_failed, gave_up,
  Poll, empty_diff, reconciled, contains, ids, joining, leaving, add_learners, add_new, remove_old,
  change_voters, apply_changes, reconcile_once, run,
}
use queue_as_a_service.Raft.Reconciled.{
  IsFaithful, not, contains-joining, contains-leaving, contains-add_learners, reconcile_once-voters,
}

module _ {S N : Type 0} (raft : RaftHandle S N) where
  run-++ :
      (polls later : List (Poll S N)) (s : S)
      → run raft (polls ++ later) s ≡ run raft later (run raft polls s)
  unfolding run
  run-++ [] later s = refl
  run-++ (poll ∷ polls) later s =
      run-++ polls later (reconcile_once raft poll.found (poll.meanwhile s)).0

module _ {S N : Type 0} (raft : RaftHandle S N) where
  -- The calls that a change of the voters makes, and the first of them that was refused.
  abbrev IsAnswer : Map ℕ N → List ℕ → S → Reconciliation → Type 0
  IsAnswer joins leaves s (reconciled diff) = (diff.joined ≡ ids joins) × (diff.left ≡ leaves)
  IsAnswer joins leaves s (gave_up source_failed) = ⊥
  IsAnswer joins leaves s (gave_up (add_learner_failed id)) =
      ((add_learners raft joins s).1 ≡ some id)
      × ((apply_changes raft joins leaves s).0 ≡ (add_learners raft joins s).0)
  IsAnswer joins leaves s (gave_up change_membership_failed) =
      let added = add_new raft joins (add_learners raft joins s).0 in
      (added.1 ≡ false) ⊎ ((remove_old raft leaves added.0).1 ≡ false)

  answer_of :
      (joins : Map ℕ N) (leaves : List ℕ) (s : S)
      → apply_changes raft joins leaves s
        ≡ elim (add_learners raft joins s).1 as (λ _. S × Reconciliation) [
          | some id ↦ ((add_learners raft joins s).0, gave_up (add_learner_failed id))
          | none ↦ change_voters raft joins leaves (add_learners raft joins s).0
        ]
      → IsAnswer joins leaves s (apply_changes raft joins leaves s).1
  unfolding change_voters
  answer_of joins leaves s e = elim (Option-cases (add_learners raft joins s).1) [
    | inr (id, failed) ↦
        let here : apply_changes raft joins leaves s
            ≡ ((add_learners raft joins s).0, gave_up (add_learner_failed id)) =
          ground (arith, e, failed) in
        subst (IsAnswer joins leaves s) (sym (ap (λ r. r.1) here)) (failed, ap (λ r. r.0) here)
    | inl learned ↦
        let r = (add_learners raft joins s).0 in
        let here : apply_changes raft joins leaves s ≡ change_voters raft joins leaves r =
          ground (arith, e, learned) in
        subst (IsAnswer joins leaves s) (sym (ap (λ r. r.1) here)) (changed joins leaves s)
  ]
    where
      changed :
          (joins : Map ℕ N) (leaves : List ℕ) (s : S)
          → IsAnswer joins leaves s
              (change_voters raft joins leaves (add_learners raft joins s).0).1
      changed joins leaves s =
          let r = (add_learners raft joins s).0 in
          elim (Bool-cases (add_new raft joins r).1) [
            | inr refused ↦ rw (refused, change_voters) (inl refused)
            | inl added ↦ elim (Bool-cases (remove_old raft leaves (add_new raft joins r).0).1) [
              | inr refused ↦ rw (added, change_voters) (rw refused (inr refused))
              | inl removed ↦ rw (added, change_voters) (rw removed (refl, refl))
            ]
          ]

  apply_changes-IsAnswer :
      (joins : Map ℕ N) (leaves : List ℕ) (s : S)
      → IsAnswer joins leaves s (apply_changes raft joins leaves s).1
  unfolding apply_changes add_learners
  apply_changes-IsAnswer [] [] s = (refl, refl)
  apply_changes-IsAnswer [] (id ∷ leaves) s = answer_of [] (id ∷ leaves) s refl
  apply_changes-IsAnswer (node ∷ joins) leaves s = answer_of (node ∷ joins) leaves s refl

  add_learners-refused :
      (joins : Map ℕ N) (s : S) (id : ℕ)
      → (add_learners raft joins s).1 ≡ some id
      → (contains id (ids joins) ≡ true)
        × ((node : N) × (r : S) × ((raft.add_learner id node r).1 ≡ false))
  unfolding add_learners contains
  add_learners-refused [] s id h = absurd (ground (arith, h))
  add_learners-refused ((j, node) ∷ joins) s id h =
      elim (Bool-cases (raft.add_learner j node s).1) [
        | inl made ↦
            let (there, refused) =
              add_learners-refused joins (raft.add_learner j node s).0 id
                (ground (arith, h, made)) in
            (ground (arith, there), refused)
        | inr not_made ↦
            let same : id ≡ j = ground (arith, h, not_made) in
            (
              ground (arith, same),
              (node, s, subst (λ i. (raft.add_learner i node s).1 ≡ false) (sym same) not_made),
            )
      ]

  -- What a poll that read the desired nodes has come to, from `s` to `s'`.
  abbrev pub IsOutcome : Map ℕ N → S → S → Reconciliation → Type 0
  IsOutcome desired s s' (reconciled diff) =
      ((i : ℕ) → contains i (raft.voter_ids s') ≡ contains i (ids desired))
      × ((i : ℕ)
          → contains i diff.joined
            ≡ (contains i (ids desired) && not (contains i (raft.voter_ids s))))
      × ((i : ℕ)
          → contains i diff.left
            ≡ (contains i (raft.voter_ids s) && not (contains i (ids desired))))
      × (reconcile_once raft (some desired) s' ≡ (s', reconciled empty_diff))
  IsOutcome desired s s' (gave_up source_failed) = ⊥
  IsOutcome desired s s' (gave_up (add_learner_failed id)) =
      (contains id (ids desired) ≡ true)
      × (contains id (raft.voter_ids s) ≡ false)
      × ((node : N) × (r : S) × ((raft.add_learner id node r).1 ≡ false))
      × ((i : ℕ) → contains i (raft.voter_ids s') ≡ contains i (raft.voter_ids s))
  IsOutcome desired s s' (gave_up change_membership_failed) =
      let joins = joining desired (raft.voter_ids s) in
      let added = add_new raft joins (add_learners raft joins s).0 in
      (added.1 ≡ false)
      ⊎ ((remove_old raft (leaving (raft.voter_ids s) (ids desired)) added.0).1 ≡ false)

module _ {S N : Type 0} (raft : RaftHandle S N) (faithful : IsFaithful raft) where
  outcome :
      (desired : Map ℕ N) (s : S) (o : Reconciliation)
      → (reconcile_once raft (some desired) s).1 ≡ o
      → IsOutcome raft desired s (reconcile_once raft (some desired) s).0 o
  unfolding reconcile_once
  outcome desired s (reconciled diff) e =
      let voters = raft.voter_ids s in
      let (same, idle) =
        reconcile_once-voters raft faithful desired s _ diff
          (λ i. ((reconcile_once raft (some desired) s).0, e i)) in
      let (joined, left) : IsAnswer raft (joining desired voters) (leaving voters (ids desired)) s
          (reconciled diff) =
        subst (IsAnswer raft _ _ s) e
          (apply_changes-IsAnswer raft (joining desired voters) (leaving voters (ids desired)) s) in
      (
        same,
        λ i. ap (contains i) joined ∙ contains-joining i desired voters,
        λ i. ap (contains i) left ∙ contains-leaving i voters (ids desired),
        idle,
      )
  outcome desired s (gave_up source_failed) e =
      let voters = raft.voter_ids s in
      subst (IsAnswer raft _ _ s) e
        (apply_changes-IsAnswer raft (joining desired voters) (leaving voters (ids desired)) s)
  outcome desired s (gave_up change_membership_failed) e =
      let voters = raft.voter_ids s in
      subst (IsAnswer raft _ _ s) e
        (apply_changes-IsAnswer raft (joining desired voters) (leaving voters (ids desired)) s)
  outcome desired s (gave_up (add_learner_failed id)) e =
      let voters = raft.voter_ids s in
      let joins = joining desired voters in
      let (failed, stopped) : IsAnswer raft joins (leaving voters (ids desired)) s
          (gave_up (add_learner_failed id)) =
        subst (IsAnswer raft _ _ s) e
          (apply_changes-IsAnswer raft joins (leaving voters (ids desired)) s) in
      let (there, refused) = add_learners-refused raft joins s id failed in
      let new = contains-joining id desired voters in
      (
        ground (arith, there, new),
        ground (arith, there, new),
        refused,
        λ i.
            ap (λ r. contains i (raft.voter_ids r)) stopped
            ∙ contains-add_learners raft faithful joins s i,
      )

  -- A poll that reads the desired nodes, whatever the polls before it read and did: if it says that it is done,
  -- the voters are the desired nodes, it names the nodes that it added and removed, and a poll that
  -- follows at once and reads the same changes nothing; it gives up only because a call to openraft was refused, and
  -- if that call was to add a learner, the learner is a desired node that is no voter and the voters are as
  -- they were. It is assumed that openraft makes the changes that it grants.
  pub run-IsOutcome :
      (polls : List (Poll S N)) (poll : Poll S N) (desired : Map ℕ N) (s : S)
      → poll.found ≡ some desired
      → let before = poll.meanwhile (run raft polls s) in
        IsOutcome raft desired before
          (run raft (polls ++ poll ∷ []) s)
          (reconcile_once raft poll.found before).1
  unfolding run
  run-IsOutcome polls poll desired s reads =
      let before = poll.meanwhile (run raft polls s) in
      let after : (reconcile_once raft poll.found before).0 ≡ run raft (polls ++ poll ∷ []) s =
        sym (run-++ raft polls (poll ∷ []) s) in
      subst (λ x. IsOutcome raft desired before x (reconcile_once raft poll.found before).1) after
        (subst
          (λ f.
            IsOutcome raft desired before (reconcile_once raft f before).0
              (reconcile_once raft f before).1)
          (sym reads) (outcome desired before _ refl))

-- ===== src/Raft/Reconciled.antt =====
-- A reconciliation of crates/qaas-core/src/raft/membership.rs that succeeds makes the desired nodes the voters.
use queue_as_a_service.Base.{
  ℕ, ◌≡◌, refl, sym, ◌∙◌, arith, Bool, true, false, ◌&&◌, ◌||◌, List, [], ◌∷◌, some, Map,
  Bool-cases, Option-cases, inl, inr,
}
use queue_as_a_service.Raft.Membership.{
  RaftHandle, MembershipDiff, empty_diff, reconciled, contains, ids, joining, leaving, add_learners,
  add_new, remove_old, change_voters, apply_changes, reconcile_once,
}

abbrev pub not : Bool → Bool
not true = false
not false = true

-- What openraft documents of the calls: a learner is no voter, and a change that succeeds has been made.
pub record IsFaithful {S N : Type 0} (raft : RaftHandle S N) : Type 0 where
  pub learner :
      (id : ℕ) (node : N) (s : S) (i : ℕ)
      → contains i (raft.voter_ids (raft.add_learner id node s).0) ≡ contains i (raft.voter_ids s)
  pub added :
      (nodes : Map ℕ N) (s : S) (i : ℕ)
      → (raft.add_voters nodes s).1 ≡ true
      → contains i (raft.voter_ids (raft.add_voters nodes s).0)
        ≡ (contains i (raft.voter_ids s) || contains i (ids nodes))
  pub removed :
      (nodes : List ℕ) (s : S) (i : ℕ)
      → (raft.remove_voters nodes s).1 ≡ true
      → contains i (raft.voter_ids (raft.remove_voters nodes s).0)
        ≡ (contains i (raft.voter_ids s) && not (contains i nodes))

pub contains-leaving :
    (i : ℕ) (voters desired : List ℕ)
    → contains i (leaving voters desired) ≡ (contains i voters && not (contains i desired))
unfolding leaving contains
contains-leaving i [] desired = refl
contains-leaving i (id ∷ voters) desired = ground (arith, contains-leaving i voters desired)

leaving-nil :
    (voters desired : List ℕ)
    → ((i : ℕ) → contains i voters ≡ true → contains i desired ≡ true)
    → leaving voters desired ≡ []
unfolding leaving contains
leaving-nil [] desired h = refl
leaving-nil (id ∷ voters) desired h =
    ground (arith, h id (ground arith), leaving-nil voters desired (λ i e. h i (ground (arith, e))))

module _ {N : Type 0} where
  pub contains-joining :
      (i : ℕ) (desired : Map ℕ N) (voters : List ℕ)
      → contains i (ids (joining desired voters))
        ≡ (contains i (ids desired) && not (contains i voters))
  unfolding joining contains
  contains-joining i [] voters = refl
  contains-joining i ((id, node) ∷ desired) voters =
      ground (arith, contains-joining i desired voters)

  joining-nil :
      (desired : Map ℕ N) (voters : List ℕ)
      → ((i : ℕ) → contains i (ids desired) ≡ true → contains i voters ≡ true)
      → joining desired voters ≡ []
  unfolding joining contains
  joining-nil [] voters h = refl
  joining-nil ((id, node) ∷ desired) voters h =
      ground
        (arith, h id (ground arith), joining-nil desired voters (λ i e. h i (ground (arith, e))))

module _ {S N : Type 0} (raft : RaftHandle S N) (faithful : IsFaithful raft) where
  open raft use {voter_ids}

  pub contains-add_learners :
      (nodes : Map ℕ N) (s : S) (i : ℕ)
      → contains i (voter_ids (add_learners raft nodes s).0) ≡ contains i (voter_ids s)
  unfolding add_learners
  contains-add_learners [] s i = refl
  contains-add_learners ((id, node) ∷ nodes) s i =
      let added = raft.add_learner id node s in
      ground (arith, contains-add_learners nodes added.0 i, faithful.learner id node s i)

  contains-add_new :
      (nodes : Map ℕ N) (s : S) (i : ℕ)
      → (add_new raft nodes s).1 ≡ true
      → contains i (voter_ids (add_new raft nodes s).0)
        ≡ (contains i (voter_ids s) || contains i (ids nodes))
  unfolding add_new contains
  contains-add_new [] s i h = ground arith
  contains-add_new (node ∷ nodes) s i h = faithful.added (node ∷ nodes) s i h

  contains-remove_old :
      (nodes : List ℕ) (s : S) (i : ℕ)
      → (remove_old raft nodes s).1 ≡ true
      → contains i (voter_ids (remove_old raft nodes s).0)
        ≡ (contains i (voter_ids s) && not (contains i nodes))
  unfolding remove_old contains
  contains-remove_old [] s i h = ground arith
  contains-remove_old (id ∷ nodes) s i h = faithful.removed (id ∷ nodes) s i h

  contains-change_voters :
      (joins : Map ℕ N) (leaves : List ℕ) (s s' : S) (diff : MembershipDiff) (i : ℕ)
      → change_voters raft joins leaves s ≡ (s', reconciled diff)
      → contains i (voter_ids s')
        ≡ ((contains i (voter_ids s) || contains i (ids joins)) && not (contains i leaves))
  unfolding change_voters
  contains-change_voters joins leaves s s' diff i h =
      let joined = add_new raft joins s in
      elim (Bool-cases joined.1) [
        | inr e ↦ absurd (ground (arith, e, h))
        | inl e ↦ elim (Bool-cases (remove_old raft leaves joined.0).1) [
          | inr e' ↦ absurd (ground (arith, e, e', h))
          | inl e' ↦
              let here : s' ≡ (remove_old raft leaves joined.0).0 = ground (arith, e, e', h) in
              rw here (
                ground
                  (arith, contains-add_new joins s i e, contains-remove_old leaves joined.0 i e'))
        ]
      ]

  contains-apply_changes :
      (joins : Map ℕ N) (leaves : List ℕ) (s s' : S) (diff : MembershipDiff) (i : ℕ)
      → apply_changes raft joins leaves s ≡ (s', reconciled diff)
      → contains i (voter_ids s')
        ≡ ((contains i (voter_ids s) || contains i (ids joins)) && not (contains i leaves))
  unfolding apply_changes contains
  contains-apply_changes [] [] s s' diff i h =
      let here : s' ≡ s = ground (arith, h) in rw here (ground arith)
  contains-apply_changes [] (id ∷ leaves) s s' diff i h =
      contains-change_voters [] (id ∷ leaves) s s' diff i h
  contains-apply_changes (node ∷ joins) leaves s s' diff i h =
      let learned = add_learners raft (node ∷ joins) s in
      elim (Option-cases learned.1) [
        | inr (id, e) ↦ absurd (ground (arith, e, h))
        | inl e ↦
            let changed : change_voters raft (node ∷ joins) leaves learned.0
                ≡ (s', reconciled diff) =
              ground (arith, e, h) in
            ground (
              arith,
              contains-add_learners (node ∷ joins) s i,
              contains-change_voters (node ∷ joins) leaves learned.0 s' diff i changed,
            )
      ]

  -- After a reconciliation that succeeds the voters are the desired nodes, and the next one finds nothing to
  -- do, where openraft does what it documents.
  pub reconcile_once-voters :
      (desired : Map ℕ N) (s s' : S) (diff : MembershipDiff)
      → reconcile_once raft (some desired) s ≡ (s', reconciled diff)
      → ((i : ℕ) → contains i (voter_ids s') ≡ contains i (ids desired))
        × (reconcile_once raft (some desired) s' ≡ (s', reconciled empty_diff))
  unfolding reconcile_once apply_changes
  reconcile_once-voters desired s s' diff h =
      let voters = voter_ids s in
      let same : (i : ℕ) → contains i (voter_ids s') ≡ contains i (ids desired) = λ i. ground (
        arith,
        contains-apply_changes (joining desired voters) (leaving voters (ids desired)) s s' diff i
            h,
        contains-joining i desired voters,
        contains-leaving i voters (ids desired),
      ) in
      (
        same,
        rw
            (
              joining-nil desired (voter_ids s') (λ i e. same i ∙ e),
              leaving-nil (voter_ids s') (ids desired) (λ i e. sym (same i) ∙ e),
            )
            refl,
      )

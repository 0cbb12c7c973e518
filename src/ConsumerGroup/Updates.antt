-- ===== src/ConsumerGroup/Updates.antt =====
-- `checkpoint` and `publish_partial_result`, which change a lease.
use queue_as_a_service.Base.{
  ℕ, ◌+◌, ◌≤◌, ◌≡◌, refl, ap, Bool, [], ◌∷◌, ◌++◌, some, arith, ℕ_discrete, Map, get, insert,
  Option-cases, inl, inr, Bool-cases, ◌==◌, length,
}
use queue_as_a_service.Log.{synced}
use queue_as_a_service.Types.{MessageId}
use queue_as_a_service.ConsumerGroup.State.{Leased, LeaseToken, StreamChunk, Group}
use queue_as_a_service.ConsumerGroup.Messages.{
  Message, of_leased, in_leased, has_id, IsSingle, SameMessages, in_leased-remove, in_leased-get,
}
use queue_as_a_service.ConsumerGroup.Durability.{IsDurable, logged-checkpointed}
use queue_as_a_service.ConsumerGroup.Resolve.{checkpoint, finish_checkpoint}
use queue_as_a_service.ConsumerGroup.Stream.{publish_partial_result}

module _ {T V : Type 0} where
  -- A lease may change in all but its message.
  in_leased-update :
      (w : Message T → ℕ) (id : MessageId) (l l' : Leased T V) (m : Map MessageId (Leased T V))
      → in_leased (has_id id) m ≤ 1
      → get ℕ_discrete id m ≡ some l
      → of_leased (id, l') ≡ of_leased (id, l)
      → in_leased w (insert ℕ_discrete id l' m) ≡ in_leased w m
  unfolding insert
  in_leased-update w id l l' m h e same =
      omega (arith, in_leased-get w id l m h e, in_leased-remove w id m, ap w same)

module _ {F T V : Type 0} where
  pub checkpoint-SameMessages :
      (id : MessageId) (token : LeaseToken) (state : V) (g : Group F T V)
      → IsSingle g
      → SameMessages (checkpoint synced id token state g).0 g
  unfolding checkpoint finish_checkpoint
  checkpoint-SameMessages id token state g single w =
      elim (Option-cases (get ℕ_discrete id g.leased)) [
        | inl e ↦ rw (e, checkpoint) refl
        | inr (lease, e) ↦
            let lease' : Leased T V = record lease { checkpoint = some state } in
            let same =
              in_leased-update w id lease lease' g.leased (omega (arith, single id)) e refl in
            elim (Bool-cases (lease.token == token)) [
              | inl t ↦ ground (arith, e, t, same)
              | inr t ↦ ground (arith, e, t)
            ]
      ]

  pub checkpoint-IsDurable :
      (id : MessageId) (token : LeaseToken) (state : V) (g : Group F T V)
      → IsSingle g
      → IsDurable g
      → IsDurable (checkpoint synced id token state g).0
  unfolding checkpoint finish_checkpoint
  checkpoint-IsDurable id token state g single d =
      elim (Option-cases (get ℕ_discrete id g.leased)) [
        | inl e ↦ rw (e, checkpoint) d
        | inr (lease, e) ↦
            let lease' : Leased T V = record lease { checkpoint = some state } in
            let same = λ (w : Message T → ℕ).
              in_leased-update w id lease lease' g.leased (omega (arith, single id)) e refl in
            elim (Bool-cases (lease.token == token)) [
              | inl t ↦ record {
                sound = ground (arith, e, t, d.sound);
                agrees = λ w. ground (
                  arith,
                  e,
                  t,
                  d.sound,
                  d.agrees w,
                  same w,
                  logged-checkpointed w g.wal.records id state,
                );
              }
              | inr t ↦ record {
                sound = ground (arith, e, t, d.sound);
                agrees = λ w. ground (arith, e, t, d.agrees w);
              }
            ]
      ]

  pub publish-SameMessages :
      (id : MessageId) (token : LeaseToken) (content : V) (is_final : Bool) (g : Group F T V)
      → IsSingle g
      → SameMessages (publish_partial_result id token content is_final g).0 g
  unfolding publish_partial_result
  publish-SameMessages id token content is_final g single w =
      elim (Option-cases (get ℕ_discrete id g.leased)) [
        | inl e ↦ rw (e, publish_partial_result) refl
        | inr (lease, e) ↦
            let chunk : StreamChunk V = record {
              sequence = length lease.stream + 1;
              content = content;
              is_final = is_final;
            } in
            let lease' : Leased T V = record lease { stream = lease.stream ++ chunk ∷ [] } in
            let same =
              in_leased-update w id lease lease' g.leased (omega (arith, single id)) e refl in
            ground (arith, e, same)
      ]

  pub publish-IsDurable :
      (id : MessageId) (token : LeaseToken) (content : V) (is_final : Bool) (g : Group F T V)
      → IsSingle g
      → IsDurable g
      → IsDurable (publish_partial_result id token content is_final g).0
  unfolding publish_partial_result
  publish-IsDurable id token content is_final g single d =
      elim (Option-cases (get ℕ_discrete id g.leased)) [
        | inl e ↦ rw (e, publish_partial_result) d
        | inr (lease, e) ↦
            let chunk : StreamChunk V = record {
              sequence = length lease.stream + 1;
              content = content;
              is_final = is_final;
            } in
            let lease' : Leased T V = record lease { stream = lease.stream ++ chunk ∷ [] } in
            let same = λ (w : Message T → ℕ).
              in_leased-update w id lease lease' g.leased (omega (arith, single id)) e refl in
            record {
              sound = ground (arith, e, d.sound);
              agrees = λ w. ground (arith, e, d.agrees w, same w);
            }
      ]

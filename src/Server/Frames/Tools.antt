-- ===== src/Server/Frames/Tools.antt =====
-- The tools of consumers in crates/qaas-server/src/mcp.rs, for what holds of the steps that they are made of.
use queue_as_a_service.Base.{ℕ, ◌≡◌, Bool, true, Option, List}
use queue_as_a_service.Log.{AppendIo, Result}
use queue_as_a_service.Types.{MessageId, Text}
use queue_as_a_service.ConsumerGroup.State.{Group}
use queue_as_a_service.ConsumerGroup.Resolve.{Attempt}
use queue_as_a_service.Auth.{TenantId}
use queue_as_a_service.Server.Answers.{
  Call, done, answer_of, internal_error, step, step_io, modify, or_refuse, invalid_params, ◌>>=◌,
}
use queue_as_a_service.Server.Registry.{Registry, Opening, is_queue_name, find_group}
use queue_as_a_service.Server.State.{Setting, Server, on_registry}
use queue_as_a_service.Server.Consuming.{
  Waiting, on_group, claim_impl, ack_impl, nack_impl, checkpoint_impl, publish_partial_result_impl,
  stream_partial_results_impl,
}
use queue_as_a_service.Server.Frames.{
  IsScoped, SetsAdmission, Holds-bind, Holds-then, Holds-seq, Holds-pure, Holds-or_refuse,
  Holds-when, Holds-find_group, find_group-valid,
}

module _ {F G V : Type 0} (setting : Setting F G) (t : Option TenantId)
    {P : (A : Type 0) → Call (Registry F G V) A → Type 0}
    {Q : (A : Type 0) → Call (Server F G V) A → Type 0} (scoped : IsScoped setting t P Q) where
  open setting use {policy}

  -- A tool finds its group, and goes on with a valid name.
  pub with_group :
      {B : Type 0} (opening : Opening V) (queue : Text) (f : Group F V V → Call (Server F G V) B)
      → (is_queue_name queue ≡ true → (g : Group F V V) → Q _ (f g))
      → Q _ (on_registry (find_group policy opening t queue) >>= f)
  unfolding on_registry
  with_group opening queue f k =
      Holds-bind scoped.above _ _ (scoped.lift _ _ (Holds-find_group scoped policy opening queue))
        (λ s g e. k (find_group-valid policy opening t queue s.registry g e) g)

  pub group_step :
      {A : Type 0} (queue : Text) (f : Group F V V → Group F V V × A) (g : Group F V V)
      → is_queue_name queue ≡ true
      → P A (step (on_group setting t queue f g))
  unfolding step on_group
  group_step queue f g valid = scoped.group_set _ queue (f g).0 (done (f g).1) valid

  pub group_step_io :
      {A : Type 0} (queue : Text) (f : Group F V V → Group F V V × Result A) (g : Group F V V)
      → is_queue_name queue ≡ true
      → P A (step_io (on_group setting t queue f g))
  unfolding step_io on_group
  group_step_io queue f g valid =
      scoped.group_set _ queue (f g).0 (answer_of internal_error (f g).1) valid

  -- Most tools: find the group, read the message id, do one step that may fail.
  pub with_message :
      {B : Type 0} (opening : Opening V) (queue : Text) (id : Option MessageId)
      (f : Group F V V → MessageId → Call (Server F G V) B)
      → (is_queue_name queue ≡ true → (g : Group F V V) (id : MessageId) → Q _ (f g id))
      → Q _ (do
        g ← on_registry (find_group policy opening t queue)
        i ← or_refuse id invalid_params
        f g i)
  with_message opening queue id f k =
      with_group opening queue _ (λ valid g.
        Holds-then scoped.above _ _ (Holds-or_refuse scoped.above _ _) (λ i. k valid g i))

  pub checkpoint_impl-Holds :
      (opening : Opening V) (io : AppendIo) (queue message_id : Text) (token : ℕ) (state : V)
      → Q _ (checkpoint_impl setting opening io t queue message_id token state)
  unfolding checkpoint_impl
  checkpoint_impl-Holds opening io queue message_id token state =
      with_message opening queue _ _ (λ valid g id. scoped.lift _ _ (group_step_io queue _ g valid))

  pub nack_impl-Holds :
      (opening : Opening V) (attempt : Attempt F) (at : ℕ) (queue message_id : Text) (token : ℕ)
      (reason : Option Text)
      → Q _ (nack_impl setting opening attempt at t queue message_id token reason)
  unfolding nack_impl
  nack_impl-Holds opening attempt at queue message_id token reason =
      with_message opening queue _ _ (λ valid g id.
        Holds-then scoped.above _ _ (scoped.lift _ _ (group_step_io queue _ g valid))
          (λ acked. Holds-seq scoped.above _ _ (scoped.logs _ _) (Holds-pure scoped.above _)))

  pub ack_impl-Holds :
      (opening : Opening V) (io : AppendIo) (at : ℕ) (queue message_id : Text) (token : ℕ)
      → Q _ (ack_impl setting opening io at t queue message_id token)
  unfolding ack_impl modify
  ack_impl-Holds opening io at queue message_id token =
      with_message opening queue _ _ (λ valid g id.
        Holds-then scoped.above _ _ (scoped.lift _ _ (group_step_io queue _ g valid)) (λ acked.
          Holds-seq scoped.above _ _
            (Holds-when scoped.above _ _ _ (
              scoped.lift _ _ (
                Holds-then scoped.order _ _ (scoped.dedup_find queue)
                  (λ index. scoped.dedup_set _ queue _ _ valid))))
            (Holds-seq scoped.above _ _ (scoped.logs _ _) (Holds-pure scoped.above _))))

  pub publish_partial_result_impl-Holds :
      (opening : Opening V) (queue message_id : Text) (token : ℕ) (content : V)
      (final : Option Bool)
      → Q _ (publish_partial_result_impl setting opening t queue message_id token content final)
  unfolding publish_partial_result_impl
  publish_partial_result_impl-Holds opening queue message_id token content final =
      with_message opening queue _ _ (λ valid g id. scoped.lift _ _ (group_step queue _ g valid))

  pub stream_partial_results_impl-Holds :
      (opening : Opening V) (later : List (Group F V V)) (queue message_id : Text)
      (after : Option ℕ)
      → Q _ (stream_partial_results_impl setting opening later t queue message_id after)
  unfolding stream_partial_results_impl
  stream_partial_results_impl-Holds opening later queue message_id after =
      with_message opening queue _ _ (λ valid g id. Holds-pure scoped.above _)

  pub claim_impl-Holds :
      (opening : Opening V) (now : ℕ) (waiting : Waiting F) (queue : Text)
      → SetsAdmission t P
      → Q _ (claim_impl setting opening now waiting t queue)
  unfolding claim_impl step
  claim_impl-Holds opening now waiting queue admission_set = scoped.lift _ _ (
      Holds-bind scoped.order _ _ (Holds-find_group scoped policy opening queue) (λ r g e.
        let valid = find_group-valid policy opening t queue r g e in
        Holds-then scoped.order _ _ (scoped.admission_find queue) (λ c.
          Holds-then scoped.order _ _ (admission_set _ queue _ _ valid) (λ headroom.
            Holds-then scoped.order _ _
              (Holds-when scoped.order _ _ _ (
                Holds-then scoped.order _ _ (group_step queue _ g valid)
                  (λ found. Holds-pure scoped.order _)))
              (λ found. Holds-pure scoped.order _)))))

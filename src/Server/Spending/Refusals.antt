-- ===== src/Server/Spending/Refusals.antt =====
-- Calls of crates/qaas-server/src/mcp.rs that do not refuse a parameter as invalid, once the name of the queue is valid.
use queue_as_a_service.Base.{
  ℕ, ◌≡◌, ◌≢◌, arith, true, Option, none, some, Option-cases, Bool-cases, inl, inr, get, ℕ_discrete,
}
use queue_as_a_service.Log.{Result, ok, failed}
use queue_as_a_service.Types.{MessageId, Text}
use queue_as_a_service.Semantic.{Embedding, insert_embedding}
use queue_as_a_service.Auth.{TenantId, Text-discrete}
use queue_as_a_service.Server.State.{Server, on_registry}
use queue_as_a_service.Server.Answers.{
  invalid_params, Answer, done, refused, Call, pure, refuse, gets, step, step_io, modify, or_refuse,
  refuse_if, answer_of, internal_error, ◌>>=◌, ◌>>◌, answered,
}
use queue_as_a_service.Server.Registry.{
  Registry, Opening, scope_key, is_queue_name, validate_queue_name, find_dedup, find_group,
  open_new, at_queue_limit, set_dedup,
}
use queue_as_a_service.Retry.{RetryPolicy}

-- A call that finds no parameter invalid.
unfoldable pub IsPast : {S A : Type 0} → Call S A → Type 0
IsPast {S} m = (s : S) → (m s).1 ≢ refused invalid_params

module _ {S A B : Type 0} where
  IsPast-answered :
      (s' : S) (answer : Answer A) (f : A → Call S B)
      → answer ≢ refused invalid_params
      → ((a : A) → IsPast (f a))
      → (answered f s' answer).1 ≢ refused invalid_params
  unfolding IsPast answered
  IsPast-answered s' (done a) f h k = k a s'
  IsPast-answered s' (refused e) f h k = λ is. h (ground (arith, is))

  pub IsPast-bind :
      (m : Call S A) (f : A → Call S B) → IsPast m → ((a : A) → IsPast (f a)) → IsPast (m >>= f)
  unfolding IsPast ◌>>=◌
  IsPast-bind m f h k s = IsPast-answered (m s).0 (m s).1 f (h s) k

answer_of-past : {A : Type 0} (r : Result A) → answer_of internal_error r ≢ refused invalid_params
answer_of-past failed e = absurd (ground (arith, e))
answer_of-past (ok a) e = absurd (ground (arith, e))

IsPast-pure : (S : Type 0) {A : Type 0} (a : A) → IsPast {S = S} (pure a)
unfolding IsPast pure
IsPast-pure S a s e = absurd (ground (arith, e))

module _ {S A : Type 0} where
  pub IsPast-step : (f : S → S × A) → IsPast (step f)
  unfolding IsPast step
  IsPast-step f s e = absurd (ground (arith, e))

  pub IsPast-step_io : (f : S → S × Result A) → IsPast (step_io f)
  unfolding IsPast step_io
  IsPast-step_io f s = answer_of-past (f s).1

pub IsPast-on_registry :
    {F G V A : Type 0} (m : Call (Registry F G V) A)
    → IsPast m
    → IsPast {S = Server F G V} (on_registry m)
unfolding IsPast on_registry
IsPast-on_registry m h s = h s.registry

module _ (F G V : Type 0) (t : Option TenantId) (queue : Text)
    (valid : is_queue_name queue ≡ true) where
  IsPast-open_new :
      (policy : RetryPolicy F) (opening : Opening V)
      → IsPast {S = Registry F G V} (open_new policy opening t queue)
  unfolding IsPast open_new step refuse_if or_refuse modify pure refuse answered ◌>>=◌ ◌>>◌
  IsPast-open_new policy opening r = elim (Bool-cases (at_queue_limit t r).1) [
    | inl full ↦ ground (arith, full)
    | inr room ↦ elim (Option-cases opening) [
      | inl e ↦ ground (arith, room, e)
      | inr (logs, e) ↦ ground (arith, room, e)
    ]
  ]

  pub IsPast-find_group :
      (policy : RetryPolicy F) (opening : Opening V)
      → IsPast {S = Registry F G V} (find_group policy opening t queue)
  unfolding IsPast find_group validate_queue_name gets pure refuse answered ◌>>=◌ ◌>>◌
  IsPast-find_group policy opening r =
      elim (Option-cases (get Text-discrete (scope_key t queue) r.groups)) [
        | inl e ↦ rw (valid, e) (IsPast-open_new policy opening r)
        | inr (g, e) ↦ rw (valid, e) (λ is. absurd (ground (arith, is)))
      ]

  IsPast-find_dedup : IsPast {S = Registry F G V} (find_dedup t queue)
  unfolding IsPast find_dedup validate_queue_name pure refuse answered ◌>>=◌ ◌>>◌ step
  IsPast-find_dedup r = rw valid (λ is. absurd (ground (arith, is)))

  pub IsPast-remember :
      (now : ℕ) (id : MessageId) (embedding : Option (Embedding G))
      → IsPast {S = Server F G V} (elim embedding [
        | none ↦ pure tt
        | some e ↦ on_registry (do
          index ← find_dedup t queue
          step (λ r.
              (set_dedup (scope_key t queue) (insert_embedding ℕ_discrete now id e index) r, tt)))
      ])
  IsPast-remember now id none = IsPast-pure (Server F G V) tt
  IsPast-remember now id (some e) =
      IsPast-on_registry _ (IsPast-bind _ _ IsPast-find_dedup (λ index. IsPast-step _))

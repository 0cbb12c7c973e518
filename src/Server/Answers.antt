-- ===== src/Server/Answers.antt =====
-- What a tool call of crates/qaas-server/src/mcp.rs does: it reads and changes the state, and is answered or
-- refused. What was changed before a refusal stays changed.
use queue_as_a_service.Base.{ℕ, Bool, true, false, Option, none, some}
use queue_as_a_service.Log.{Result, ok, failed}

-- `ErrorData`: its code, and `retry_after_seconds` where `throttled_to_mcp` makes it. The text is left out.
pub data ErrorData : Type 0 where
  invalid_params invalid_request internal_error : ErrorData
  throttled : Option ℕ → ErrorData

pub data Answer (A : Type 0) : Type 0 where
  done : A → Answer A
  refused : ErrorData → Answer A

abbrev pub Call : Type 0 → Type 0 → Type 0
Call S A = S → S × Answer A

abbrev pub answer_of : {A : Type 0} → ErrorData → Result A → Answer A
answer_of e failed = refused e
answer_of e (ok a) = done a

module _ {S A : Type 0} where
  unfoldable pub pure : A → Call S A
  pure a s = (s, done a)

  unfoldable pub refuse : ErrorData → Call S A
  refuse e s = (s, refused e)

  -- A look at the state.
  unfoldable pub gets : (S → A) → Call S A
  gets f s = (s, done (f s))

  -- A step that always succeeds.
  unfoldable pub step : (S → S × A) → Call S A
  step f s = let (s', a) = f s in (s', done a)

  unfoldable pub or_refuse : Option A → ErrorData → Call S A
  or_refuse none e = refuse e
  or_refuse (some a) e = pure a

  -- `io_error_to_mcp` of a failure.
  unfoldable pub step_io : (S → S × Result A) → Call S A
  step_io f s = let (s', r) = f s in (s', answer_of internal_error r)

  unfoldable pub when : Bool → A → Call S A → Call S A
  when true a m = m
  when false a m = pure a

unfoldable pub answered : {S A B : Type 0} → (A → Call S B) → S → Answer A → S × Answer B
answered f s (done a) = f a s
answered f s (refused e) = (s, refused e)

infixl 5 ◌>>=◌ ◌>>◌
unfoldable pub ◌>>=◌ : {S A B : Type 0} → Call S A → (A → Call S B) → Call S B
◌>>=◌ m f s = let r = m s in answered f r.0 r.1

unfoldable pub ◌>>◌ : {S A B : Type 0} → Call S A → Call S B → Call S B
m >> k = m >>= λ _. k

unfoldable pub refuse_if : {S : Type 0} → Bool → ErrorData → Call S (Unit {0})
refuse_if true e = refuse e
refuse_if false e = pure tt

unfoldable pub modify : {S : Type 0} → (S → S) → Call S (Unit {0})
modify f s = (f s, done tt)

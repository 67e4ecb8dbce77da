-- ===== src/Prelude/Handlers.antt =====
-- Go errors, results and handlers. A Go function that returns `(T, error)` returns a `Result`;
-- a handler also mutates its object, so that its state comes back beside an error too.
use Prim.Native.Nat.{ℕ}
use Prim.Native.String.{String}
use mathlib.Core.Path.{◌≡◌, refl}
use mathlib.Core.Logic.{◌⊎◌, inl, inr}
use mathlib.Core.Option.{Option, none, some}
use cloudkit_operator.Prelude.Texts.{join_text}

-- An error value: a typed one, or one with a text, or another one wrapped by `%w`.
pub data GoError : Type 0 where
  plain : String → GoError
  wrapped : String → GoError → GoError
  rate_limit : ℕ → GoError
  not_found : String → GoError
  method_not_allowed : String → GoError
  api_not_found : String → GoError

pub data Result {ℓ} (A : Type ℓ) : Type ℓ where
  ok : A → Result A
  err : GoError → Result A

-- What a handler ends with. A nil dereference is `panicked`.
pub data Outcome {ℓ} (A : Type ℓ) : Type ℓ where
  done : A → Outcome A
  failed : GoError → Outcome A
  panicked : Outcome A

abbrev pub Handler {ℓ} : Type ℓ → Type ℓ → Type ℓ
Handler S A = S → Outcome A × S

module _ {ℓ} {S A : Type ℓ} where
  unfoldable pub pure : A → Handler S A
  pure a s = (done a, s)

  unfoldable pub raise : GoError → Handler S A
  raise e s = (failed e, s)

  unfoldable pub panic : Handler S A
  panic s = (panicked, s)

  unfoldable pub lift : Result A → Handler S A
  lift (ok a) s = (done a, s)
  lift (err e) s = (failed e, s)

module _ {ℓ} {S A B : Type ℓ} where
  abbrev pub go_on : Outcome A → (A → Handler S B) → Handler S B
  go_on (done a) f s = f a s
  go_on (failed e) f s = (failed e, s)
  go_on panicked f s = (panicked, s)

  infixl 5 ◌>>=◌ ◌>>◌
  abbrev pub ◌>>=◌ : Handler S A → (A → Handler S B) → Handler S B
  ◌>>=◌ m f s = go_on (m s).0 f (m s).1

  abbrev pub ◌>>◌ : Handler S A → Handler S B → Handler S B
  m >> k = m >>= λ _. k

abbrev pub wrap_outcome {ℓ} : {A : Type ℓ} → String → Outcome A → Outcome A
wrap_outcome text (done a) = done a
wrap_outcome text (failed e) = failed (wrapped text e)
wrap_outcome text panicked = panicked

-- if err != nil { return fmt.Errorf("text: %w", err) }
abbrev pub wrap {ℓ} : {S A : Type ℓ} → String → Handler S A → Handler S A
wrap text m s = (wrap_outcome text (m s).0, (m s).1)

-- a call whose error the caller looks at instead of returning it
abbrev pub attempt_outcome {ℓ} : {A : Type ℓ} → Outcome A → Outcome (Result A)
attempt_outcome (done a) = done (ok a)
attempt_outcome (failed e) = done (err e)
attempt_outcome panicked = panicked

abbrev pub attempt {ℓ} : {S A : Type ℓ} → Handler S A → Handler S (Result A)
attempt m s = (attempt_outcome (m s).0, (m s).1)

-- errors.As with a *RateLimitError, a *NotFoundError and a *MethodNotAllowedError.
unfoldable pub as_rate_limit : GoError → Option ℕ
as_rate_limit (rate_limit after) = some after
as_rate_limit (wrapped text e) = as_rate_limit e
as_rate_limit _ = none

unfoldable pub as_not_found : GoError → Option String
as_not_found (not_found resource) = some resource
as_not_found (wrapped text e) = as_not_found e
as_not_found _ = none

unfoldable pub as_method_not_allowed : GoError → Option String
as_method_not_allowed (method_not_allowed operation) = some operation
as_method_not_allowed (wrapped text e) = as_method_not_allowed e
as_method_not_allowed _ = none

-- apierrors.IsNotFound, which looks through wrapping as errors.As does
unfoldable pub as_api_not_found : GoError → Option String
as_api_not_found (api_not_found text) = some text
as_api_not_found (wrapped text e) = as_api_not_found e
as_api_not_found _ = none

-- e.Error(). Go's `%v` of a time.Duration is a parameter.
unfoldable pub error_text : (ℕ → String) → GoError → String
error_text duration_text (plain text) = text
error_text duration_text (wrapped text e) =
    join_text text (join_text ": " (error_text duration_text e))
error_text duration_text (rate_limit after) =
    join_text "rate limit active, retry after " (duration_text after)
error_text duration_text (not_found resource) = join_text "resource not found: " resource
error_text duration_text (method_not_allowed operation) = join_text "method not allowed: " operation
error_text duration_text (api_not_found text) = text

-- To split on the outcome of a call and keep the equation.
pub Outcome-cases {ℓ} :
    {A : Type ℓ} (o : Outcome A)
    → ((a : A) × (o ≡ done a)) ⊎ ((e : GoError) × (o ≡ failed e)) ⊎ (o ≡ panicked)
Outcome-cases (done a) = inl (a, refl)
Outcome-cases (failed e) = inr (inl (e, refl))
Outcome-cases panicked = inr (inr refl)

pub Result-cases {ℓ} :
    {A : Type ℓ} (r : Result A) → ((a : A) × (r ≡ ok a)) ⊎ ((e : GoError) × (r ≡ err e))
Result-cases (ok a) = inl (a, refl)
Result-cases (err e) = inr (e, refl)

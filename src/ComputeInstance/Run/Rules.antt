-- ===== src/ComputeInstance/Run/Rules.antt =====
-- A rule for what a handler does with the answer of a provider
-- (internal/controller/computeinstance_controller.go).
use cloudkit_operator.Prelude.{
  ◌++◌, [], ◌∷◌, inl, inr, Result, ok, err, Outcome, panicked, Outcome-cases, Handler, attempt,
  ◌>>=◌,
}
use cloudkit_operator.ComputeInstance.Run.{Run, Call, calling}

-- the state behind a call of the provider
abbrev pub called : {S A : Type 0} → Call → Handler S A → Run S → Run S
called call m run = record run { backend = (m run.backend).1; calls = run.calls ++ call ∷ [] }

module _ {S A B : Type 0} (call : Call) (m : Handler S A) (k : Result A → Handler (Run S) B) where
  -- What holds behind each answer, and behind the call alone if the provider panics, holds behind
  -- the handler.
  pub calling_rule :
      (Q : Outcome B × Run S → Type 0) (run : Run S)
      → ((answer : Result A) → Q (k answer (called call m run)))
      → Q (panicked, called call m run)
      → Q ((attempt (calling call m) >>= k) run)
  unfolding calling
  calling_rule Q run answered broken = elim (Outcome-cases (m run.backend).0) [
    | inl (a, e) ↦ rw e (answered (ok a))
    | inr (inl (x, e)) ↦ rw e (answered (err x))
    | inr (inr e) ↦ rw e broken
  ]

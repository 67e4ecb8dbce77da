-- ===== src/Controller/Lookups.antt =====
-- Rules for a lookup that may find nothing (client.IgnoreNotFound), and what is done with its result.
use cloudkit_operator.Prelude.{
  ◌≡◌, ◌≢◌, refl, true, false, Bool, GoError, as_api_not_found, is_present, Outcome-cases,
  Bool-cases, done, failed, panicked, inl, inr, ◌⊎◌, Outcome, Handler, attempt, ◌>>=◌, Option, none,
  some, pure, if◌then◌else◌,
}
use cloudkit_operator.Controller.{Scope, asking, found}

-- the answer to a lookup of what is not there
abbrev pub IsNotFound : {A : Type 0} → Outcome A → Type 0
IsNotFound (failed e) = is_present (as_api_not_found e) ≡ true
IsNotFound _ = ⊥

module _ {I W C : Type 0} where
  abbrev pub asked : {A : Type 0} → Handler W A → Scope I W C → Scope I W C
  asked m s = record s { world = (m s.world).1 }

  -- What holds behind each result of the lookup, and behind its errors, holds behind the whole.
  pub found_rule :
      {A B : Type 0} (m : Handler W A) (k : Option A → Handler (Scope I W C) B)
      (Q : Outcome B × Scope I W C → Type 0) (s : Scope I W C)
      → (IsNotFound (m s.world).0 → Q (k none (asked m s)))
      → ((a : A) → (m s.world).0 ≡ done a → Q (k (some a) (asked m s)))
      → ((e : GoError) → Q (failed e, asked m s))
      → Q (panicked, asked m s)
      → Q ((do answer ← attempt (asking m); x ← found answer; k x) s)
  unfolding asking found
  found_rule m k Q s missing there error broken = elim (Outcome-cases (m s.world).0) [
    | inl (a, e) ↦ rw e (there a e)
    | inr (inl (x, e)) ↦ elim (Bool-cases (is_present (as_api_not_found x))) [
      | inl gone ↦ rw (e, gone) (missing (rw e gone))
      | inr other ↦ rw (e, other) (error x)
    ]
    | inr (inr e) ↦ rw e broken
  ]

  -- A lookup with a guard that ends with `false` did so at its guard, or found nothing.
  pub guarded_absence :
      {A : Type 0} (b : Bool) (m : Handler W A) (k : Option A → Handler (Scope I W C) Bool)
      (s : Scope I W C)
      → ((t : Scope I W C) → k none t ≡ (done false, t))
      → ((a : A) (t : Scope I W C) → (k (some a) t).0 ≢ done false)
      → ((if b then pure false else (do answer ← attempt (asking m); x ← found answer; k x)) s).0
        ≡ done false
      → ((b ≡ true)
          × ((if b then pure false else (do answer ← attempt (asking m); x ← found answer; k x)) s
              ≡ (done false, s)))
        ⊎ IsNotFound (m s.world).0
          × ((if b then pure false else (do answer ← attempt (asking m); x ← found answer; k x)) s
              ≡ (done false, asked m s))
  unfolding pure
  guarded_absence true m k s nothing something h = inl (refl, refl)
  guarded_absence false m k s nothing something h =
      found_rule m k
        (λ p.
          p.0 ≡ done false
          → ((false ≡ true) × (p ≡ (done false, s)))
            ⊎ IsNotFound (m s.world).0 × (p ≡ (done false, asked m s)))
        s (λ missing e. inr (missing, nothing (asked m s)))
        (λ a there e. absurd (something a (asked m s) e)) (λ x e. absurd (cc)) (λ e. absurd (cc)) h

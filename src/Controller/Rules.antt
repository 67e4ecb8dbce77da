-- ===== src/Controller/Rules.antt =====
-- Rules for handlers of internal/controller that list objects, call a webhook or go on after a step.
use cloudkit_operator.Prelude.{
  ℕ, ◌≡◌, refl, none, some, Option, List, [], ◌∷◌, String, Bool, true, false, if◌then◌else◌, pure,
  raise, Dictionary, GoError, Result, ok, err, Outcome, done, failed, panicked, Outcome-cases, inl,
  inr, Handler, lift, arith, ◌>>=◌, ◌==◌, Bool-cases, attempt,
}
use cloudkit_operator.Webhook.{WebhookClient, Network, Resource}
use cloudkit_operator.Controller.{
  Scope, Remote, asking, on_cluster, has_entry, management_state_annotation,
}
use cloudkit_operator.Controller.Components.{only_item, trigger, triggered, trigger_unless_manual}

-- What a handler does to the object it works on and to the record of its requests: nothing.
abbrev pub Spectates : {I W C A : Type 0} → Handler (Scope I W C) A → Type 0
Spectates {I} {W} {C} m =
    (s : Scope I W C) → ((m s).1.instance ≡ s.instance) × ((m s).1.calls ≡ s.calls)

-- What holds after a step, and is kept by what comes next, holds after both.
pub then_rule :
    {S A B : Type 0} (m : Handler S A) (k : A → Handler S B) (P : S → Type 0) (s : S)
    → P (m s).1
    → ((a : A) (t : S) → (m s).0 ≡ done a → P t → P (k a t).1)
    → P ((m >>= k) s).1
then_rule m k P s h keeps = elim (Outcome-cases (m s).0) [
  | inl (a, e) ↦ rw e (keeps a (m s).1 e h)
  | inr (inl (x, e)) ↦ rw e h
  | inr (inr e) ↦ rw e h
]

-- A sequence that ends with a value went through both parts.
pub bind_done :
    {S A B : Type 0} (m : Handler S A) (k : A → Handler S B) (s : S) (b : B)
    → ((m >>= k) s).0 ≡ done b
    → (a : A) × ((m s).0 ≡ done a) × ((m >>= k) s ≡ k a (m s).1)
bind_done m k s b h = elim (Outcome-cases (m s).0) [
  | inl (a, e) ↦ (a, e, rw e refl)
  | inr (inl (x, e)) ↦ absurd (ground (arith))
  | inr (inr e) ↦ absurd (ground (arith))
]

-- A sequence whose parts hold on their failures holds on its own.
pub failed_rule :
    {S A B : Type 0} (m : Handler S A) (k : A → Handler S B) (P : S → Type 0)
    → ((s : S) (e : GoError) → (m s).0 ≡ failed e → P (m s).1)
    → ((a : A) (s : S) (e : GoError) → (k a s).0 ≡ failed e → P (k a s).1)
    → (s : S) (e : GoError) → ((m >>= k) s).0 ≡ failed e
    → P ((m >>= k) s).1
failed_rule m k P first second s e = elim (Outcome-cases (m s).0) [
  | inl (a, f) ↦ rw f (second a (m s).1 e)
  | inr (inl (x, f)) ↦ rw f (λ h. first s x f)
  | inr (inr f) ↦ rw f (λ h. absurd (cc))
]

pub lift_state : {S A : Type 0} (r : Result A) (s : S) → (lift r s).1 ≡ s
unfolding lift
lift_state (ok a) s = refl
lift_state (err e) s = refl

-- A guarded result came past the guard.
pub guard_done :
    {S A : Type 0} (guard : Bool) (e : GoError) (a b : A) (s : S)
    → ((if guard then raise e else pure a) s).0 ≡ done b
    → (guard ≡ false) × (a ≡ b) × (((if guard then raise e else pure a) s).1 ≡ s)
unfolding raise pure
guard_done true e a b s h = absurd (cc)
guard_done false e a b s h = (refl, cc, refl)

module _ {I V C : Type 0} where
  -- the scope after a request to the cluster
  abbrev pub consulted : {A : Type 0} → Handler V A → Scope I (Remote V) C → Scope I (Remote V) C
  consulted m s = record s { world = record s.world { cluster = (m s.world.cluster).1 } }

  -- What holds behind no item and behind one item, and behind the errors, holds behind the listing.
  pub listing_rule :
      {A B : Type 0} (m : Handler V (List A)) (e : List A → GoError)
      (k : Option A → Handler (Scope I (Remote V) C) B)
      (Q : Outcome B × Scope I (Remote V) C → Type 0) (s : Scope I (Remote V) C)
      → ((m s.world.cluster).0 ≡ done [] → Q (k none (consulted m s)))
      → ((a : A) → (m s.world.cluster).0 ≡ done (a ∷ []) → Q (k (some a) (consulted m s)))
      → ((x : GoError) → Q (failed x, consulted m s))
      → Q (panicked, consulted m s)
      → Q (((do items ← asking (on_cluster m); lift (only_item (e items) items)) >>= k) s)
  unfolding asking on_cluster lift only_item
  listing_rule m e k Q s nothing one error broken = elim (Outcome-cases (m s.world.cluster).0) [
    | inl ([], f) ↦ rw f (nothing f)
    | inl (a ∷ [], f) ↦ rw f (one a f)
    | inl (a ∷ b ∷ more, f) ↦ rw f (error (e (a ∷ b ∷ more)))
    | inr (inl (x, f)) ↦ rw f (error x)
    | inr (inr f) ↦ rw f broken
  ]

  triggered_kept :
      (answer : Result ℕ) (s t : Scope I (Remote V) C)
      → (t.instance ≡ s.instance) × (t.calls ≡ s.calls)
      → ((triggered answer t).1.instance ≡ s.instance) × ((triggered answer t).1.calls ≡ s.calls)
  unfolding triggered
  triggered_kept (ok n) s t h = h
  triggered_kept (err e) s t h = h

  pub trigger_unless_manual-Spectates :
      (net : Network) (wc : WebhookClient) (url : String) (annotations : Dictionary)
      (resource : Resource)
      → Spectates (trigger_unless_manual {I = I} {V = V} {C = C} net wc url annotations resource)
  unfolding trigger_unless_manual trigger
  trigger_unless_manual-Spectates net wc url annotations resource s =
      elim (Bool-cases (url == "")) [
        | inl unset ↦ rw unset (refl, refl)
        | inr set ↦ elim (Bool-cases (has_entry management_state_annotation "manual" annotations)) [
          | inl manual ↦ rw (set, manual) (refl, refl)
          | inr other ↦
              rw (set, other)
                (then_rule (attempt (trigger {I = I} {V = V} {C = C} net wc url resource)) triggered
                  (λ t. (t.instance ≡ s.instance) × (t.calls ≡ s.calls)) s (refl, refl)
                  (λ answer t e h. triggered_kept answer s t h))
        ]
      ]

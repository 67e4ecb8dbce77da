-- ===== src/Controller/Components.antt =====
-- The objects that the ClusterOrder and the HostPool controller keep in the cluster (appResource,
-- NewComponentFn and the loop over the components), and how a webhook is called.
use cloudkit_operator.Prelude.{
  ℕ, ◌≡◌, true, String, Option, none, some, List, [], ◌∷◌, if◌then◌else◌, ltb, ◌==◌, Dictionary,
  Result, ok, err, done, Handler, attempt, pure, ◌>>=◌, ◌>>◌, GoError,
}
use cloudkit_operator.ComputeInstance.Run.{CtrlResult, no_requeue, requeue_in}
use cloudkit_operator.Webhook.{WebhookClient, Network, Resource, trigger_webhook}
use cloudkit_operator.Controller.{
  Scope, Applied, Remote, modify, asking, on_cluster, on_webhooks, has_entry,
  management_state_annotation,
}

pub record Subject : Type 0 where
  pub kind : String
  pub name : String
  pub namespace : String

pub record RoleRef : Type 0 where
  pub api_group : String
  pub kind : String
  pub name : String

-- A client.Object: a Namespace, a ServiceAccount or a RoleBinding.
pub record AppObject : Type 0 where
  pub kind : String
  pub name : String
  pub namespace : String
  pub labels : Dictionary
  pub subjects : List Subject
  pub role_ref : Option RoleRef

-- An object and its mutateFn, which changes the object and the instance.
pub record AppResource (I : Type 0) : Type 0 where
  pub object : AppObject
  pub mutate : AppObject → AppObject
  pub mutate_instance : I → I

abbrev pub CreateOrUpdate : Type 0 → Type 0
CreateOrUpdate V = AppObject → (AppObject → AppObject) → Handler V Applied

-- An answer without an error comes after the object was mutated.
abbrev pub Mutates : {V : Type 0} → CreateOrUpdate V → Type 0
Mutates {V} create_or_update =
    (o : AppObject) (f : AppObject → AppObject) (w : V) (a : Applied)
    → (create_or_update o f w).0 ≡ done a
    → a.error ≡ none
    → a.mutated ≡ true

-- no item, or the only one
unfoldable pub only_item : {A : Type 0} → GoError → List A → Result (Option A)
only_item too_many [] = ok none
only_item too_many (a ∷ []) = ok (some a)
only_item too_many (a ∷ b ∷ more) = err too_many

module _ {I V C : Type 0} where
  -- controllerutil.CreateOrUpdate, with what the mutateFn does to the instance
  unfoldable pub create_or_update :
      CreateOrUpdate V → AppResource I → Handler (Scope I (Remote V) C) Applied
  unfolding asking modify on_cluster pure
  create_or_update call resource = do
    applied ← asking (on_cluster (call resource.object resource.mutate))
    if applied.mutated then modify resource.mutate_instance else pure tt
    pure applied

  -- TriggerWebhook's error is logged, and the request comes back.
  unfoldable pub triggered : Result ℕ → Handler (Scope I (Remote V) C) CtrlResult
  unfolding pure
  triggered (err e) = pure (record { requeue = true; requeue_after = 0 })
  triggered (ok remaining) = pure (if ltb 0 remaining then requeue_in remaining else no_requeue)

  unfoldable pub trigger :
      Network → WebhookClient → String → Resource → Handler (Scope I (Remote V) C) ℕ
  unfolding asking on_webhooks trigger_webhook
  trigger net wc url resource = asking (on_webhooks (trigger_webhook net wc url resource))

  unfoldable pub trigger_unless_manual :
      Network
      → WebhookClient
      → String
      → Dictionary
      → Resource
      → Handler (Scope I (Remote V) C) CtrlResult
  unfolding pure trigger triggered has_entry
  trigger_unless_manual net wc url annotations resource =
      if url == ""
      then pure no_requeue
      else if has_entry management_state_annotation "manual" annotations
      then pure no_requeue
      else do answer ← attempt (trigger net wc url resource); triggered answer

-- ===== src/Controller.antt =====
-- What the controllers of internal/controller share. A handler works on one object, `instance`, and
-- on the cluster behind its client, `world`; the log `calls` records what it asks of others.
pub mod Lookups
pub mod Components
pub mod Rules
use cloudkit_operator.Prelude.{
  false, String, Bool, Option, none, some, List, [], ◌∷◌, ◌++◌, ◌==◌, if◌then◌else◌, GoError,
  as_api_not_found, is_present, Result, ok, err, done, Handler, pure, raise, Dictionary, lookup,
  Outcome, attempt,
}
use cloudkit_operator.Webhook.{WebhookState}

pub record Scope (I W C : Type 0) : Type 0 where
  pub instance : I
  pub world : W
  pub calls : List C

module _ {I W C : Type 0} where
  unfoldable pub current : Handler (Scope I W C) I
  current s = (done s.instance, s)

  unfoldable pub modify : (I → I) → Handler (Scope I W C) (Unit {0})
  modify f s = (done tt, record s { instance = f s.instance })

  -- a request to the cluster
  unfoldable pub asking : {A : Type 0} → Handler W A → Handler (Scope I W C) A
  asking m s = ((m s.world).0, record s { world = (m s.world).1 })

  -- a request that is recorded
  unfoldable pub telling : {A : Type 0} → C → Handler W A → Handler (Scope I W C) A
  telling call m s =
      ((m s.world).0, record s { world = (m s.world).1; calls = s.calls ++ call ∷ [] })

-- return nil, client.IgnoreNotFound(err)
unfoldable pub found {ℓ} : {S A : Type ℓ} → Result A → Handler S (Option A)
unfolding pure raise as_api_not_found is_present
found (ok a) = pure (some a)
found (err e) = if is_present (as_api_not_found e) then pure none else raise e

-- m[key] = value
unfoldable pub set_key : Dictionary → String → String → Dictionary
set_key [] key value = (key, value) ∷ []
set_key ((k, v) ∷ m) key value =
    let rest = set_key m key value in if k == key then (key, value) ∷ m else (k, v) ∷ rest

-- maps.Copy(dst, src)
unfoldable pub copy_labels : Dictionary → Dictionary → Dictionary
unfolding set_key
copy_labels dst [] = dst
copy_labels dst ((k, v) ∷ src) = copy_labels (set_key dst k v) src

-- An answer of controllerutil.CreateOrUpdate: whether the object's mutate function was run, and
-- the error, if any.
pub record Applied : Type 0 where
  pub mutated : Bool
  pub error : Option GoError

abbrev has_value : String → Option String → Bool
has_value value none = false
has_value value (some v) = v == value

-- the value of a label or an annotation, if there is one, is the given one
unfoldable pub has_entry : String → String → Dictionary → Bool
unfolding lookup
has_entry key value m = has_value value (lookup key m)

-- corev1.Namespace. The controllers read whether its status.phase is Terminating.
pub record Namespace : Type 0 where
  pub name : String
  pub labels : Dictionary
  pub is_terminating : Bool

-- if err != nil { return err }, on an error that was answered
unfoldable pub raise_if : {S : Type 0} → Option GoError → Handler S (Unit {0})
unfolding pure raise
raise_if none = pure tt
raise_if (some e) = raise e

abbrev pub management_state_annotation : String
management_state_annotation = "cloudkit.openshift.io/management-state"

-- The world of a controller with a webhook: the cluster and the cache of the webhook client.
pub record Remote (V : Type 0) : Type 0 where
  pub cluster : V
  pub webhooks : WebhookState

module _ {V A : Type 0} where
  unfoldable pub on_cluster : Handler V A → Handler (Remote V) A
  on_cluster m r = ((m r.cluster).0, record r { cluster = (m r.cluster).1 })

  unfoldable pub on_webhooks : Handler WebhookState A → Handler (Remote V) A
  on_webhooks m r = ((m r.webhooks).0, record r { webhooks = (m r.webhooks).1 })

-- NewNamespacePredicate and its likes: the objects of the controller's own namespace
unfoldable pub namespace_predicate : String → String → Bool
namespace_predicate namespace object_namespace = object_namespace == namespace

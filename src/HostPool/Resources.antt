-- ===== src/HostPool/Resources.antt =====
-- internal/controller/hostpool_resources.go and hostpool_names.go: the namespace that the controller
-- keeps for a pool. What is outside src/ is a field of `HostPoolApi`.
use cloudkit_operator.Prelude.{
  ℕ, String, Bool, Option, none, some, List, [], ◌∷◌, ◌==◌, if◌then◌else◌, plain, join_text,
  Dictionary, Result, Handler, lift, pure, raise, ◌>>=◌,
}
use cloudkit_operator.Api.HostPool.{HostPool, HostPoolStatus, set_host_pool_reference_namespace}
use cloudkit_operator.Webhook.{WebhookClient, Network}
use cloudkit_operator.Controller.{
  Scope, Remote, Namespace, current, asking, on_cluster, copy_labels,
}
use cloudkit_operator.Controller.Components.{AppObject, AppResource, CreateOrUpdate, only_item}

-- The client, the JSON of a pool, the clock, and the text of a duration
pub record HostPoolApi (V : Type 0) : Type 0 where
  pub get : String → String → Handler V HostPool
  pub update : HostPool → Handler V HostPool
  pub update_status : HostPool → Handler V (Unit {0})
  pub create_or_update : CreateOrUpdate V
  pub list_namespaces : Dictionary → Handler V (List Namespace)
  pub delete_namespace : Namespace → Handler V (Unit {0})
  pub marshal : HostPool → Result String
  pub deep_equal : HostPoolStatus → HostPoolStatus → Bool
  pub network : Network
  pub now : ℕ
  pub duration_text : ℕ → String

pub record HostPoolReconciler : Type 0 where
  pub create_host_pool_webhook : String
  pub delete_host_pool_webhook : String
  pub host_pool_namespace : String
  pub webhook_client : WebhookClient

-- NewWebhookClient is given 10 seconds.
unfoldable pub new_host_pool_reconciler : String → String → String → ℕ → HostPoolReconciler
new_host_pool_reconciler create delete namespace minimum_request_interval = record {
  create_host_pool_webhook = create;
  delete_host_pool_webhook = delete;
  host_pool_namespace = if namespace == "" then "cloudkit-hostpool-orders" else namespace;
  webhook_client = record {
    client_timeout = 10000000000;
    minimum_request_interval = minimum_request_interval;
  };
}

-- the requests that delete something
pub data HostPoolCall : Type 0 where
  called_delete_namespace : Namespace → HostPoolCall

abbrev pub HostPoolScope : Type 0 → Type 0
HostPoolScope V = Scope HostPool (Remote V) HostPoolCall

abbrev pub host_pool_name_label : String
host_pool_name_label = "cloudkit.openshift.io/hostpool"

unfoldable pub generate_host_pool_namespace_name : HostPool → String
generate_host_pool_namespace_name hp = join_text hp.namespace (join_text "-" hp.name)

unfoldable pub common_labels_from_host_pool : HostPool → Dictionary
common_labels_from_host_pool hp =
    ("app.kubernetes.io/name", "osac-operator") ∷ (host_pool_name_label, hp.name) ∷ []

unfoldable pub label_selector_from_host_pool_instance : HostPool → Dictionary
label_selector_from_host_pool_instance hp = (host_pool_name_label, hp.name) ∷ []

-- A nil map reads as an empty one.
unfoldable pub ensure_common_labels_for_host_pool : HostPool → AppObject → AppObject
unfolding common_labels_from_host_pool copy_labels
ensure_common_labels_for_host_pool hp o = record o {
  labels = copy_labels o.labels (common_labels_from_host_pool hp);
}

module _ {V : Type 0} (api : HostPoolApi V) where
  named_namespace : HostPool → String → AppResource HostPool
  unfolding ensure_common_labels_for_host_pool common_labels_from_host_pool
      set_host_pool_reference_namespace
  named_namespace hp name = record {
    object = record {
      kind = "Namespace";
      name = name;
      namespace = "";
      labels = common_labels_from_host_pool hp;
      subjects = [];
      role_ref = none;
    };
    mutate = ensure_common_labels_for_host_pool hp;
    mutate_instance = set_host_pool_reference_namespace name;
  }

  -- the namespace that is there, or a new one
  namespace_for : HostPool → Option Namespace → Handler (HostPoolScope V) (AppResource HostPool)
  unfolding named_namespace pure raise generate_host_pool_namespace_name
  namespace_for hp (some namespace) = pure (named_namespace hp namespace.name)
  namespace_for hp none =
      if generate_host_pool_namespace_name hp == ""
      then raise (plain "failed to generate namespace name")
      else pure (named_namespace hp (generate_host_pool_namespace_name hp))

  unfoldable pub new_host_pool_namespace : Handler (HostPoolScope V) (AppResource HostPool)
  unfolding current asking on_cluster lift only_item namespace_for
      label_selector_from_host_pool_instance
  new_host_pool_namespace = do
    hp ← current
    namespaces ←
        asking (on_cluster (api.list_namespaces (label_selector_from_host_pool_instance hp)))
    namespace ←
        lift (
          only_item (plain (join_text "found multiple matching namespaces for " hp.name))
            namespaces)
    namespace_for hp namespace

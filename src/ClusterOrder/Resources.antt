-- ===== src/ClusterOrder/Resources.antt =====
-- internal/controller/clusterorder_resources.go and clusterorder_names.go: the objects that the
-- controller keeps for an order. What is outside src/ is a field of `ClusterApi`.
use cloudkit_operator.Prelude.{
  ℕ, String, Bool, Option, none, some, List, [], ◌∷◌, ◌==◌, ◌||◌, if◌then◌else◌, plain, join_text,
  Dictionary, Result, Handler, lift, pure, raise, ◌>>=◌,
}
use cloudkit_operator.Api.Condition.{Condition}
use cloudkit_operator.Api.ClusterOrder.{
  ClusterOrder, ClusterOrderStatus, set_cluster_reference_namespace,
  set_cluster_reference_service_account_name, set_cluster_reference_role_binding_name,
  get_cluster_reference_namespace, get_cluster_reference_service_account_name,
}
use cloudkit_operator.Webhook.{WebhookClient, Network}
use cloudkit_operator.Controller.{
  Scope, Remote, Namespace, current, asking, on_cluster, copy_labels,
}
use cloudkit_operator.Controller.Components.{AppObject, AppResource, CreateOrUpdate, only_item}

pub record HostedCluster : Type 0 where
  pub name : String
  pub namespace : String
  pub conditions : List Condition

pub record NodePool : Type 0 where
  pub name : String
  pub replicas : ℕ

-- The client, and the JSON of an order
pub record ClusterApi (V : Type 0) : Type 0 where
  pub get : String → String → Handler V ClusterOrder
  pub update : ClusterOrder → Handler V ClusterOrder
  pub update_status : ClusterOrder → Handler V (Unit {0})
  pub create_or_update : CreateOrUpdate V
  pub list_namespaces : Dictionary → Handler V (List Namespace)
  pub list_hosted_clusters : String → Dictionary → Handler V (List HostedCluster)
  pub list_node_pools : String → Dictionary → Handler V (List NodePool)
  pub delete_namespace : Namespace → Handler V (Unit {0})
  pub marshal : ClusterOrder → Result String
  pub deep_equal : ClusterOrderStatus → ClusterOrderStatus → Bool
  pub network : Network

pub record ClusterOrderReconciler : Type 0 where
  pub create_cluster_webhook : String
  pub delete_cluster_webhook : String
  pub cluster_order_namespace : String
  pub webhook_client : WebhookClient

-- NewWebhookClient is given 10 seconds.
unfoldable pub new_cluster_order_reconciler : String → String → String → ℕ → ClusterOrderReconciler
new_cluster_order_reconciler create delete namespace minimum_request_interval = record {
  create_cluster_webhook = create;
  delete_cluster_webhook = delete;
  cluster_order_namespace = if namespace == "" then "cloudkit-orders" else namespace;
  webhook_client = record {
    client_timeout = 10000000000;
    minimum_request_interval = minimum_request_interval;
  };
}

-- the requests that delete something
pub data ClusterCall : Type 0 where
  called_delete_namespace : Namespace → ClusterCall

abbrev pub ClusterScope : Type 0 → Type 0
ClusterScope V = Scope ClusterOrder (Remote V) ClusterCall

abbrev pub cluster_order_name_label : String
cluster_order_name_label = "cloudkit.openshift.io/clusterorder"

abbrev pub default_service_account_name : String
default_service_account_name = "cloudkit"

abbrev pub default_role_binding_name : String
default_role_binding_name = "cloudkit"

unfoldable pub generate_namespace_name : ClusterOrder → String
generate_namespace_name co = join_text co.namespace (join_text "-" co.name)

unfoldable pub common_labels_from_order : ClusterOrder → Dictionary
common_labels_from_order co =
    ("app.kubernetes.io/name", "osac-operator") ∷ (cluster_order_name_label, co.name) ∷ []

unfoldable pub label_selector_from_instance : ClusterOrder → Dictionary
label_selector_from_instance co = (cluster_order_name_label, co.name) ∷ []

-- ensureCommonLabels. A nil map reads as an empty one.
unfoldable pub ensure_common_labels : ClusterOrder → AppObject → AppObject
unfolding common_labels_from_order copy_labels
ensure_common_labels co o = record o { labels = copy_labels o.labels (common_labels_from_order co) }

abbrev pub reference_error : String
reference_error = "unable to retrieve required information from spec.clusterReference"

module _ {V : Type 0} (api : ClusterApi V) where
  named_namespace : ClusterOrder → String → AppResource ClusterOrder
  unfolding ensure_common_labels common_labels_from_order set_cluster_reference_namespace
  named_namespace co name = record {
    object = record {
      kind = "Namespace";
      name = name;
      namespace = "";
      labels = common_labels_from_order co;
      subjects = [];
      role_ref = none;
    };
    mutate = ensure_common_labels co;
    mutate_instance = set_cluster_reference_namespace name;
  }

  -- the namespace that is there, or a new one
  namespace_for :
      ClusterOrder → Option Namespace → Handler (ClusterScope V) (AppResource ClusterOrder)
  unfolding named_namespace pure raise generate_namespace_name
  namespace_for co (some namespace) = pure (named_namespace co namespace.name)
  namespace_for co none =
      if generate_namespace_name co == ""
      then raise (plain "failed to generate namespace name")
      else pure (named_namespace co (generate_namespace_name co))

  unfoldable pub new_namespace : Handler (ClusterScope V) (AppResource ClusterOrder)
  unfolding current asking on_cluster lift only_item namespace_for label_selector_from_instance
  new_namespace = do
    co ← current
    namespaces ← asking (on_cluster (api.list_namespaces (label_selector_from_instance co)))
    namespace ←
        lift (
          only_item (plain (join_text "found multiple matching namespaces for " co.name))
            namespaces)
    namespace_for co namespace

  unfoldable pub new_service_account : Handler (ClusterScope V) (AppResource ClusterOrder)
  unfolding current pure raise get_cluster_reference_namespace common_labels_from_order
      ensure_common_labels set_cluster_reference_service_account_name
  new_service_account = do
    co ← current
    let namespace_name = get_cluster_reference_namespace co
    if namespace_name == ""
        then raise (plain reference_error)
        else pure (record {
          object = record {
            kind = "ServiceAccount";
            name = default_service_account_name;
            namespace = namespace_name;
            labels = common_labels_from_order co;
            subjects = [];
            role_ref = none;
          };
          mutate = ensure_common_labels co;
          mutate_instance = set_cluster_reference_service_account_name default_service_account_name;
        })

  unfoldable pub new_admin_role_binding : Handler (ClusterScope V) (AppResource ClusterOrder)
  unfolding current pure raise get_cluster_reference_namespace common_labels_from_order
      get_cluster_reference_service_account_name ensure_common_labels
      set_cluster_reference_role_binding_name
  new_admin_role_binding = do
    co ← current
    let namespace_name = get_cluster_reference_namespace co
    let service_account_name = get_cluster_reference_service_account_name co
    if (namespace_name == "") || (service_account_name == "")
        then raise (plain reference_error)
        else pure (record {
          object = record {
            kind = "RoleBinding";
            name = default_role_binding_name;
            namespace = namespace_name;
            labels = common_labels_from_order co;
            subjects = [];
            role_ref = none;
          };
          mutate = λ o. record (ensure_common_labels co o) {
            subjects =
                (record {
                  kind = "ServiceAccount";
                  name = service_account_name;
                  namespace = namespace_name;
                })
                ∷ [];
            role_ref = some (record {
              api_group = "rbac.authorization.k8s.io";
              kind = "ClusterRole";
              name = "admin";
            });
          };
          mutate_instance = set_cluster_reference_role_binding_name default_role_binding_name;
        })

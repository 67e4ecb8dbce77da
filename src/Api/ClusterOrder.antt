-- ===== src/Api/ClusterOrder.antt =====
-- api/v1alpha1/clusterorder_types.go, clusterorder_conditions.go and
-- clusterorder_clusterreference.go. A nil pointer is `none`.
use cloudkit_operator.Prelude.{ℕ, String, Bool, Option, none, some, List, Dictionary}
use cloudkit_operator.Api.Condition.{ConditionStatus, Condition}
use cloudkit_operator.Api.ComputeInstance.{new_condition}
use cloudkit_operator.Api.Kube.{Kube}

-- The number of nodes is Go's int, and a count.
pub record NodeRequest : Type 0 where
  pub resource_class : String
  pub number_of_nodes : ℕ

pub record ClusterOrderSpec : Type 0 where
  pub template_id : String
  pub template_parameters : String
  pub node_requests : List NodeRequest

-- the zero value "" of the string type is `unset`
pub data ClusterOrderPhase : Type 0 where
  unset progressing failed ready deleting : ClusterOrderPhase

pub record ClusterReference : Type 0 where
  pub namespace : String
  pub hosted_cluster_name : String
  pub service_account_name : String
  pub role_binding_name : String

pub record ClusterOrderStatus : Type 0 where
  pub phase : ClusterOrderPhase
  pub conditions : List Condition
  pub cluster_reference : Option ClusterReference
  pub node_requests : List NodeRequest

pub record ClusterOrder : Type 0 where
  pub name : String
  pub namespace : String
  pub labels : Dictionary
  pub annotations : Dictionary
  pub finalizers : List String
  pub deletion_timestamp : Option ℕ
  pub spec : ClusterOrderSpec
  pub status : ClusterOrderStatus

unfoldable pub set_status_condition :
    Kube → ClusterOrder → String → ConditionStatus → String → String → ClusterOrder
set_status_condition kube co condition_type status message reason = record co {
  status = record co.status {
    conditions =
        kube.set_status_condition co.status.conditions
          (new_condition condition_type status message reason);
  };
}

unfoldable pub remove_status_condition : Kube → ClusterOrder → String → ClusterOrder × Bool
remove_status_condition kube co condition_type =
    let removed = kube.remove_status_condition co.status.conditions condition_type in
    (record co { status = record co.status { conditions = removed.0 } }, removed.1)

unfoldable pub is_status_condition_false : Kube → ClusterOrder → String → Bool
is_status_condition_false kube co condition_type =
    kube.is_status_condition_false co.status.conditions condition_type

unfoldable pub is_status_condition_true : Kube → ClusterOrder → String → Bool
is_status_condition_true kube co condition_type =
    kube.is_status_condition_true co.status.conditions condition_type

unfoldable pub ensured : Option ClusterReference → ClusterReference
ensured none = record {
  namespace = "";
  hosted_cluster_name = "";
  service_account_name = "";
  role_binding_name = "";
}
ensured (some r) = r

-- The reference after EnsureClusterReference. The getters read "" from a nil reference, which is
-- what an empty one holds.
unfoldable pub ensure_cluster_reference : ClusterOrder → ClusterReference
unfolding ensured
ensure_cluster_reference co = ensured co.status.cluster_reference

abbrev pub set_reference : ClusterReference → ClusterOrder → ClusterOrder
set_reference r co = record co { status = record co.status { cluster_reference = some r } }

unfoldable pub set_cluster_reference_namespace : String → ClusterOrder → ClusterOrder
unfolding ensure_cluster_reference
set_cluster_reference_namespace name co =
    set_reference (record (ensure_cluster_reference co) { namespace = name }) co

unfoldable pub set_cluster_reference_service_account_name : String → ClusterOrder → ClusterOrder
unfolding ensure_cluster_reference
set_cluster_reference_service_account_name name co =
    set_reference (record (ensure_cluster_reference co) { service_account_name = name }) co

unfoldable pub set_cluster_reference_role_binding_name : String → ClusterOrder → ClusterOrder
unfolding ensure_cluster_reference
set_cluster_reference_role_binding_name name co =
    set_reference (record (ensure_cluster_reference co) { role_binding_name = name }) co

unfoldable pub set_cluster_reference_hosted_cluster_name : String → ClusterOrder → ClusterOrder
unfolding ensure_cluster_reference
set_cluster_reference_hosted_cluster_name name co =
    set_reference (record (ensure_cluster_reference co) { hosted_cluster_name = name }) co

unfoldable pub get_cluster_reference_namespace : ClusterOrder → String
unfolding ensure_cluster_reference
get_cluster_reference_namespace co = (ensure_cluster_reference co).namespace

unfoldable pub get_cluster_reference_service_account_name : ClusterOrder → String
unfolding ensure_cluster_reference
get_cluster_reference_service_account_name co = (ensure_cluster_reference co).service_account_name

unfoldable pub get_cluster_reference_role_binding_name : ClusterOrder → String
unfolding ensure_cluster_reference
get_cluster_reference_role_binding_name co = (ensure_cluster_reference co).role_binding_name

unfoldable pub get_cluster_reference_hosted_cluster_name : ClusterOrder → String
unfolding ensure_cluster_reference
get_cluster_reference_hosted_cluster_name co = (ensure_cluster_reference co).hosted_cluster_name

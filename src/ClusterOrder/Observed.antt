-- ===== src/ClusterOrder/Observed.antt =====
-- What the ClusterOrder controller writes to an order's status from what it sees in the cluster
-- (initializeStatusConditions, handleHostedCluster, handleNodePools, handleNodePool).
use cloudkit_operator.Prelude.{
  ℕ, String, Bool, ◌&&◌, Option, none, some, List, [], ◌∷◌, ◌++◌, ◌==◌, is_present, if◌then◌else◌,
  Handler, ◌>>=◌, ◌>>◌,
}
use cloudkit_operator.Api.Kube.{Kube}
use cloudkit_operator.Api.Condition.{Condition, ConditionStatus, condition_true, condition_false}
use cloudkit_operator.Api.ComputeInstance.{new_condition}
use cloudkit_operator.Api.ClusterOrder.{
  ClusterOrder, ClusterOrderPhase, NodeRequest, set_status_condition,
  set_cluster_reference_hosted_cluster_name,
}
use cloudkit_operator.Controller.{current, modify, asking, on_cluster}
use cloudkit_operator.ClusterOrder.Resources.{
  ClusterApi, ClusterScope, HostedCluster, NodePool, label_selector_from_instance,
}

abbrev pub set_phase : ClusterOrderPhase → ClusterOrder → ClusterOrder
set_phase phase co = record co { status = record co.status { phase = phase } }

abbrev pub as_expected : String
as_expected = "AsExpected"

-- the calls of initializeStatusConditions
abbrev pub initial_conditions : List (String × ConditionStatus × String)
initial_conditions =
    ("Accepted", condition_true, "Initialized")
    ∷ ("Deleting", condition_false, "Initialized")
    ∷ ("Progressing", condition_true, "Progressing")
    ∷ ("NamespaceCreated", condition_false, "Initialized")
    ∷ ("ControlPlaneCreated", condition_false, "Initialized")
    ∷ ("ControlPlaneAvailable", condition_false, "Initialized")
    ∷ []

module _ (kube : Kube) where
  unfoldable pub initialize_status_condition :
      String → ConditionStatus → String → List Condition → List Condition
  unfolding is_present
  initialize_status_condition condition_type status reason cs =
      if is_present (kube.find_status_condition cs condition_type)
      then cs
      else kube.set_status_condition cs (new_condition condition_type status "" reason)

  -- one call after the other
  unfoldable pub initialize_each :
      List (String × ConditionStatus × String) → List Condition → List Condition
  unfolding initialize_status_condition
  initialize_each [] cs = cs
  initialize_each ((condition_type, status, reason) ∷ more) cs =
      initialize_each more (initialize_status_condition condition_type status reason cs)

  unfoldable pub initialize_status_conditions : ClusterOrder → ClusterOrder
  unfolding initialize_each
  initialize_status_conditions co = record co {
    status = record co.status {
      conditions = initialize_each initial_conditions co.status.conditions;
    };
  }

  unfoldable pub hosted_cluster_control_plane_is_available : HostedCluster → Bool
  hosted_cluster_control_plane_is_available hc =
      kube.is_status_condition_true hc.conditions "Available"
      && kube.is_status_condition_false hc.conditions "Degraded"

  unfoldable pub hosted_cluster_is_ready : HostedCluster → Bool
  hosted_cluster_is_ready hc =
      kube.is_status_condition_true hc.conditions "ClusterVersionSucceeding"
      && kube.is_status_condition_false hc.conditions "Degraded"

  unfoldable pub mark_ready : HostedCluster → ClusterOrder → ClusterOrder
  unfolding hosted_cluster_is_ready set_status_condition
  mark_ready hc co =
      if hosted_cluster_is_ready hc
      then set_phase ClusterOrderPhase.ready
          (set_status_condition kube co "ClusterAvailable" condition_true "" as_expected)
      else co

  unfoldable pub mark_available : HostedCluster → ClusterOrder → ClusterOrder
  unfolding hosted_cluster_control_plane_is_available mark_ready set_status_condition
  mark_available hc co =
      if hosted_cluster_control_plane_is_available hc
      then mark_ready hc
          (set_status_condition kube co "ControlPlaneAvailable" condition_true "" as_expected)
      else co

  -- the name of the hosted cluster and the conditions
  unfoldable pub observe_hosted_cluster : HostedCluster → ClusterOrder → ClusterOrder
  unfolding mark_available set_status_condition set_cluster_reference_hosted_cluster_name
  observe_hosted_cluster hc co = mark_available hc (
      set_status_condition kube (set_cluster_reference_hosted_cluster_name hc.name co)
        "ControlPlaneCreated" condition_true "" as_expected)

abbrev pub or_here :
    String
    → ℕ
    → NodeRequest
    → List NodeRequest
    → Option (List NodeRequest)
    → Option (List NodeRequest)
or_here class n request requests (some rest) = some (request ∷ rest)
or_here class n request requests none =
    if request.resource_class == class
    then some (record request { number_of_nodes = n } ∷ requests)
    else none

-- The write through the pointer to the last request of the class, if there is one.
unfoldable pub write_last : String → ℕ → List NodeRequest → Option (List NodeRequest)
write_last class n [] = none
write_last class n (request ∷ requests) =
    or_here class n request requests (write_last class n requests)

abbrev pub set_status_requests : ClusterOrder → List NodeRequest → ClusterOrder
set_status_requests co requests = record co {
  status = record co.status { node_requests = requests };
}

-- A request that the status does not have is appended to the spec, and written there.
unfoldable pub written : ClusterOrder → String → ℕ → Option (List NodeRequest) → ClusterOrder
written co class n (some requests) = set_status_requests co requests
written co class n none = record co {
  spec = record co.spec {
    node_requests =
        co.spec.node_requests ++ record { resource_class = class; number_of_nodes = n } ∷ [];
  };
}

unfoldable pub for_requests : ClusterOrder → NodePool → List NodeRequest → ClusterOrder
unfolding written write_last
for_requests co pool (request ∷ []) =
    written co request.resource_class pool.replicas
      (write_last request.resource_class pool.replicas co.status.node_requests)
for_requests co pool _ = co

-- handleNodePool, which returns no error. Writing the number that is there changes nothing.
unfoldable pub handle_node_pool : NodePool → ClusterOrder → ClusterOrder
unfolding for_requests
handle_node_pool pool co = for_requests co pool co.spec.node_requests

unfoldable pub handle_node_pools : List NodePool → ClusterOrder → ClusterOrder
unfolding handle_node_pool
handle_node_pools [] co = co
handle_node_pools (pool ∷ pools) co = handle_node_pools pools (handle_node_pool pool co)

module _ {V : Type 0} (kube : Kube) (api : ClusterApi V) where
  unfoldable pub handle_hosted_cluster : HostedCluster → Handler (ClusterScope V) (Unit {0})
  unfolding current modify asking on_cluster observe_hosted_cluster handle_node_pools
      label_selector_from_instance
  handle_hosted_cluster hc = do
    modify (observe_hosted_cluster kube hc)
    co ← current
    pools ← asking (on_cluster (api.list_node_pools hc.namespace (label_selector_from_instance co)))
    modify (handle_node_pools pools)

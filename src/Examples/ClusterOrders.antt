-- ===== src/Examples/ClusterOrders.antt =====
-- Orders in a cluster with one namespace and no hosted cluster.
use cloudkit_operator.Prelude.{◌≡◌, refl, true, false, none, [], ◌∷◌, ok, done, All, is_present}
use cloudkit_operator.Api.ClusterOrder.{ClusterOrder, ClusterOrderPhase, NodeRequest}
use cloudkit_operator.ComputeInstance.Run.{no_requeue}
use cloudkit_operator.Controller.{Applied, Namespace}
use cloudkit_operator.Controller.Components.{Mutates}
use cloudkit_operator.ClusterOrder.Resources.{
  ClusterApi, ClusterScope, ClusterOrderReconciler, NodePool,
}
use cloudkit_operator.ClusterOrder.Observed.{
  handle_node_pools, initial_conditions, initialize_status_conditions,
}
use cloudkit_operator.ClusterOrder.Handlers.{cluster_order_finalizer, handle_update, handle_delete}
use cloudkit_operator.ClusterOrder.Conditions.{Extends, initialize_status_conditions-Extends}
use cloudkit_operator.ClusterOrder.NodePools.{handle_node_pools-misplaces}
use cloudkit_operator.ClusterOrder.Reference.{IsReferenced}
use cloudkit_operator.ClusterOrder.Reference.Kept.{handle_update-IsReferenced}
use cloudkit_operator.ClusterOrder.Release.{OrderReleased, handle_delete-OrderReleased}
use cloudkit_operator.Api.Condition.{get_condition}
use cloudkit_operator.Examples.Kubernetes.{kube}
use cloudkit_operator.Examples.Samples.{net, webhook_client, no_requests}

abbrev request : NodeRequest
request = record { resource_class = "large"; number_of_nodes = 2 }

abbrev order : ClusterOrder
order = record {
  name = "order";
  namespace = "orders";
  labels = [];
  annotations = [];
  finalizers = cluster_order_finalizer ∷ [];
  deletion_timestamp = none;
  spec = record { template_id = "t"; template_parameters = ""; node_requests = request ∷ [] };
  status = record {
    phase = ClusterOrderPhase.unset;
    conditions = [];
    cluster_reference = none;
    node_requests = [];
  };
}

abbrev namespace : Namespace
namespace = record { name = "orders-order"; labels = []; is_terminating = false }

abbrev applied : Applied
applied = record { mutated = true; error = none }

abbrev api : ClusterApi (Unit {0})
api = record {
  get = λ ns name w. (done order, w);
  update = λ co w. (done co, w);
  update_status = λ co w. (done tt, w);
  create_or_update = λ o f w. (done applied, w);
  list_namespaces = λ labels w. (done (namespace ∷ []), w);
  list_hosted_clusters = λ ns labels w. (done [], w);
  list_node_pools = λ ns labels w. (done [], w);
  delete_namespace = λ n w. (done tt, w);
  marshal = λ co. ok "";
  deep_equal = λ a b. false;
  network = net;
}

abbrev reconciler : ClusterOrderReconciler
reconciler = record {
  create_cluster_webhook = "";
  delete_cluster_webhook = "";
  cluster_order_namespace = "orders";
  webhook_client = webhook_client;
}

abbrev scope : ClusterScope (Unit {0})
scope = record {
  instance = order;
  world = record { cluster = tt; webhooks = no_requests };
  calls = [];
}

abbrev pool : NodePool
pool = record { name = "pool"; replicas = 3 }

api-Mutates : Mutates api.create_or_update
api-Mutates o f w a e good = cc

initialize_status_conditions-Extends_example :
    let once = initialize_status_conditions kube order in
    All (λ call. is_present (get_condition once.status.conditions call.0) ≡ true) initial_conditions
    × Extends kube [] once.status.conditions
    × (initialize_status_conditions kube once ≡ once)
initialize_status_conditions-Extends_example = initialize_status_conditions-Extends kube order

handle_node_pools-misplaces_example : handle_node_pools (pool ∷ pool ∷ []) order ≡ record order {
  spec = record order.spec {
    node_requests = request ∷ record { resource_class = "large"; number_of_nodes = 3 } ∷ [];
  };
}
handle_node_pools-misplaces_example =
    handle_node_pools-misplaces pool (pool ∷ []) order request refl tt

handle_update-IsReferenced_example :
    IsReferenced (handle_update kube api reconciler scope).1.instance
unfolding handle_update
handle_update-IsReferenced_example =
    handle_update-IsReferenced kube api reconciler api-Mutates scope no_requeue refl

handle_delete-OrderReleased_example :
    OrderReleased api scope (handle_delete kube api reconciler scope).1
handle_delete-OrderReleased_example = handle_delete-OrderReleased kube api reconciler scope

-- ===== src/ClusterOrder/Handlers.antt =====
-- Reconcile, handleUpdate and handleDelete of internal/controller/clusterorder_controller.go, with
-- findNamespace, findHostedCluster and the mapping of watched objects to orders.
use cloudkit_operator.Prelude.{
  ℕ, String, Option, none, some, List, [], ◌∷◌, if◌then◌else◌, plain, join_text, length, lookup,
  Dictionary, Result, ok, err, Outcome, done, failed, panicked, Handler, attempt, pure, panic, lift,
  ◌>>=◌, ◌>>◌, as_api_not_found, is_present,
}
use cloudkit_operator.Strconv.{itoa}
use cloudkit_operator.Api.Kube.{Kube}
use cloudkit_operator.Api.Condition.{condition_true}
use cloudkit_operator.Api.ClusterOrder.{
  ClusterOrder, ClusterOrderPhase, ClusterOrderStatus, set_status_condition,
}
use cloudkit_operator.ComputeInstance.Run.{CtrlResult, no_requeue}
use cloudkit_operator.Controller.{
  Remote, Namespace, current, modify, asking, telling, on_cluster, raise_if, has_entry,
  management_state_annotation,
}
use cloudkit_operator.Controller.Components.{
  AppResource, create_or_update, only_item, trigger_unless_manual,
}
use cloudkit_operator.ClusterOrder.Resources.{
  ClusterApi, ClusterScope, ClusterOrderReconciler, HostedCluster, called_delete_namespace,
  cluster_order_name_label, label_selector_from_instance, new_namespace, new_service_account,
  new_admin_role_binding,
}
use cloudkit_operator.ClusterOrder.Observed.{
  set_phase, as_expected, initialize_status_conditions, handle_hosted_cluster,
}

abbrev pub cluster_order_finalizer : String
cluster_order_finalizer = "cloudkit.openshift.io/finalizer"

abbrev pub set_finalizers : List String → ClusterOrder → ClusterOrder
set_finalizers fs co = record co { finalizers = fs }

abbrev pub too_many : {A : Type 0} → String → ClusterOrder → List A → String
too_many what co items =
    join_text "found too many ("
      (join_text (itoa (length items)) (join_text what (join_text " for " co.name)))

module _ {V : Type 0} (api : ClusterApi V) where
  unfoldable pub find_hosted_cluster : String → Handler (ClusterScope V) (Option HostedCluster)
  unfolding current asking on_cluster lift only_item label_selector_from_instance
  find_hosted_cluster namespace = do
    co ← current
    items ←
        asking (on_cluster (api.list_hosted_clusters namespace (label_selector_from_instance co)))
    lift (only_item (plain (too_many ") matching hosted clusters" co items)) items)

  unfoldable pub find_namespace : Handler (ClusterScope V) (Option Namespace)
  unfolding current asking on_cluster lift only_item label_selector_from_instance
  find_namespace = do
    co ← current
    items ← asking (on_cluster (api.list_namespaces (label_selector_from_instance co)))
    lift (only_item (plain (too_many ") matching namespaces" co items)) items)

  unfoldable pub update : Handler (ClusterScope V) (Unit {0})
  unfolding current modify asking on_cluster
  update = do co ← current; answer ← asking (on_cluster (api.update co)); modify (λ old. answer)

  -- one round of the loop over r.components()
  unfoldable pub handle_component :
      Handler (ClusterScope V) (AppResource ClusterOrder) → Handler (ClusterScope V) (Unit {0})
  unfolding create_or_update raise_if
  handle_component fn = do
    resource ← fn
    applied ← create_or_update api.create_or_update resource
    raise_if applied.error

  unfoldable pub handle_components :
      List (Handler (ClusterScope V) (AppResource ClusterOrder))
      → Handler (ClusterScope V) (Unit {0})
  unfolding pure handle_component
  handle_components [] = pure tt
  handle_components (fn ∷ fns) = do handle_component fn; handle_components fns

  unfoldable pub components : List (Handler (ClusterScope V) (AppResource ClusterOrder))
  unfolding new_namespace new_service_account new_admin_role_binding
  components = new_namespace api ∷ new_service_account api ∷ new_admin_role_binding api ∷ []

module _ {V : Type 0} (kube : Kube) (api : ClusterApi V) where
  -- The error of findHostedCluster is dropped.
  unfoldable pub with_hosted_cluster :
      Result (Option HostedCluster) → Handler (ClusterScope V) (Unit {0})
  unfolding pure handle_hosted_cluster
  with_hosted_cluster (ok (some hc)) = handle_hosted_cluster kube api hc
  with_hosted_cluster (ok none) = pure tt
  with_hosted_cluster (err e) = pure tt

  -- ns.GetName() on a nil namespace
  unfoldable pub with_namespace : Option Namespace → Handler (ClusterScope V) (Unit {0})
  unfolding panic with_hosted_cluster find_hosted_cluster
  with_namespace none = panic
  with_namespace (some namespace) = do
    answer ← attempt (find_hosted_cluster api namespace.name)
    with_hosted_cluster answer

  unfoldable pub add_finalizer : Handler (ClusterScope V) (Unit {0})
  unfolding current modify pure update
  add_finalizer = do
    co ← current
    let added = kube.add_finalizer co.finalizers cluster_order_finalizer
    modify (set_finalizers added.0)
    if added.1 then update api else pure tt

  unfoldable pub remove_finalizer : Handler (ClusterScope V) (Unit {0})
  unfolding current modify pure update
  remove_finalizer = do
    co ← current
    if kube.contains_finalizer co.finalizers cluster_order_finalizer
        then (do
          let removed = kube.remove_finalizer co.finalizers cluster_order_finalizer
          modify (set_finalizers removed.0)
          if removed.1 then update api else pure tt)
        else pure tt

  unfoldable pub delete_unless_hosted :
      Namespace → Option HostedCluster → Handler (ClusterScope V) (Unit {0})
  unfolding pure telling on_cluster
  delete_unless_hosted namespace (some hc) = pure tt
  delete_unless_hosted namespace none =
      telling (called_delete_namespace namespace) (on_cluster (api.delete_namespace namespace))

  -- the namespace, if there is one, and else the finalizer
  unfoldable pub release : Option Namespace → Handler (ClusterScope V) (Unit {0})
  unfolding delete_unless_hosted remove_finalizer find_hosted_cluster
  release none = remove_finalizer
  release (some namespace) = do
    hc ← find_hosted_cluster api namespace.name
    delete_unless_hosted namespace hc

module _ {V : Type 0} (kube : Kube) (api : ClusterApi V) (r : ClusterOrderReconciler) where
  unfoldable pub trigger_webhook : String → Handler (ClusterScope V) CtrlResult
  unfolding current trigger_unless_manual
  trigger_webhook url = do
    co ← current
    trigger_unless_manual api.network r.webhook_client url co.annotations
        (record { name = co.name; marshal = api.marshal co })

  unfoldable pub handle_update : Handler (ClusterScope V) CtrlResult
  unfolding modify add_finalizer handle_components components find_namespace with_namespace
      trigger_webhook initialize_status_conditions set_status_condition
  handle_update = do
    modify (initialize_status_conditions kube)
    modify (set_phase ClusterOrderPhase.progressing)
    add_finalizer kube api
    handle_components api (components api)
    modify (λ co. set_status_condition kube co "NamespaceCreated" condition_true "" as_expected)
    namespace ← find_namespace api
    with_namespace kube api namespace
    trigger_webhook r.create_cluster_webhook

  unfoldable pub handle_delete : Handler (ClusterScope V) CtrlResult
  unfolding modify find_namespace release trigger_webhook
  handle_delete = do
    modify (set_phase ClusterOrderPhase.deleting)
    namespace ← find_namespace api
    release kube api namespace
    trigger_webhook r.delete_cluster_webhook

  unfoldable pub handle : Option ℕ → Handler (ClusterScope V) CtrlResult
  unfolding handle_update handle_delete
  handle none = handle_update
  handle (some deleted_at) = handle_delete

  -- The status is written only when the handler returned no error.
  unfoldable pub write_status :
      ClusterOrderStatus → Outcome CtrlResult → Handler (ClusterScope V) CtrlResult
  unfolding asking on_cluster pure current
  write_status old (done res) s =
      if api.deep_equal s.instance.status old
      then (done res, s)
      else (do co ← current; asking (on_cluster (api.update_status co)); pure res) s
  write_status old (failed e) s = (failed e, s)
  write_status old panicked s = (panicked, s)

  unfoldable pub reconcile_instance : Handler (ClusterScope V) CtrlResult
  unfolding handle write_status has_entry
  reconcile_instance s =
      let handled = handle s.instance.deletion_timestamp s in
      if has_entry management_state_annotation "unmanaged" s.instance.annotations
      then (done no_requeue, s)
      else write_status s.instance.status handled.0 handled.1

  unfoldable pub got : Result ClusterOrder → Handler (Remote V) CtrlResult
  unfolding reconcile_instance as_api_not_found is_present
  got (err e) w = if is_present (as_api_not_found e) then (done no_requeue, w) else (failed e, w)
  got (ok co) w =
      let ended = reconcile_instance (record { instance = co; world = w; calls = [] }) in
      (ended.0, ended.1.world)

  unfoldable pub reconcile : String → String → Handler (Remote V) CtrlResult
  unfolding got on_cluster
  reconcile namespace name = do answer ← attempt (on_cluster (api.get namespace name)); got answer

  -- the order whose name is looked up is there or not
  requests : String → Result ClusterOrder → List (String × String)
  requests name (ok co) = (r.cluster_order_namespace, name) ∷ []
  requests name (err e) = []

  labelled : Option String → Handler V (List (String × String))
  unfolding pure requests
  labelled none = pure []
  labelled (some name) = do
    answer ← attempt (api.get r.cluster_order_namespace name)
    pure (requests name answer)

  unfoldable pub map_object_to_cluster : Dictionary → Handler V (List (String × String))
  unfolding labelled lookup
  map_object_to_cluster labels = labelled (lookup cluster_order_name_label labels)

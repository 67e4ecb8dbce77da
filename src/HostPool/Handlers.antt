-- ===== src/HostPool/Handlers.antt =====
-- Reconcile, handleUpdate and handleDelete of internal/controller/hostpool_controller.go, and the
-- mapping of watched objects to pools.
use cloudkit_operator.Prelude.{
  ℕ, String, not, Option, none, some, List, [], ◌∷◌, if◌then◌else◌, lookup, Dictionary, Result, ok,
  err, Outcome, done, failed, panicked, Handler, attempt, pure, ◌>>=◌, ◌>>◌, as_api_not_found,
  is_present,
}
use cloudkit_operator.Api.Kube.{Kube}
use cloudkit_operator.Api.Condition.{condition_true}
use cloudkit_operator.Api.HostPool.{
  HostPool, HostPoolPhase, HostPoolStatus, set_condition, host_pool_condition_deleting,
}
use cloudkit_operator.ComputeInstance.Run.{CtrlResult, no_requeue}
use cloudkit_operator.Controller.{
  Remote, Namespace, current, modify, asking, on_cluster, has_entry, management_state_annotation,
}
use cloudkit_operator.HostPool.Resources.{
  HostPoolApi, HostPoolScope, HostPoolReconciler, host_pool_name_label, new_host_pool_namespace,
}
use cloudkit_operator.HostPool.Steps.{
  host_pool_finalizer, set_finalizers, set_phase, requeue_now, find_namespace, update,
  handle_component, set_initial_conditions, mark_ready, call_create_webhook, call_delete_webhook,
  delete_after,
}

module _ {V : Type 0} (kube : Kube) (api : HostPoolApi V) (r : HostPoolReconciler) where
  unfoldable pub handle_update : Handler (HostPoolScope V) CtrlResult
  unfolding current modify pure update set_initial_conditions handle_component
      new_host_pool_namespace call_create_webhook mark_ready
  handle_update = do
    hp ← current
    if not (kube.contains_finalizer hp.finalizers host_pool_finalizer)
        then (do
          modify (set_finalizers (kube.add_finalizer hp.finalizers host_pool_finalizer).0)
          update api
          pure requeue_now)
        else do
          modify (set_initial_conditions api)
          handle_component api "Namespace" (new_host_pool_namespace api)
          call_create_webhook api r
          modify (mark_ready api)
          pure no_requeue

  unfoldable pub remove_finalizer : Handler (HostPoolScope V) CtrlResult
  unfolding current modify pure update
  remove_finalizer = do
    hp ← current
    let removed = kube.remove_finalizer hp.finalizers host_pool_finalizer
    modify (set_finalizers removed.0)
    if removed.1 then update api else pure tt
    pure no_requeue

  -- the webhook and then the namespace, or without a namespace the finalizer
  unfoldable pub release : Option Namespace → Handler (HostPoolScope V) CtrlResult
  unfolding call_delete_webhook delete_after remove_finalizer
  release none = remove_finalizer
  release (some namespace) = do
    early ← call_delete_webhook api r
    delete_after api r namespace early

  unfoldable pub mark_deleting : HostPool → HostPool
  unfolding set_condition
  mark_deleting hp = set_phase HostPoolPhase.deleting (
      set_condition api.now hp host_pool_condition_deleting condition_true "HostPoolDeleting"
        "HostPool is being deleted")

  unfoldable pub handle_delete : Handler (HostPoolScope V) CtrlResult
  unfolding current modify pure mark_deleting find_namespace release
  handle_delete = do
    modify mark_deleting
    hp ← current
    if not (kube.contains_finalizer hp.finalizers host_pool_finalizer)
        then pure no_requeue
        else do namespace ← find_namespace api; release namespace

  unfoldable pub handle : Option ℕ → Handler (HostPoolScope V) CtrlResult
  unfolding handle_update handle_delete
  handle none = handle_update
  handle (some deleted_at) = handle_delete

  -- The status is written only when the handler returned no error.
  unfoldable pub write_status :
      HostPoolStatus → Outcome CtrlResult → Handler (HostPoolScope V) CtrlResult
  unfolding asking on_cluster pure current
  write_status old (done res) s =
      if api.deep_equal s.instance.status old
      then (done res, s)
      else (do hp ← current; asking (on_cluster (api.update_status hp)); pure res) s
  write_status old (failed e) s = (failed e, s)
  write_status old panicked s = (panicked, s)

  unfoldable pub reconcile_instance : Handler (HostPoolScope V) CtrlResult
  unfolding handle write_status has_entry
  reconcile_instance s =
      let handled = handle s.instance.deletion_timestamp s in
      if has_entry management_state_annotation "unmanaged" s.instance.annotations
      then (done no_requeue, s)
      else write_status s.instance.status handled.0 handled.1

  unfoldable pub got : Result HostPool → Handler (Remote V) CtrlResult
  unfolding reconcile_instance as_api_not_found is_present
  got (err e) w = if is_present (as_api_not_found e) then (done no_requeue, w) else (failed e, w)
  got (ok hp) w =
      let ended = reconcile_instance (record { instance = hp; world = w; calls = [] }) in
      (ended.0, ended.1.world)

  unfoldable pub reconcile : String → String → Handler (Remote V) CtrlResult
  unfolding got on_cluster
  reconcile namespace name = do answer ← attempt (on_cluster (api.get namespace name)); got answer

  -- the pool whose name is looked up is there or not
  requests : String → Result HostPool → List (String × String)
  requests name (ok hp) = (r.host_pool_namespace, name) ∷ []
  requests name (err e) = []

  labelled : Option String → Handler V (List (String × String))
  unfolding pure requests
  labelled none = pure []
  labelled (some name) = do
    answer ← attempt (api.get r.host_pool_namespace name)
    pure (requests name answer)

  unfoldable pub map_object_to_host_pool : Dictionary → Handler V (List (String × String))
  unfolding labelled lookup
  map_object_to_host_pool labels = labelled (lookup host_pool_name_label labels)

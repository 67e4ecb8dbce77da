-- ===== src/Tenant/Handlers.antt =====
-- Reconcile, handleUpdate and handleDelete of internal/controller/tenant_controller.go.
use cloudkit_operator.Prelude.{
  ℕ, String, List, Option, none, some, not, if◌then◌else◌, Result, ok, err, Outcome, done, failed,
  panicked, as_api_not_found, is_present, Handler, attempt, [], ◌∷◌, Dictionary, lookup, pure,
  ◌>>=◌, ◌>>◌,
}
use cloudkit_operator.Api.Kube.{Kube}
use cloudkit_operator.Api.Tenant.{Tenant, TenantPhase, TenantStatus}
use cloudkit_operator.ComputeInstance.Run.{CtrlResult, no_requeue}
use cloudkit_operator.Controller.{current, modify, asking}
use cloudkit_operator.Tenant.Resources.{
  TenantApi, TenantScope, create_or_update_tenant_namespace, create_or_update_tenant_udn,
  delete_tenant_udn, delete_tenant_namespace,
}

abbrev pub tenant_finalizer : String
tenant_finalizer = "cloudkit.openshift.io/tenant"

abbrev pub set_phase : TenantPhase → Tenant → Tenant
set_phase phase t = record t { status = record t.status { phase = phase } }

abbrev pub set_finalizers : List String → Tenant → Tenant
set_finalizers fs t = record t { finalizers = fs }

unfoldable pub failed_phase :
    {W : Type 0} → Outcome (Unit {0}) → TenantScope W → Outcome (Unit {0}) × TenantScope W
failed_phase (failed e) s =
    (failed e, record s { instance = set_phase TenantPhase.failed s.instance })
failed_phase outcome s = (outcome, s)

-- if err := m(); err != nil { instance.Status.Phase = Failed; return err }
unfoldable pub or_failed :
    {W : Type 0} → Handler (TenantScope W) (Unit {0}) → Handler (TenantScope W) (Unit {0})
unfolding failed_phase
or_failed m s = failed_phase (m s).0 (m s).1

module _ {W : Type 0} (kube : Kube) (api : TenantApi W) where
  -- r.Update(ctx, instance)
  unfoldable pub update : Handler (TenantScope W) (Unit {0})
  unfolding current modify asking
  update = do t ← current; answer ← asking (api.update t); modify (λ old. answer)

  unfoldable pub handle_update : Handler (TenantScope W) CtrlResult
  unfolding update current modify pure or_failed create_or_update_tenant_namespace
      create_or_update_tenant_udn
  handle_update = do
    t ← current
    if not (kube.contains_finalizer t.finalizers tenant_finalizer)
        then (do
          modify (set_finalizers (kube.add_finalizer t.finalizers tenant_finalizer).0)
          update
          pure no_requeue)
        else do
          modify (set_phase TenantPhase.progressing)
          or_failed (create_or_update_tenant_namespace api)
          or_failed (create_or_update_tenant_udn api)
          modify (set_phase TenantPhase.ready)
          pure no_requeue

  unfoldable pub remove_finalizer : Handler (TenantScope W) CtrlResult
  unfolding update current modify pure
  remove_finalizer = do
    t ← current
    let removed = kube.remove_finalizer t.finalizers tenant_finalizer
    modify (set_finalizers removed.0)
    if removed.1 then update else pure tt
    pure no_requeue

  unfoldable pub handle_delete : Handler (TenantScope W) CtrlResult
  unfolding current modify pure delete_tenant_udn delete_tenant_namespace remove_finalizer
  handle_delete = do
    modify (set_phase TenantPhase.deleting)
    t ← current
    if not (kube.contains_finalizer t.finalizers tenant_finalizer) then pure no_requeue else do
      udn ← delete_tenant_udn api
      if udn then pure no_requeue else do
        namespace ← delete_tenant_namespace api
        if namespace then pure no_requeue else remove_finalizer

  unfoldable pub handle : Option ℕ → Handler (TenantScope W) CtrlResult
  handle none = handle_update
  handle (some deleted_at) = handle_delete

  -- The error of the status update hides that of the handler.
  unfoldable pub write_status :
      TenantStatus → Outcome CtrlResult → Handler (TenantScope W) CtrlResult
  unfolding asking current
  write_status old panicked s = (panicked, s)
  write_status old outcome s =
      if api.deep_equal s.instance.status old
      then (outcome, s)
      else ((do t ← current; asking (api.update_status t)) >> λ after. (outcome, after)) s

  unfoldable pub reconcile_instance : Handler (TenantScope W) CtrlResult
  unfolding handle write_status
  reconcile_instance s =
      let handled = handle s.instance.deletion_timestamp s in
      write_status s.instance.status handled.0 handled.1

  unfoldable pub got : Result Tenant → Handler W CtrlResult
  unfolding reconcile_instance as_api_not_found is_present
  got (err e) w = if is_present (as_api_not_found e) then (done no_requeue, w) else (failed e, w)
  got (ok t) w =
      let ended = reconcile_instance (record { instance = t; world = w; calls = [] }) in
      (ended.0, ended.1.world)

  unfoldable pub reconcile : String → String → Handler W CtrlResult
  unfolding got
  reconcile namespace name = do answer ← attempt (api.get namespace name); got answer

  -- the key of the tenant that was found
  requests : Result Tenant → List (String × String)
  requests (ok t) = (t.namespace, t.name) ∷ []
  requests (err e) = []

  labelled : String → Option String → Handler W (List (String × String))
  unfolding pure requests
  labelled tenant_namespace none = pure []
  labelled tenant_namespace (some name) = do
    answer ← attempt (api.get tenant_namespace name)
    pure (requests answer)

  -- for an object with the labels, in a controller of the namespace
  unfoldable pub map_object_to_tenant : String → Dictionary → Handler W (List (String × String))
  unfolding labelled lookup
  map_object_to_tenant tenant_namespace labels =
      labelled tenant_namespace (lookup "cloudkit.openshift.io/tenant-ref" labels)

-- ===== src/ComputeInstance/Reconcile.antt =====
-- Reconcile and updateStatusWithRetry of internal/controller/computeinstance_controller.go.
pub mod Records
use cloudkit_operator.Prelude.{
  ℕ, Bool, Option, none, some, Result, ok, err, GoError, as_api_not_found, is_present, Outcome,
  done, failed, panicked, Handler, pure, raise, lift, if◌then◌else◌, ◌>>=◌, ◌>>◌, List, [],
}
use cloudkit_operator.Api.Kube.{Kube}
use cloudkit_operator.Api.ComputeInstance.{ComputeInstance, ComputeInstanceStatus}
use cloudkit_operator.ComputeInstance.Run.{
  CtrlResult, no_requeue, Reconciler, Cluster, Run, Call, current, modify, log_call,
  called_update_status, has_management_state, set_status,
}
use cloudkit_operator.ComputeInstance.Update.{handle_update}
use cloudkit_operator.ComputeInstance.Delete.{handle_delete}

-- one attempt of updateStatusWithRetry
unfoldable pub write_latest :
    Cluster → ComputeInstanceStatus → ℕ → Result ComputeInstance → Result (Unit {0})
write_latest cluster new_status attempt (err e) = err e
write_latest cluster new_status attempt (ok latest) =
    cluster.update_status attempt (set_status new_status latest)

unfoldable pub update_status_with_retry :
    {S : Type 0} → Cluster → ComputeInstanceStatus → Handler (Run S) (Unit {0})
unfolding log_call lift write_latest
update_status_with_retry cluster new_status = do
  log_call (called_update_status new_status)
  lift (cluster.retry_on_conflict (λ n. write_latest cluster new_status n (cluster.get_latest n)))

module _ {S : Type 0} (kube : Kube) (r : Reconciler S) (cluster : Cluster) where
  unfoldable pub handle : Option ℕ → Handler (Run S) CtrlResult
  handle none = handle_update kube r cluster
  handle (some deleted_at) = handle_delete kube r cluster

  -- `run` is behind the handler; a panic unwinds before the status is written.
  unfoldable pub finish : ComputeInstanceStatus → Outcome CtrlResult → Handler (Run S) CtrlResult
  unfolding update_status_with_retry
  finish old_status panicked run = (panicked, run)
  finish old_status (done result) run =
      if cluster.deep_equal run.instance.status old_status
      then (done result, run)
      else (update_status_with_retry cluster run.instance.status >> pure result) run
  finish old_status (failed e) run =
      if cluster.deep_equal run.instance.status old_status
      then (failed e, run)
      else (update_status_with_retry cluster run.instance.status >> raise e) run

  unfoldable pub reconcile_instance : Handler (Run S) CtrlResult
  unfolding has_management_state pure handle finish
  reconcile_instance run =
      if has_management_state "unmanaged" run.instance
      then (done no_requeue, run)
      else (let handled = handle run.instance.deletion_timestamp run in
          finish run.instance.status handled.0 handled.1)

  -- Reconcile at a provider's state
  unfoldable pub got : Result ComputeInstance → S → Outcome CtrlResult × S × List Call
  unfolding reconcile_instance as_api_not_found is_present
  got (err e) backend =
      if is_present (as_api_not_found e)
      then (done no_requeue, backend, [])
      else (failed e, backend, [])
  got (ok instance) backend =
      let ended =
        reconcile_instance (record { instance = instance; backend = backend; calls = [] }) in
      (ended.0, ended.1.backend, ended.1.calls)

  unfoldable pub reconcile : S → Outcome CtrlResult × S × List Call
  unfolding got
  reconcile backend = got cluster.get backend

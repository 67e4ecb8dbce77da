-- ===== src/ComputeInstance/Deprovisioning.antt =====
-- handleDeprovisioning of internal/controller/computeinstance_controller.go.
pub mod Release
pub mod Effects
pub mod Unpolled
use cloudkit_operator.Prelude.{
  ℕ, String, Bool, true, false, Option, none, some, List, [], ◌∷◌, ◌==◌, if◌then◌else◌, join_text,
  Result, ok, err, GoError, as_rate_limit, error_text, Handler, pure, attempt, panic, ◌>>=◌, ◌>>◌,
}
use cloudkit_operator.Api.Job.{
  JobStatus, provision, deprovision, pending, is_terminal, is_successful, find_latest_job_by_type,
}
use cloudkit_operator.Provisioning.Provider.{
  DeprovisionResult, DeprovisionAction, deprovision_waiting, deprovision_skipped,
  deprovision_triggered, ProvisionStatus, ProvisioningProvider,
}
use cloudkit_operator.ComputeInstance.Run.{
  CtrlResult, no_requeue, requeue_in, Reconciler, Cluster, Run, current, calling,
  called_trigger_deprovision, called_get_deprovision_status, has_management_state,
}
use cloudkit_operator.ComputeInstance.Provisioning.{add_job, write_job, reported}

unfoldable pub deprovision_job : ℕ → DeprovisionResult → JobStatus
deprovision_job now result = record {
  job_id = result.job_id;
  type = deprovision;
  timestamp = now;
  state = pending;
  message = "Deprovisioning job triggered";
  block_deletion_on_failure = result.block_deletion_on_failure;
}

module _ {S : Type 0} where
  write_provision_status : ProvisionStatus → Option JobStatus → Handler (Run S) (Unit {0})
  unfolding write_job pure
  write_provision_status status none = pure tt
  write_provision_status status (some job) =
      write_job (record job { state = status.state; message = status.message })

  -- the provision job's status, if the provider returned one and there is such a job
  unfoldable pub update_provision_job : Option ProvisionStatus → Handler (Run S) (Unit {0})
  unfolding write_provision_status current pure
  update_provision_job none = pure tt
  update_provision_job (some status) = do
    ci ← current
    write_provision_status status (find_latest_job_by_type ci.status.jobs provision)

module _ {S : Type 0} (r : Reconciler S) (cluster : Cluster) where
  act : DeprovisionAction → DeprovisionResult → Handler (Run S) CtrlResult
  unfolding add_job update_provision_job pure
  act deprovision_waiting result = do
    update_provision_job result.provision_job_status
    pure (requeue_in r.status_poll_interval)
  act deprovision_skipped result = pure no_requeue
  act deprovision_triggered result = do
    update_provision_job result.provision_job_status
    add_job r.max_job_history (deprovision_job cluster.now result)
    pure (requeue_in r.status_poll_interval)

  retry_after : Option ℕ → CtrlResult
  retry_after (some after) = requeue_in after
  retry_after none = requeue_in r.status_poll_interval

  triggered : Result DeprovisionResult → Handler (Run S) CtrlResult
  unfolding act retry_after pure
  triggered (err e) = pure (retry_after (as_rate_limit e))
  triggered (ok result) = act result.action result

  unfoldable pub trigger : ProvisioningProvider S → Handler (Run S) CtrlResult
  unfolding triggered current calling
  trigger provider = do
    ci ← current
    answer ← attempt (calling called_trigger_deprovision (provider.trigger_deprovision ci))
    triggered answer

  polled : JobStatus → Result ProvisionStatus → Handler (Run S) CtrlResult
  unfolding write_job pure
  polled job (err e) = do
    write_job (record job {
      message = join_text "Failed to get job status: " (error_text cluster.duration_text e);
    })
    pure (requeue_in r.status_poll_interval)
  polled job (ok status) = do
    write_job (reported job status)
    if is_terminal status.state
        then (if is_successful status.state
            then pure no_requeue
            else if job.block_deletion_on_failure
            then pure (requeue_in r.status_poll_interval)
            else pure no_requeue)
        else pure (requeue_in r.status_poll_interval)

  unfoldable pub poll : ProvisioningProvider S → JobStatus → Handler (Run S) CtrlResult
  unfolding polled current calling
  poll provider job = do
    ci ← current
    answer ← attempt (
        calling (called_get_deprovision_status job.job_id)
          (provider.get_deprovision_status ci job.job_id))
    polled job answer

  trigger_or_poll : ProvisioningProvider S → Option JobStatus → Handler (Run S) CtrlResult
  trigger_or_poll provider none = trigger provider
  trigger_or_poll provider (some job) =
      if job.job_id == "" then trigger provider else poll provider job

  -- A method call on a nil provider panics: both branches make one.
  with_provider : Option (ProvisioningProvider S) → Handler (Run S) CtrlResult
  unfolding trigger_or_poll current panic
  with_provider none = panic
  with_provider (some provider) = do
    ci ← current
    trigger_or_poll provider (find_latest_job_by_type ci.status.jobs deprovision)

  unfoldable pub handle_deprovisioning : Handler (Run S) CtrlResult
  unfolding with_provider current pure
  handle_deprovisioning = do
    ci ← current
    if has_management_state "manual" ci
        then pure no_requeue
        else with_provider r.provisioning_provider

-- ===== src/ComputeInstance/Provisioning.antt =====
-- handleProvisioning of internal/controller/computeinstance_controller.go.
pub mod Triggers
use cloudkit_operator.Prelude.{
  ℕ, String, Bool, true, false, Option, none, some, List, [], ◌∷◌, ◌==◌, if◌then◌else◌, join_text,
  Result, ok, err, GoError, as_rate_limit, error_text, Handler, pure, attempt, panic, ◌>>=◌, ◌>>◌,
}
use cloudkit_operator.Api.Job.{
  JobType, JobStatus, provision, failed, is_terminal, is_successful, find_latest_job_by_type,
}
use cloudkit_operator.Api.ComputeInstance.{ComputeInstance, ComputeInstancePhase}
use cloudkit_operator.Provisioning.Provider.{ProvisionResult, ProvisionStatus, ProvisioningProvider}
use cloudkit_operator.ComputeInstance.Run.{
  CtrlResult, no_requeue, requeue_in, Reconciler, Cluster, Run, current, modify, calling,
  called_trigger_provision, called_get_provision_status, has_management_state,
}
use cloudkit_operator.ComputeInstance.Jobs.{append_job, update_job}
use cloudkit_operator.ComputeInstance.Version.{set_reconciled}

abbrev pub set_jobs : List JobStatus → ComputeInstance → ComputeInstance
set_jobs jobs ci = record ci { status = record ci.status { jobs = jobs } }

abbrev pub set_phase : ComputeInstancePhase → ComputeInstance → ComputeInstance
set_phase phase ci = record ci { status = record ci.status { phase = phase } }

-- instance.Status.Jobs = r.appendJob(instance.Status.Jobs, newJob)
unfoldable pub add_job : {S : Type 0} → ℕ → JobStatus → Handler (Run S) (Unit {0})
unfolding modify
add_job max_history new_job =
    modify (λ ci. set_jobs (append_job max_history ci.status.jobs new_job) ci)

-- updateJob(instance.Status.Jobs, updatedJob), whose result the handlers drop
unfoldable pub write_job : {S : Type 0} → JobStatus → Handler (Run S) (Unit {0})
unfolding modify
write_job updated = modify (λ ci. set_jobs (update_job ci.status.jobs updated).0 ci)

-- the job with what its provider reports
unfoldable pub reported : JobStatus → ProvisionStatus → JobStatus
reported job status = record job {
  state = status.state;
  message =
      if status.error_details == ""
      then status.message
      else join_text status.message (join_text ": " status.error_details);
}

unfoldable pub job_of_result : ℕ → ProvisionResult → JobStatus
job_of_result now result = record {
  job_id = result.job_id;
  type = provision;
  timestamp = now;
  state = result.initial_state;
  message = result.message;
  block_deletion_on_failure = false;
}

unfoldable pub job_of_failure : ℕ → String → JobStatus
job_of_failure now text = record {
  job_id = "";
  type = provision;
  timestamp = now;
  state = failed;
  message = join_text "Failed to trigger provisioning: " text;
  block_deletion_on_failure = false;
}

-- no job, or one without an id
unfoldable pub has_no_id : Option JobStatus → Bool
has_no_id none = true
has_no_id (some job) = job.job_id == ""

module _ {S : Type 0} (r : Reconciler S) (cluster : Cluster) where
  trigger_error : GoError → Option ℕ → Handler (Run S) CtrlResult
  unfolding add_job pure
  trigger_error e (some retry_after) = pure (requeue_in retry_after)
  trigger_error e none = do
    add_job r.max_job_history (job_of_failure cluster.now (error_text cluster.duration_text e))
    pure (requeue_in r.status_poll_interval)

  triggered : Result ProvisionResult → Handler (Run S) CtrlResult
  unfolding trigger_error add_job pure
  triggered (err e) = trigger_error e (as_rate_limit e)
  triggered (ok result) = do
    add_job r.max_job_history (job_of_result cluster.now result)
    pure (requeue_in r.status_poll_interval)

  unfoldable pub trigger : ProvisioningProvider S → Handler (Run S) CtrlResult
  unfolding triggered current calling
  trigger provider = do
    ci ← current
    answer ← attempt (calling called_trigger_provision (provider.trigger_provision ci))
    triggered answer

  completed : ProvisionStatus → Handler (Run S) CtrlResult
  unfolding modify pure
  completed status =
      if is_successful status.state
      then (do
        modify (λ ci.
            if status.reconciled_version == ""
            then ci
            else set_reconciled status.reconciled_version ci)
        pure no_requeue)
      else do modify (set_phase ComputeInstancePhase.failed); pure no_requeue

  polled : JobStatus → Result ProvisionStatus → Handler (Run S) CtrlResult
  unfolding completed write_job pure
  polled job (err e) = do
    write_job (record job {
      message = join_text "Failed to get job status: " (error_text cluster.duration_text e);
    })
    pure (requeue_in r.status_poll_interval)
  polled job (ok status) = do
    write_job (reported job status)
    if is_terminal status.state then completed status else pure (requeue_in r.status_poll_interval)

  unfoldable pub poll : ProvisioningProvider S → JobStatus → Handler (Run S) CtrlResult
  unfolding polled current calling
  poll provider job = do
    ci ← current
    answer ← attempt (
        calling (called_get_provision_status job.job_id)
          (provider.get_provision_status ci job.job_id))
    polled job answer

  trigger_or_poll : ProvisioningProvider S → Option JobStatus → Handler (Run S) CtrlResult
  trigger_or_poll provider none = trigger provider
  trigger_or_poll provider (some job) =
      if job.job_id == "" then trigger provider else poll provider job

  with_provider : Option (ProvisioningProvider S) → Handler (Run S) CtrlResult
  unfolding trigger_or_poll current pure
  with_provider none = pure no_requeue
  with_provider (some provider) = do
    ci ← current
    trigger_or_poll provider (find_latest_job_by_type ci.status.jobs provision)

  unfoldable pub handle_provisioning : Handler (Run S) CtrlResult
  unfolding with_provider current pure
  handle_provisioning = do
    ci ← current
    if has_management_state "manual" ci
        then pure no_requeue
        else with_provider r.provisioning_provider

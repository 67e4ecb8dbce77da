-- ===== src/ComputeInstance/Deprovisioning/Unpolled.antt =====
-- handleDeprovisioning (internal/controller/computeinstance_controller.go) with a poll interval that is
-- not positive.
use cloudkit_operator.Prelude.{
  ◌≡◌, ◌≢◌, ap, ◌∙◌, false, some, Result, ok, err, done, panicked, inl, inr, ◌==◌, arith,
  Outcome-cases,
}
use cloudkit_operator.Api.Job.{JobStatus, deprovision, find_latest_job_by_type}
use cloudkit_operator.Provisioning.Provider.{ProvisioningProvider, ProvisionStatus}
use cloudkit_operator.ComputeInstance.Run.{
  Reconciler, Cluster, Run, has_management_state, no_requeue, called_get_deprovision_status,
}
use cloudkit_operator.ComputeInstance.Run.Rules.{called}
use cloudkit_operator.ComputeInstance.Deprovisioning.{
  handle_deprovisioning, with_provider, trigger_or_poll, poll, polled,
}

module _ {S : Type 0} (r : Reconciler S) (cluster : Cluster)
    (never : r.status_poll_interval ≡ 0) where
  polled-no_wait :
      (job : JobStatus) (answer : Result ProvisionStatus) (run : Run S)
      → (polled r cluster job answer run).0 ≡ done no_requeue
  unfolding polled
  polled-no_wait job answer run = ground (arith, never)

  poll-no_wait :
      (provider : ProvisioningProvider S) (job : JobStatus) (run : Run S)
      → (provider.get_deprovision_status run.instance job.job_id run.backend).0 ≢ panicked
      → (poll r cluster provider job run).0 ≡ done no_requeue
  unfolding poll
  poll-no_wait provider job run answers =
      elim (Outcome-cases (provider.get_deprovision_status run.instance job.job_id run.backend).0) [
        | inl (status, e) ↦ rw e (polled-no_wait job (ok status) _)
        | inr (inl (x, e)) ↦ rw e (
            polled-no_wait job (err x) (
              called (called_get_deprovision_status job.job_id)
                (provider.get_deprovision_status run.instance job.job_id) run))
        | inr (inr e) ↦ absurd (answers e)
      ]

  polls_latest :
      (provider : ProvisioningProvider S) (job : JobStatus) (run : Run S)
      → find_latest_job_by_type run.instance.status.jobs deprovision ≡ some job
      → (job.job_id == "") ≡ false
      → (provider.get_deprovision_status run.instance job.job_id run.backend).0 ≢ panicked
      → (with_provider r cluster (some provider) run).0 ≡ done no_requeue
  unfolding with_provider trigger_or_poll
  polls_latest provider job run latest id answers =
      rw (latest, id) (poll-no_wait provider job run answers)

  -- what the provider reports of the latest job does not matter
  pub handle_deprovisioning-no_wait :
      (provider : ProvisioningProvider S) (job : JobStatus) (run : Run S)
      → r.provisioning_provider ≡ some provider
      → has_management_state "manual" run.instance ≡ false
      → find_latest_job_by_type run.instance.status.jobs deprovision ≡ some job
      → (job.job_id == "") ≡ false
      → (provider.get_deprovision_status run.instance job.job_id run.backend).0 ≢ panicked
      → (handle_deprovisioning r cluster run).0 ≡ done no_requeue
  unfolding handle_deprovisioning
  handle_deprovisioning-no_wait provider job run there managed latest id answers = rw managed (
      ap (λ o. (with_provider r cluster o run).0) there
      ∙ polls_latest provider job run latest id answers)

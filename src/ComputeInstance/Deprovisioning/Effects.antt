-- ===== src/ComputeInstance/Deprovisioning/Effects.antt =====
-- What handleDeprovisioning (internal/controller/computeinstance_controller.go) leaves alone.
use cloudkit_operator.Prelude.{
  ◌≤◌, String, ◌≡◌, Option, none, some, List, arith, length, Bool-cases, inl, inr, Result, ok, err,
  ◌==◌, Option-cases,
}
use cloudkit_operator.Api.Job.{JobStatus, deprovision, find_latest_job_by_type, provision}
use cloudkit_operator.Provisioning.Provider.{
  ProvisioningProvider, DeprovisionResult, ProvisionStatus, deprovision_skipped,
  deprovision_triggered, deprovision_waiting, DeprovisionAction,
}
use cloudkit_operator.ComputeInstance.Run.{
  Reconciler, Cluster, Run, called_trigger_deprovision, called_get_deprovision_status,
  has_management_state,
}
use cloudkit_operator.ComputeInstance.Run.Rules.{calling_rule}
use cloudkit_operator.ComputeInstance.Jobs.History.{append_job-bounded, update_job-length}
use cloudkit_operator.ComputeInstance.Deprovisioning.{
  handle_deprovisioning, with_provider, trigger_or_poll, trigger, poll, triggered, polled, act,
  update_provision_job,
}

module _ {S : Type 0} (r : Reconciler S) (cluster : Cluster) where
  -- the finalizers are those of `fs`, and the job history is within its bound
  pub record Keeps (fs : List String) (run : Run S) : Type 0 where
    pub finalizers : run.instance.finalizers ≡ fs
    pub bounded : length run.instance.status.jobs ≤ r.max_job_history

  module _ (fs : List String) where
    update_provision_job-Keeps :
        (o : Option ProvisionStatus) (run : Run S)
        → Keeps fs run
        → Keeps fs (update_provision_job o run).1
    unfolding update_provision_job
    update_provision_job-Keeps none run h = h
    update_provision_job-Keeps (some status) run h =
        elim (Option-cases (find_latest_job_by_type run.instance.status.jobs provision)) [
          | inl e ↦ rw e h
          | inr (job, e) ↦ grind (arith, update_job-length)
        ]

    act-Keeps :
        (action : DeprovisionAction) (result : DeprovisionResult) (run : Run S)
        → Keeps fs run
        → Keeps fs (act r cluster action result run).1
    unfolding act
    act-Keeps deprovision_triggered result run h =
        grind (arith, append_job-bounded, update_job-length)
    act-Keeps deprovision_waiting result run h = grind (arith, update_job-length)
    act-Keeps deprovision_skipped result run h = h

    triggered-Keeps :
        (answer : Result DeprovisionResult) (run : Run S)
        → Keeps fs run
        → Keeps fs (triggered r cluster answer run).1
    unfolding triggered
    triggered-Keeps (err e) run h = h
    triggered-Keeps (ok result) run h = act-Keeps result.action result run h

    polled-Keeps :
        (job : JobStatus) (answer : Result ProvisionStatus) (run : Run S)
        → Keeps fs run
        → Keeps fs (polled r cluster job answer run).1
    unfolding polled
    polled-Keeps job answer run h = grind (arith, update_job-length)

    trigger-Keeps :
        (provider : ProvisioningProvider S) (run : Run S)
        → Keeps fs run
        → Keeps fs (trigger r cluster provider run).1
    unfolding trigger
    trigger-Keeps provider run h =
        calling_rule called_trigger_deprovision (provider.trigger_deprovision run.instance)
          (triggered r cluster) (λ after. Keeps fs after.1) run
          (λ answer.
            triggered-Keeps answer _ (record { finalizers = h.finalizers; bounded = h.bounded }))
          (record { finalizers = h.finalizers; bounded = h.bounded })

    poll-Keeps :
        (provider : ProvisioningProvider S) (job : JobStatus) (run : Run S)
        → Keeps fs run
        → Keeps fs (poll r cluster provider job run).1
    unfolding poll
    poll-Keeps provider job run h =
        calling_rule (called_get_deprovision_status job.job_id)
          (provider.get_deprovision_status run.instance job.job_id) (polled r cluster job)
          (λ after. Keeps fs after.1) run
          (λ answer.
            polled-Keeps job answer _ (record { finalizers = h.finalizers; bounded = h.bounded }))
          (record { finalizers = h.finalizers; bounded = h.bounded })

    trigger_or_poll-Keeps :
        (provider : ProvisioningProvider S) (latest : Option JobStatus) (run : Run S)
        → Keeps fs run
        → Keeps fs (trigger_or_poll r cluster provider latest run).1
    unfolding trigger_or_poll
    trigger_or_poll-Keeps provider none run h = trigger-Keeps provider run h
    trigger_or_poll-Keeps provider (some job) run h = elim (Bool-cases (job.job_id == "")) [
      | inl no_id ↦ rw no_id (trigger-Keeps provider run h)
      | inr id ↦ rw id (poll-Keeps provider job run h)
    ]

    with_provider-Keeps :
        (o : Option (ProvisioningProvider S)) (run : Run S)
        → Keeps fs run
        → Keeps fs (with_provider r cluster o run).1
    unfolding with_provider
    with_provider-Keeps none run h = h
    with_provider-Keeps (some provider) run h =
        trigger_or_poll-Keeps provider
          (find_latest_job_by_type run.instance.status.jobs deprovision) run h

    -- handleDeprovisioning leaves the finalizers of the object as they are, and keeps the job
    -- history within its bound.
    pub handle_deprovisioning-Keeps :
        (run : Run S) → Keeps fs run → Keeps fs (handle_deprovisioning r cluster run).1
    unfolding handle_deprovisioning
    handle_deprovisioning-Keeps run h =
        elim (Bool-cases (has_management_state "manual" run.instance)) [
          | inl manual ↦ rw manual h
          | inr managed ↦ rw managed (with_provider-Keeps r.provisioning_provider run h)
        ]

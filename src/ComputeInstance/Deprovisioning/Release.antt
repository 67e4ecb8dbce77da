-- ===== src/ComputeInstance/Deprovisioning/Release.antt =====
-- When handleDeprovisioning (internal/controller/computeinstance_controller.go) lets deletion go on.
use cloudkit_operator.Prelude.{
  ℕ, ◌<◌, ◌≡◌, refl, ◌⊎◌, inl, inr, true, false, Option, none, some, arith, Bool-cases,
  Outcome-cases, ok, err, done, failed, GoError, as_rate_limit, ◌==◌,
}
use cloudkit_operator.Api.Job.{
  JobStatus, deprovision, find_latest_job_by_type, is_terminal, is_successful,
}
use cloudkit_operator.Api.ComputeInstance.{ComputeInstance}
use cloudkit_operator.Provisioning.Provider.{
  ProvisioningProvider, DeprovisionResult, deprovision_skipped, ProvisionStatus,
}
use cloudkit_operator.ComputeInstance.Run.{
  CtrlResult, Reconciler, Cluster, Run, has_management_state,
}
use cloudkit_operator.ComputeInstance.Deprovisioning.{
  handle_deprovisioning, with_provider, trigger_or_poll, trigger, poll, triggered, polled,
}

-- Why a handler that asks for no requeue may let the object go.
pub data Released {S : Type 0} (r : Reconciler S) (run : Run S) : Type 0 where
  by_hand : has_management_state "manual" run.instance ≡ true → Released r run
  skipped :
      (provider : ProvisioningProvider S) (result : DeprovisionResult)
      → r.provisioning_provider ≡ some provider
      → (provider.trigger_deprovision run.instance run.backend).0 ≡ done result
      → result.action ≡ deprovision_skipped
      → Released r run
  succeeded :
      (provider : ProvisioningProvider S) (job : JobStatus) (status : ProvisionStatus)
      → r.provisioning_provider ≡ some provider
      → find_latest_job_by_type run.instance.status.jobs deprovision ≡ some job
      → (provider.get_deprovision_status run.instance job.job_id run.backend).0 ≡ done status
      → is_successful status.state ≡ true
      → Released r run
  not_blocking :
      (provider : ProvisioningProvider S) (job : JobStatus) (status : ProvisionStatus)
      → r.provisioning_provider ≡ some provider
      → find_latest_job_by_type run.instance.status.jobs deprovision ≡ some job
      → (provider.get_deprovision_status run.instance job.job_id run.backend).0 ≡ done status
      → is_terminal status.state ≡ true
      → job.block_deletion_on_failure ≡ false
      → Released r run

-- the rate limit errors of a provider name a time to wait
pub record Waits {S : Type 0} (provider : ProvisioningProvider S) : Type 0 where
  pub trigger_waits :
      (ci : ComputeInstance) (s : S) (e : GoError) (after : ℕ)
      → (provider.trigger_deprovision ci s).0 ≡ failed e
      → as_rate_limit e ≡ some after
      → 0 < after

module _ {S : Type 0} (r : Reconciler S) (cluster : Cluster)
    (polls : 0 < r.status_poll_interval) where
  triggered_ok :
      (result : DeprovisionResult) (run : Run S) (c : CtrlResult)
      → (triggered r cluster (ok result) run).0 ≡ done c
      → c.requeue_after ≡ 0
      → result.action ≡ deprovision_skipped
  unfolding triggered
  triggered_ok result run c h z = ground arith

  triggered_err :
      (e : GoError) (run : Run S) (c : CtrlResult)
      → (triggered r cluster (err e) run).0 ≡ done c
      → c.requeue_after ≡ 0
      → as_rate_limit e ≡ some 0
  unfolding triggered
  triggered_err e run c h z = ground arith

  polled_ok :
      (job : JobStatus) (status : ProvisionStatus) (run : Run S) (c : CtrlResult)
      → (polled r cluster job (ok status) run).0 ≡ done c
      → c.requeue_after ≡ 0
      → (is_successful status.state ≡ true)
        ⊎ (is_terminal status.state ≡ true) × (job.block_deletion_on_failure ≡ false)
  unfolding polled
  polled_ok job status run c h z = ground arith

  polled_err :
      (job : JobStatus) (e : GoError) (run : Run S) (c : CtrlResult)
      → (polled r cluster job (err e) run).0 ≡ done c
      → c.requeue_after ≡ r.status_poll_interval
  unfolding polled
  polled_err job e run c h = ground arith

  trigger-Released :
      (provider : ProvisioningProvider S) (run : Run S) (c : CtrlResult)
      → r.provisioning_provider ≡ some provider
      → Waits provider
      → (trigger r cluster provider run).0 ≡ done c
      → c.requeue_after ≡ 0
      → Released r run
  unfolding trigger
  trigger-Released provider run c p waits h z =
      elim (Outcome-cases (provider.trigger_deprovision run.instance run.backend).0) [
        | inl (result, e) ↦ skipped provider result p e (triggered_ok result _ c (rw e at h) z)
        | inr (inl (x, e)) ↦ absurd (
            omega (
              arith,
              waits.trigger_waits run.instance run.backend x 0 e
                  (triggered_err x _ c (rw e at h) z),
            ))
        | inr (inr e) ↦ absurd (ground arith)
      ]

  poll-Released :
      (provider : ProvisioningProvider S) (job : JobStatus) (run : Run S) (c : CtrlResult)
      → r.provisioning_provider ≡ some provider
      → find_latest_job_by_type run.instance.status.jobs deprovision ≡ some job
      → (poll r cluster provider job run).0 ≡ done c
      → c.requeue_after ≡ 0
      → Released r run
  unfolding poll
  poll-Released provider job run c p found h z =
      elim (Outcome-cases (provider.get_deprovision_status run.instance job.job_id run.backend).0) [
        | inl (status, e) ↦ elim (polled_ok job status _ c (rw e at h) z) [
          | inl success ↦ succeeded provider job status p found e success
          | inr (over, free) ↦ not_blocking provider job status p found e over free
        ]
        | inr (inl (x, e)) ↦ absurd (omega (arith, polled_err job x _ c (rw e at h)))
        | inr (inr e) ↦ absurd (ground arith)
      ]

  trigger_or_poll-Released :
      (provider : ProvisioningProvider S) (latest : Option JobStatus) (run : Run S) (c : CtrlResult)
      → r.provisioning_provider ≡ some provider
      → Waits provider
      → find_latest_job_by_type run.instance.status.jobs deprovision ≡ latest
      → (trigger_or_poll r cluster provider latest run).0 ≡ done c
      → c.requeue_after ≡ 0
      → Released r run
  unfolding trigger_or_poll
  trigger_or_poll-Released provider none run c p waits found h z =
      trigger-Released provider run c p waits h z
  trigger_or_poll-Released provider (some job) run c p waits found h z =
      elim (Bool-cases (job.job_id == "")) [
        | inl no_id ↦ trigger-Released provider run c p waits (rw no_id at h) z
        | inr id ↦ poll-Released provider job run c p found (rw id at h) z
      ]

  with_provider-Released :
      (o : Option (ProvisioningProvider S)) (run : Run S) (c : CtrlResult)
      → r.provisioning_provider ≡ o
      → ((provider : ProvisioningProvider S) → o ≡ some provider → Waits provider)
      → (with_provider r cluster o run).0 ≡ done c
      → c.requeue_after ≡ 0
      → Released r run
  unfolding with_provider
  with_provider-Released none run c p waits h z = absurd (ground arith)
  with_provider-Released (some provider) run c p waits h z =
      trigger_or_poll-Released provider
        (find_latest_job_by_type run.instance.status.jobs deprovision) run c p (waits provider refl)
        refl h z

  -- handleDeprovisioning returns with no time to requeue after only under manual management, or if
  -- the provider skipped deprovisioning, or if the deprovision job succeeded, or if it ended and
  -- does not block deletion. The poll interval is positive, and so is every wait that the
  -- provider's rate limit asks for.
  pub handle_deprovisioning-Released :
      (run : Run S) (c : CtrlResult)
      → ((provider : ProvisioningProvider S)
          → r.provisioning_provider ≡ some provider
          → Waits provider)
      → (handle_deprovisioning r cluster run).0 ≡ done c
      → c.requeue_after ≡ 0
      → Released r run
  unfolding handle_deprovisioning
  handle_deprovisioning-Released run c waits h z =
      elim (Bool-cases (has_management_state "manual" run.instance)) [
        | inl manual ↦ by_hand manual
        | inr managed ↦
            with_provider-Released r.provisioning_provider run c refl waits (rw managed at h) z
      ]

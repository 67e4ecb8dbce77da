-- ===== src/ComputeInstance/Delete/WithAap.antt =====
-- The deletion of an instance (handleDelete of internal/controller/computeinstance_controller.go)
-- with the AAP provider (internal/provisioning/aap_provider.go).
use mathlib.Core.Path.{subst}
use cloudkit_operator.Prelude.{
  some_unique, List, eq_iff, ◌≤◌, ◌<◌, String, ◌≡◌, ◌≢◌, ◌∙◌, ap, ◌⊎◌, inl, inr, true, false, some,
  arith, length, done, Outcome-cases,
}
use cloudkit_operator.Api.Kube.{Kube}
use cloudkit_operator.Api.Job.{
  JobStatus, deprovision, is_terminal, is_successful, find_latest_job_by_type,
}
use cloudkit_operator.Api.ComputeInstance.{ComputeInstance}
use cloudkit_operator.Aap.{AapJob}
use cloudkit_operator.Provisioning.Provider.{
  ProvisionStatus, DeprovisionResult, deprovision_skipped,
}
use cloudkit_operator.Provisioning.Aap
use cloudkit_operator.Provisioning.Aap.{
  AapClient, AapProvider, Json, aap_provider, map_aap_status_to_job_state, get_job_status,
  status_of,
}
use cloudkit_operator.ComputeInstance.Run.{Reconciler, Cluster, Run, has_management_state}
use cloudkit_operator.ComputeInstance.Deprovisioning.Release.{
  Released, by_hand, skipped, succeeded, not_blocking, Waits,
}
use cloudkit_operator.ComputeInstance.Delete.{handle_delete}
use cloudkit_operator.ComputeInstance.Delete.Guard.{marked, handle_delete-Released}

successful :
    (status : String)
    → is_successful (map_aap_status_to_job_state status) ≡ true
    → status ≡ "successful"
unfolding map_aap_status_to_job_state is_successful
successful status h = ground (arith, eq_iff status "successful")

module _ {S : Type 0} (client : AapClient S) (json : Json) (p : AapProvider) where
  -- AAP knows the latest deprovision job of the instance, and reports that it ended: with success,
  -- unless the job is one that does not block deletion.
  pub record IsDeprovisioned (jobs : List JobStatus) (s : S) : Type 0 where
    pub job : JobStatus
    pub aap_job : AapJob
    pub latest : find_latest_job_by_type jobs deprovision ≡ some job
    pub known : (client.get_job job.job_id s).0 ≡ done aap_job
    pub ended :
        (aap_job.status ≡ "successful")
        ⊎ (is_terminal (map_aap_status_to_job_state aap_job.status) ≡ true)
          × (job.block_deletion_on_failure ≡ false)

  read_job :
      (job_id : String) (s : S) (status : ProvisionStatus)
      → (get_job_status client json p job_id s).0 ≡ done status
      → (job : AapJob) × ((client.get_job job_id s).0 ≡ done job)
        × (status.state ≡ map_aap_status_to_job_state job.status)
  unfolding get_job_status status_of
  read_job job_id s status h = elim (Outcome-cases (client.get_job job_id s).0) [
    | inl (job, e) ↦ (job, e, ground arith)
    | inr (inl (x, e)) ↦ absurd (ground arith)
    | inr (inr e) ↦ absurd (ground arith)
  ]

  aap-skips :
      (ci : ComputeInstance) (s : S) (result : DeprovisionResult)
      → (Aap.trigger_deprovision client json p ci s).0 ≡ done result
      → result.action ≢ deprovision_skipped
  unfolding Aap.trigger_deprovision
  aap-skips ci s result h action = ground arith

  aap-Released :
      (r : Reconciler S) (run : Run S)
      → r.provisioning_provider ≡ some (aap_provider client json p)
      → Released r run
      → (has_management_state "manual" run.instance ≡ true)
        ⊎ IsDeprovisioned run.instance.status.jobs run.backend
  aap-Released r run aap (by_hand manual) = inl manual
  aap-Released r run aap (skipped provider result there answer action) = absurd (
      aap-skips run.instance run.backend result
        (ap (λ q. (q.trigger_deprovision run.instance run.backend).0) (some_unique aap there)
          ∙ answer)
        action)
  aap-Released r run aap (succeeded provider job status there latest answer success) =
      let (aap_job, known, state) = read_job job.job_id run.backend status (
        ap (λ q. (q.get_deprovision_status run.instance job.job_id run.backend).0)
          (some_unique aap there)
        ∙ answer) in
      inr (record {
        job = job;
        aap_job = aap_job;
        latest = latest;
        known = known;
        ended = inl (successful aap_job.status (rw (← state) success));
      })
  aap-Released r run aap (not_blocking provider job status there latest answer over lets_go) =
      let (aap_job, known, state) = read_job job.job_id run.backend status (
        ap (λ q. (q.get_deprovision_status run.instance job.job_id run.backend).0)
          (some_unique aap there)
        ∙ answer) in
      inr (record {
        job = job;
        aap_job = aap_job;
        latest = latest;
        known = known;
        ended = inr (rw (← state) over, lets_go);
      })

  -- With the AAP provider, if the poll interval is positive, every rate limit that the provider's
  -- TriggerDeprovision reports names a positive time to wait, and the job history is within its bound,
  -- handleDelete changes the finalizers of an instance only under manual management, or once AAP
  -- reports the latest deprovision job as successful, or as ended if that job does not block deletion.
  pub aap-handle_delete :
      (kube : Kube) (r : Reconciler S) (cluster : Cluster) (run : Run S)
      → 0 < r.status_poll_interval
      → Waits (aap_provider client json p)
      → r.provisioning_provider ≡ some (aap_provider client json p)
      → length run.instance.status.jobs ≤ r.max_job_history
      → ((handle_delete kube r cluster run).1.instance.finalizers ≡ run.instance.finalizers)
        ⊎ (has_management_state "manual" run.instance ≡ true)
        ⊎ IsDeprovisioned run.instance.status.jobs run.backend
  unfolding has_management_state
  aap-handle_delete kube r cluster run polls waits aap bounded =
      elim (handle_delete-Released kube r cluster polls run
        (λ provider there. subst Waits (some_unique aap there) waits) bounded) [
          | inl same ↦ inl same
          | inr released ↦ inr (aap-Released r (marked run) aap released)
        ]

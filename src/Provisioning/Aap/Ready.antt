-- ===== src/Provisioning/Aap/Ready.antt =====
-- When the AAP provider (internal/provisioning/aap_provider.go) launches a deprovision job.
use cloudkit_operator.Prelude.{
  String, ◌≡◌, ◌⊎◌, inl, inr, ◌↔◌, true, false, none, some, arith, ok, err, done, failed, GoError,
  Option-cases, Outcome-cases, Bool-cases, as_not_found, as_method_not_allowed, is_present, eq_iff,
}
use cloudkit_operator.Api.Job.{
  provision, deprovision, JobStatus, is_terminal, find_latest_job_by_type,
}
use cloudkit_operator.Api.ComputeInstance.{ComputeInstance}
use cloudkit_operator.Aap.{AapJob}
use cloudkit_operator.Provisioning.Eda.{is_eda_job_id}
use cloudkit_operator.Provisioning.Provider.{
  ProvisionStatus, DeprovisionResult, deprovision_triggered,
}
use cloudkit_operator.Provisioning.Aap.{
  AapClient, AapProvider, Json, Readiness, status_of, get_job_status, map_aap_status_to_job_state,
  eda_readiness, cancel_provision_job, cancel_unless_terminal, after_status,
  is_ready_for_deprovision, trigger_deprovision,
}

-- The AAP statuses that end a job are "successful", "failed", "error" and "canceled", and no other.
pub map_aap_status-terminal :
    (status : String)
    → (is_terminal (map_aap_status_to_job_state status) ≡ true)
      ↔ ((status ≡ "successful") ⊎ (status ≡ "failed") ⊎ (status ≡ "error") ⊎ (status ≡ "canceled"))
unfolding map_aap_status_to_job_state is_terminal
map_aap_status-terminal status = ground (
  arith,
  eq_iff status "successful",
  eq_iff status "failed",
  eq_iff status "error",
  eq_iff status "canceled",
  eq_iff status "pending",
  eq_iff status "waiting",
  eq_iff status "running",
)

module _ {S : Type 0} (client : AapClient S) (json : Json) (p : AapProvider) where
  -- A 405 answer to the cancellation is no error of cancelProvisionJob.
  cancel-not_allowed :
      (job_id : String) (s : S) (e : GoError)
      → (client.cancel_job job_id s).0 ≡ failed e
      → is_present (as_method_not_allowed e) ≡ true
      → (cancel_provision_job client json p job_id s).0 ≡ done tt
  unfolding cancel_provision_job
  cancel-not_allowed job_id s e refused typed = ground arith

  -- Why a provision job does not stand in the way of deprovisioning.
  pub data Settled (ci : ComputeInstance) (s : S) : Type 0 where
    no_job : find_latest_job_by_type ci.status.jobs provision ≡ none → Settled ci s
    eda_job :
        (job : JobStatus)
        → find_latest_job_by_type ci.status.jobs provision ≡ some job
        → is_eda_job_id job.job_id ≡ true
        → (eda_readiness ci.status.phase (find_latest_job_by_type ci.status.jobs deprovision)).ready
          ≡ true
        → Settled ci s
    purged :
        (job : JobStatus) (e : GoError)
        → find_latest_job_by_type ci.status.jobs provision ≡ some job
        → (client.get_job job.job_id s).0 ≡ failed e
        → is_present (as_not_found e) ≡ true
        → Settled ci s
    ended :
        (job : JobStatus) (aap_job : AapJob)
        → find_latest_job_by_type ci.status.jobs provision ≡ some job
        → (client.get_job job.job_id s).0 ≡ done aap_job
        → is_terminal (map_aap_status_to_job_state aap_job.status) ≡ true
        → Settled ci s

  -- no error of cancelProvisionJob is a MethodNotAllowedError: it has turned that one into success
  cancel_error :
      (job_id : String) (s : S) (e : GoError)
      → (cancel_provision_job client json p job_id s).0 ≡ failed e
      → is_present (as_method_not_allowed e) ≡ false
  unfolding cancel_provision_job
  cancel_error job_id s e h = ground arith

  status_done :
      (job_id : String) (s : S) (status : ProvisionStatus)
      → (get_job_status client json p job_id s).0 ≡ done status
      → (job : AapJob) × ((client.get_job job_id s).0 ≡ done job) × (status ≡ status_of job_id job)
  unfolding get_job_status
  status_done job_id s status h = elim (Outcome-cases (client.get_job job_id s).0) [
    | inl (job, e) ↦ (job, e, ground arith)
    | inr (inl (x, e)) ↦ absurd (ground arith)
    | inr (inr e) ↦ absurd (ground arith)
  ]

  status_failed :
      (job_id : String) (s : S) (e : GoError)
      → (get_job_status client json p job_id s).0 ≡ failed e
      → (e' : GoError) × ((client.get_job job_id s).0 ≡ failed e')
        × (as_not_found e ≡ as_not_found e')
  unfolding get_job_status as_not_found
  status_failed job_id s e h = ground arith

  not_terminal :
      (job_id : String) (status : ProvisionStatus) (s : S) (r : Readiness)
      → is_terminal status.state ≡ false
      → (cancel_unless_terminal client json p job_id status s).0 ≡ done r
      → r.ready ≡ false
  unfolding cancel_unless_terminal
  not_terminal job_id status s r running h =
      elim (Outcome-cases (cancel_provision_job client json p job_id s).0) [
        | inl (u, e) ↦ ground arith
        | inr (inl (x, e)) ↦ ground (arith, cancel_error job_id s x)
        | inr (inr e) ↦ ground arith
      ]

  terminal_state :
      (job_id : String) (job : AapJob) (status : ProvisionStatus)
      → status ≡ status_of job_id job
      → status.state ≡ map_aap_status_to_job_state job.status
  unfolding status_of
  terminal_state job_id job status e = rw e

  -- an AAP job whose status was read
  done-Settled :
      (ci : ComputeInstance) (job : JobStatus) (s s' : S) (status : ProvisionStatus) (r : Readiness)
      → find_latest_job_by_type ci.status.jobs provision ≡ some job
      → (get_job_status client json p job.job_id s).0 ≡ done status
      → (after_status client json p job.job_id (ok status) s').0 ≡ done r
      → r.ready ≡ true
      → Settled ci s
  unfolding after_status
  done-Settled ci job s s' status r found read h ready =
      let (aap_job, got, same) = status_done job.job_id s status read in
      elim (Bool-cases (is_terminal status.state)) [
        | inl over ↦
            ended job aap_job found got (rw (← terminal_state job.job_id aap_job status same) over)
        | inr still ↦ absurd (ground (arith, not_terminal job.job_id status s' r still h))
      ]

  -- an AAP job whose status could not be read
  failed-Settled :
      (ci : ComputeInstance) (job : JobStatus) (s s' : S) (e : GoError) (r : Readiness)
      → find_latest_job_by_type ci.status.jobs provision ≡ some job
      → (get_job_status client json p job.job_id s).0 ≡ failed e
      → (after_status client json p job.job_id (err e) s').0 ≡ done r
      → Settled ci s
  unfolding after_status
  failed-Settled ci job s s' e r found read h =
      let (e', got, same) = status_failed job.job_id s e read in
      purged job e' found got (rw (← same) (ground arith))

  readiness-Settled :
      (ci : ComputeInstance) (s : S) (r : Readiness)
      → (is_ready_for_deprovision client json p ci s).0 ≡ done r
      → r.ready ≡ true
      → Settled ci s
  unfolding is_ready_for_deprovision
  readiness-Settled ci s r h ready =
      elim (Option-cases (find_latest_job_by_type ci.status.jobs provision)) [
        | inl none_found ↦ no_job none_found
        | inr (job, found) ↦ elim (Bool-cases (is_eda_job_id job.job_id)) [
          | inl eda ↦ eda_job job found eda (ground arith)
          | inr aap ↦ elim (Outcome-cases (get_job_status client json p job.job_id s).0) [
            | inl (status, read) ↦
                done-Settled ci job s (get_job_status client json p job.job_id s).1 status r found
                  read (ground arith) ready
            | inr (inl (e, read)) ↦
                failed-Settled ci job s (get_job_status client json p job.job_id s).1 e r found read
                  (ground arith)
            | inr (inr read) ↦ absurd (ground arith)
          ]
        ]
      ]

  -- Every result of TriggerDeprovision asks for deletion to be blocked if the job fails.
  pub trigger_deprovision-blocks :
      (ci : ComputeInstance) (s : S) (d : DeprovisionResult)
      → (trigger_deprovision client json p ci s).0 ≡ done d
      → d.block_deletion_on_failure ≡ true
  unfolding trigger_deprovision
  trigger_deprovision-blocks ci s d h = ground arith

  -- TriggerDeprovision reports a launched job only if no provision job stands in the way: there is
  -- none, or it is an EDA job that its instance's phase lets pass, or AAP does not know it any more,
  -- or AAP reports it ended.
  pub trigger_deprovision-Settled :
      (ci : ComputeInstance) (s : S) (d : DeprovisionResult)
      → (trigger_deprovision client json p ci s).0 ≡ done d
      → d.action ≡ deprovision_triggered
      → Settled ci s
  unfolding trigger_deprovision
  trigger_deprovision-Settled ci s d h triggered =
      elim (Outcome-cases (is_ready_for_deprovision client json p ci s).0) [
        | inl (r, e) ↦ readiness-Settled ci s r e (ground arith)
        | inr (inl (x, e)) ↦ absurd (ground arith)
        | inr (inr e) ↦ absurd (ground arith)
      ]

  -- While AAP reports the provision job as not ended and answers its cancellation with 405, the
  -- instance is not ready, and what is returned is the status that was read before.
  pub ready-not_allowed :
      (ci : ComputeInstance) (job : JobStatus) (status : ProvisionStatus) (s : S) (e : GoError)
      → find_latest_job_by_type ci.status.jobs provision ≡ some job
      → is_eda_job_id job.job_id ≡ false
      → (get_job_status client json p job.job_id s).0 ≡ done status
      → is_terminal status.state ≡ false
      → (client.cancel_job job.job_id (get_job_status client json p job.job_id s).1).0 ≡ failed e
      → is_present (as_method_not_allowed e) ≡ true
      → (is_ready_for_deprovision client json p ci s).0
        ≡ done (record { ready = false; provision_status = some status })
  unfolding is_ready_for_deprovision
  ready-not_allowed ci job status s e found aap read running refused typed =
      ground (arith, cancel-not_allowed job.job_id (get_job_status client json p job.job_id s).1 e)

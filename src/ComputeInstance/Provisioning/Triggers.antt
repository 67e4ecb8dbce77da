-- ===== src/ComputeInstance/Provisioning/Triggers.antt =====
-- When handleProvisioning (internal/controller/computeinstance_controller.go) asks its provider for
-- a new job.
use cloudkit_operator.Prelude.{
  ◌≤◌, ◌<◌, ◌≡◌, refl, ap, ◌∙◌, true, false, Option, none, some, List, [], ◌∷◌, ◌++◌, arith, length,
  Bool-cases, sym, inl, inr, All, Result, ok, done, ◌==◌, if◌then◌else◌,
}
use mathlib.Core.List.{append-nil}
use cloudkit_operator.ComputeInstance.Run.Rules.{called, calling_rule}
use cloudkit_operator.Api.Job.{JobStatus, provision, find_latest_job_by_type}
use cloudkit_operator.Api.ComputeInstance.{ComputeInstance}
use cloudkit_operator.Provisioning.Provider.{ProvisioningProvider, ProvisionResult, ProvisionStatus}
use cloudkit_operator.ComputeInstance.Run.{
  Reconciler, Cluster, Run, Call, called_trigger_provision, called_get_provision_status,
  has_management_state,
}
use cloudkit_operator.ComputeInstance.Jobs.History.{
  append_job-bounded, append_job-latest, update_job-length,
}
use cloudkit_operator.ComputeInstance.Provisioning.{
  handle_provisioning, triggered, polled, trigger, poll, trigger_or_poll, with_provider,
  job_of_result, has_no_id,
}

-- the call that a provision job calls for
abbrev pub call_for : Option JobStatus → Call
call_for none = called_trigger_provision
call_for (some job) =
    if job.job_id == "" then called_trigger_provision else called_get_provision_status job.job_id

abbrev pub calls_for : {S : Type 0} → Option (ProvisioningProvider S) → ComputeInstance → List Call
calls_for none ci = []
calls_for (some provider) ci = call_for (find_latest_job_by_type ci.status.jobs provision) ∷ []

module _ {S : Type 0} (r : Reconciler S) (cluster : Cluster) where
  abbrev pub IsBounded : Run S → Type 0
  IsBounded run = length run.instance.status.jobs ≤ r.max_job_history

  triggered-calls :
      (answer : Result ProvisionResult) (run : Run S)
      → (triggered r cluster answer run).1.calls ≡ run.calls
  unfolding triggered
  triggered-calls answer run = ground arith

  polled-calls :
      (job : JobStatus) (answer : Result ProvisionStatus) (run : Run S)
      → (polled r cluster job answer run).1.calls ≡ run.calls
  unfolding polled
  polled-calls job answer run = ground arith

  trigger-calls :
      (provider : ProvisioningProvider S) (run : Run S)
      → (trigger r cluster provider run).1.calls ≡ run.calls ++ called_trigger_provision ∷ []
  unfolding trigger
  trigger-calls provider run =
      calling_rule called_trigger_provision (provider.trigger_provision run.instance)
        (triggered r cluster) (λ after. after.1.calls ≡ run.calls ++ called_trigger_provision ∷ [])
        run (λ answer. triggered-calls answer _) refl

  poll-calls :
      (provider : ProvisioningProvider S) (job : JobStatus) (run : Run S)
      → (poll r cluster provider job run).1.calls
        ≡ run.calls ++ called_get_provision_status job.job_id ∷ []
  unfolding poll
  poll-calls provider job run =
      calling_rule (called_get_provision_status job.job_id)
        (provider.get_provision_status run.instance job.job_id) (polled r cluster job)
        (λ after. after.1.calls ≡ run.calls ++ called_get_provision_status job.job_id ∷ []) run
        (λ answer. polled-calls job answer _) refl

  trigger_or_poll-calls :
      (provider : ProvisioningProvider S) (latest : Option JobStatus) (run : Run S)
      → (trigger_or_poll r cluster provider latest run).1.calls ≡ run.calls ++ call_for latest ∷ []
  unfolding trigger_or_poll
  trigger_or_poll-calls provider none run = trigger-calls provider run
  trigger_or_poll-calls provider (some job) run =
      ground (arith, trigger-calls provider run, poll-calls provider job run)

  with_provider-calls :
      (provider : Option (ProvisioningProvider S)) (run : Run S)
      → (with_provider r cluster provider run).1.calls
        ≡ run.calls ++ calls_for provider run.instance
  unfolding with_provider
  with_provider-calls none run = sym (append-nil run.calls)
  with_provider-calls (some provider) run =
      trigger_or_poll-calls provider (find_latest_job_by_type run.instance.status.jobs provision)
        run

  -- Whatever the provider answers, handleProvisioning makes exactly one call of it: a trigger if the
  -- latest provision job is missing or has no id, and else a status query for that job; with no
  -- provider, or under manual management, it makes none.
  pub handle_provisioning-calls :
      (run : Run S)
      → (handle_provisioning r cluster run).1.calls
        ≡ run.calls
          ++ (if has_management_state "manual" run.instance
              then []
              else calls_for r.provisioning_provider run.instance)
  unfolding handle_provisioning
  handle_provisioning-calls run = elim (Bool-cases (has_management_state "manual" run.instance)) [
    | inl manual ↦ rw manual (sym (append-nil run.calls))
    | inr managed ↦ rw managed (with_provider-calls r.provisioning_provider run)
  ]

  triggered-IsBounded :
      (answer : Result ProvisionResult) (run : Run S)
      → IsBounded run
      → IsBounded (triggered r cluster answer run).1
  unfolding triggered
  triggered-IsBounded answer run h = grind (arith, append_job-bounded)

  polled-IsBounded :
      (job : JobStatus) (answer : Result ProvisionStatus) (run : Run S)
      → IsBounded run
      → IsBounded (polled r cluster job answer run).1
  unfolding polled
  polled-IsBounded job answer run h = grind (arith, update_job-length)

  trigger-IsBounded :
      (provider : ProvisioningProvider S) (run : Run S)
      → IsBounded run
      → IsBounded (trigger r cluster provider run).1
  unfolding trigger
  trigger-IsBounded provider run h =
      calling_rule called_trigger_provision (provider.trigger_provision run.instance)
        (triggered r cluster) (λ after. IsBounded after.1) run
        (λ answer. triggered-IsBounded answer _ h) h

  poll-IsBounded :
      (provider : ProvisioningProvider S) (job : JobStatus) (run : Run S)
      → IsBounded run
      → IsBounded (poll r cluster provider job run).1
  unfolding poll
  poll-IsBounded provider job run h =
      calling_rule (called_get_provision_status job.job_id)
        (provider.get_provision_status run.instance job.job_id) (polled r cluster job)
        (λ after. IsBounded after.1) run (λ answer. polled-IsBounded job answer _ h) h

  trigger_or_poll-IsBounded :
      (provider : ProvisioningProvider S) (latest : Option JobStatus) (run : Run S)
      → IsBounded run
      → IsBounded (trigger_or_poll r cluster provider latest run).1
  unfolding trigger_or_poll
  trigger_or_poll-IsBounded provider none run h = trigger-IsBounded provider run h
  trigger_or_poll-IsBounded provider (some job) run h =
      ground (arith, trigger-IsBounded provider run h, poll-IsBounded provider job run h)

  with_provider-IsBounded :
      (provider : Option (ProvisioningProvider S)) (run : Run S)
      → IsBounded run
      → IsBounded (with_provider r cluster provider run).1
  unfolding with_provider
  with_provider-IsBounded none run h = h
  with_provider-IsBounded (some provider) run h =
      trigger_or_poll-IsBounded provider
        (find_latest_job_by_type run.instance.status.jobs provision) run h

  -- handleProvisioning keeps the job history within its bound.
  pub handle_provisioning-IsBounded :
      (run : Run S) → IsBounded run → IsBounded (handle_provisioning r cluster run).1
  unfolding handle_provisioning
  handle_provisioning-IsBounded run h =
      ground (arith, with_provider-IsBounded r.provisioning_provider run h)

  -- A trigger that the provider answers with a job puts that job at the end of the history.
  triggered-latest :
      (result : ProvisionResult) (run : Run S)
      → 0 < r.max_job_history
      → All (λ old. old.timestamp < cluster.now) run.instance.status.jobs
      → find_latest_job_by_type
          (triggered r cluster (ok result) run).1.instance.status.jobs
          provision
        ≡ some (job_of_result cluster.now result)
  unfolding triggered job_of_result
  triggered-latest result run room older =
      append_job-latest r.max_job_history run.instance.status.jobs
        (job_of_result cluster.now result) room older

  trigger-latest :
      (provider : ProvisioningProvider S) (result : ProvisionResult) (run : Run S)
      → (provider.trigger_provision run.instance run.backend).0 ≡ done result
      → 0 < r.max_job_history
      → All (λ old. old.timestamp < cluster.now) run.instance.status.jobs
      → find_latest_job_by_type (trigger r cluster provider run).1.instance.status.jobs provision
        ≡ some (job_of_result cluster.now result)
  unfolding trigger
  trigger-latest provider result run answer room older = rw answer (
      triggered-latest result
        (called called_trigger_provision (provider.trigger_provision run.instance) run) room older)

  trigger_or_poll-triggers :
      (provider : ProvisioningProvider S) (latest : Option JobStatus) (run : Run S)
      → has_no_id latest ≡ true
      → trigger_or_poll r cluster provider latest run ≡ trigger r cluster provider run
  unfolding trigger_or_poll has_no_id
  trigger_or_poll-triggers provider none run h = refl
  trigger_or_poll-triggers provider (some job) run h = rw h

  handle_provisioning-triggers :
      (provider : ProvisioningProvider S) (run : Run S)
      → r.provisioning_provider ≡ some provider
      → has_management_state "manual" run.instance ≡ false
      → has_no_id (find_latest_job_by_type run.instance.status.jobs provision) ≡ true
      → handle_provisioning r cluster run ≡ trigger r cluster provider run
  unfolding handle_provisioning with_provider
  handle_provisioning-triggers provider run p managed no_id = rw managed (
      ap (λ o. with_provider r cluster o run) p
      ∙ trigger_or_poll-triggers provider
          (find_latest_job_by_type run.instance.status.jobs provision) run no_id)

module _ {S : Type 0} (r : Reconciler S) (cluster later : Cluster) where
  -- Once a provider has answered a trigger with a job that has an id, any run of handleProvisioning
  -- with the same reconciler that finds the same job history and no manual management, at whatever
  -- time, for whatever else has changed in the object, the cluster and the provider's state, asks for
  -- the status of that job and triggers no other one. The trigger was made without manual management
  -- and with no provision job that has an id as the latest; the history has room for a job, and its
  -- jobs were older than the new one.
  pub trigger_then_poll :
      (provider : ProvisioningProvider S) (result : ProvisionResult) (run next : Run S)
      → r.provisioning_provider ≡ some provider
      → has_management_state "manual" run.instance ≡ false
      → has_no_id (find_latest_job_by_type run.instance.status.jobs provision) ≡ true
      → (provider.trigger_provision run.instance run.backend).0 ≡ done result
      → (result.job_id == "") ≡ false
      → 0 < r.max_job_history
      → All (λ old. old.timestamp < cluster.now) run.instance.status.jobs
      → next.instance.status.jobs ≡ (handle_provisioning r cluster run).1.instance.status.jobs
      → has_management_state "manual" next.instance ≡ false
      → (handle_provisioning r later next).1.calls
        ≡ next.calls ++ called_get_provision_status result.job_id ∷ []
  trigger_then_poll provider result run next p managed no_id answer id room older same managed' =
      let latest : find_latest_job_by_type next.instance.status.jobs provision
          ≡ some (job_of_result cluster.now result) =
        rw (same, handle_provisioning-triggers r cluster provider run p managed no_id)
          (trigger-latest r cluster provider result run answer room older) in
      rw (handle_provisioning-calls r later next, managed', p, latest)
        (unfold job_of_result in rw id)

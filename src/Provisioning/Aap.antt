-- ===== src/Provisioning/Aap.antt =====
-- internal/provisioning/aap_provider.go: provisioning by the AAP REST API. `S` is the state behind
-- the client, and `json` is encoding/json on a resource.
pub mod Ready
use cloudkit_operator.Prelude.{
  ℕ, String, Bool, true, false, ◌||◌, Option, none, some, ◌==◌, if◌then◌else◌, join_text, Result,
  ok, err, Outcome, plain, wrapped, GoError, as_not_found, as_method_not_allowed, is_present,
  Handler, pure, raise, lift, wrap, attempt, ◌>>=◌, ◌>>◌,
}
use cloudkit_operator.Strconv.{ℤ, format_int}
use cloudkit_operator.Api.Job.{
  JobState, JobStatus, provision, deprovision, pending, waiting, running, succeeded, failed,
  canceled, unknown, is_terminal, find_latest_job_by_type,
}
use cloudkit_operator.Api.ComputeInstance.{ComputeInstance, ComputeInstancePhase}
use cloudkit_operator.Aap.{
  TemplateType, job_template, workflow_job_template, other, Template, AapJob, ExtraVars, decoded,
  nested, LaunchRequest,
}
use cloudkit_operator.Provisioning.Eda.{is_eda_job_id}
use cloudkit_operator.Provisioning.Provider.{
  ProvisionResult, ProvisionStatus, DeprovisionResult, deprovision_triggered, deprovision_waiting,
  ProvisioningProvider,
}

pub record AapClient (S : Type 0) : Type 0 where
  pub get_template : String → Handler S Template
  pub launch_job_template : LaunchRequest → Handler S ℤ
  pub launch_workflow_template : LaunchRequest → Handler S ℤ
  pub get_job : String → Handler S AapJob
  pub cancel_job : String → Handler S (Unit {0})

pub record Json : Type 0 where
  pub marshal : ComputeInstance → Result String
  pub unmarshal : String → Result String

pub record AapProvider : Type 0 where
  pub provision_template : String
  pub deprovision_template : String

unfoldable pub map_aap_status_to_job_state : String → JobState
map_aap_status_to_job_state aap_status =
    if aap_status == "successful"
    then succeeded
    else if aap_status == "failed" || aap_status == "error"
    then failed
    else if aap_status == "canceled"
    then canceled
    else if aap_status == "pending"
    then pending
    else if aap_status == "waiting"
    then waiting
    else if aap_status == "running"
    then running
    else unknown

is_failed : JobState → Bool
is_failed failed = true
is_failed _ = false

-- the error details are filled in for a failed job only; both cases leave "" for an empty trace
details : JobState → String → String
unfolding is_failed
details state traceback = if is_failed state then traceback else ""

unfoldable pub status_of : String → AapJob → ProvisionStatus
unfolding details map_aap_status_to_job_state
status_of job_id job = record {
  job_id = job_id;
  state = map_aap_status_to_job_state job.status;
  message = job.status;
  progress = 0;
  start_time = job.started;
  end_time = job.finished;
  reconciled_version = "";
  error_details = details (map_aap_status_to_job_state job.status) job.result_traceback;
}

-- (ready, currentProvisionStatus)
pub record Readiness : Type 0 where
  pub ready : Bool
  pub provision_status : Option ProvisionStatus

abbrev ready_without_status : Readiness
ready_without_status = record { ready = true; provision_status = none }

abbrev not_ready : Readiness
not_ready = record { ready = false; provision_status = none }

-- an EDA provision job, by the phase of the instance
unfoldable pub eda_readiness : ComputeInstancePhase → Option JobStatus → Readiness
eda_readiness ComputeInstancePhase.running latest_deprovision = ready_without_status
eda_readiness ComputeInstancePhase.failed latest_deprovision = ready_without_status
eda_readiness ComputeInstancePhase.deleting none = ready_without_status
eda_readiness ComputeInstancePhase.deleting (some job) = not_ready
eda_readiness _ latest_deprovision = not_ready

module _ {S : Type 0} (client : AapClient S) (json : Json) (p : AapProvider) where
  serialize_resource : ComputeInstance → Handler S String
  unfolding lift
  serialize_resource resource = do
    json_bytes ← wrap "failed to marshal resource to JSON" (lift (json.marshal resource))
    wrap "failed to unmarshal JSON to map" (lift (json.unmarshal json_bytes))

  unfoldable pub extract_extra_vars : ComputeInstance → Handler S ExtraVars
  unfolding serialize_resource pure
  extract_extra_vars resource = do
    resource_map ← wrap "failed to serialize resource" (serialize_resource resource)
    pure (nested "ansible_eda" (nested "event" (nested "payload" (decoded resource_map))))

  launch_template : String → ExtraVars → TemplateType → Handler S ℤ
  unfolding raise
  launch_template name extra_vars job_template =
      wrap "failed to launch job template"
        (client.launch_job_template (record { template_name = name; extra_vars = extra_vars }))
  launch_template name extra_vars workflow_job_template =
      wrap "failed to launch workflow template"
        (client.launch_workflow_template (record { template_name = name; extra_vars = extra_vars }))
  launch_template name extra_vars (other type) =
      raise (plain (join_text "unknown template type: " type))

  -- the common text of launchProvisionJob and launchDeprovisionJob behind their first test
  launch_by_name : String → ComputeInstance → Handler S String
  unfolding extract_extra_vars launch_template pure
  launch_by_name name resource = do
    template ← wrap "failed to get template" (client.get_template name)
    extra_vars ← wrap "failed to extract extra vars" (extract_extra_vars resource)
    job_id ← launch_template name extra_vars template.type
    pure (format_int job_id)

  unfoldable pub launch_provision_job : ComputeInstance → Handler S String
  unfolding launch_by_name raise
  launch_provision_job resource =
      if p.provision_template == ""
      then raise (plain "provision template not configured")
      else launch_by_name p.provision_template resource

  unfoldable pub launch_deprovision_job : ComputeInstance → Handler S String
  unfolding launch_by_name raise
  launch_deprovision_job resource =
      if p.deprovision_template == ""
      then raise (plain "deprovision template not configured")
      else launch_by_name p.deprovision_template resource

  unfoldable pub trigger_provision : ComputeInstance → Handler S ProvisionResult
  unfolding pure
  trigger_provision resource = do
    job_id ← launch_provision_job resource
    pure (record {
      job_id = job_id;
      initial_state = pending;
      message = "Provisioning job triggered";
    })

  unfoldable pub get_job_status : String → Handler S ProvisionStatus
  unfolding pure
  get_job_status job_id = do
    job ← wrap "failed to get job" (client.get_job job_id)
    pure (status_of job_id job)

  -- a 405 is no error here
  cancelled : Result (Unit {0}) → Handler S (Unit {0})
  unfolding pure raise
  cancelled (ok _) = pure tt
  cancelled (err e) =
      if is_present (as_method_not_allowed e)
      then pure tt
      else raise (wrapped "failed to cancel job" e)

  unfoldable pub cancel_provision_job : String → Handler S (Unit {0})
  unfolding cancelled as_method_not_allowed is_present
  cancel_provision_job job_id = do answer ← attempt (client.cancel_job job_id); cancelled answer

  after_cancel : ProvisionStatus → Result (Unit {0}) → Handler S Readiness
  unfolding pure raise as_method_not_allowed is_present
  after_cancel status (ok _) = pure (record { ready = false; provision_status = some status })
  after_cancel status (err e) =
      if is_present (as_method_not_allowed e)
      then pure (record { ready = true; provision_status = some status })
      else raise (wrapped "failed to cancel provision job" e)

  cancel_unless_terminal : String → ProvisionStatus → Handler S Readiness
  unfolding after_cancel pure
  cancel_unless_terminal job_id status =
      if is_terminal status.state
      then pure (record { ready = true; provision_status = some status })
      else do answer ← attempt (cancel_provision_job job_id); after_cancel status answer

  after_status : String → Result ProvisionStatus → Handler S Readiness
  unfolding cancel_unless_terminal pure raise as_not_found is_present
  after_status job_id (ok status) = cancel_unless_terminal job_id status
  after_status job_id (err e) =
      if is_present (as_not_found e)
      then pure ready_without_status
      else raise (wrapped "failed to get provision job status" e)

  readiness_of_job : ComputeInstance → Option JobStatus → Handler S Readiness
  unfolding after_status pure
  readiness_of_job instance none = pure ready_without_status
  readiness_of_job instance (some job) =
      if is_eda_job_id job.job_id
      then pure (
          eda_readiness instance.status.phase
            (find_latest_job_by_type instance.status.jobs deprovision))
      else do answer ← attempt (get_job_status job.job_id); after_status job.job_id answer

  unfoldable pub is_ready_for_deprovision : ComputeInstance → Handler S Readiness
  unfolding readiness_of_job
  is_ready_for_deprovision instance =
      readiness_of_job instance (find_latest_job_by_type instance.status.jobs provision)

  deprovision_when : ComputeInstance → Readiness → Handler S DeprovisionResult
  unfolding pure
  deprovision_when instance readiness =
      if readiness.ready
      then (do
        job_id ← launch_deprovision_job instance
        pure (record {
          action = deprovision_triggered;
          job_id = job_id;
          block_deletion_on_failure = true;
          provision_job_status = readiness.provision_status;
        }))
      else pure (record {
        action = deprovision_waiting;
        job_id = "";
        block_deletion_on_failure = true;
        provision_job_status = readiness.provision_status;
      })

  unfoldable pub trigger_deprovision : ComputeInstance → Handler S DeprovisionResult
  unfolding deprovision_when
  trigger_deprovision instance = do
    readiness ← is_ready_for_deprovision instance
    deprovision_when instance readiness

  abbrev pub aap_provider : ProvisioningProvider S
  aap_provider = record {
    trigger_provision = trigger_provision;
    get_provision_status = λ resource job_id. get_job_status job_id;
    trigger_deprovision = trigger_deprovision;
    get_deprovision_status = λ resource job_id. get_job_status job_id;
    name = "aap";
  }

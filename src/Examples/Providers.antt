-- ===== src/Examples/Providers.antt =====
-- The AAP provider, with a client that knows one job.
use cloudkit_operator.Prelude.{
  refl, true, some, [], ◌∷◌, ok, done, failed, method_not_allowed, String,
}
use cloudkit_operator.Strconv.{pos}
use cloudkit_operator.Api.Job.{is_terminal}
use cloudkit_operator.Aap.{AapJob, job_template}
use cloudkit_operator.Provisioning.Provider.{deprovision_triggered}
use cloudkit_operator.Provisioning.Aap.{
  AapClient, AapProvider, Json, map_aap_status_to_job_state, is_ready_for_deprovision,
  trigger_deprovision, status_of, aap_provider,
}
use cloudkit_operator.Provisioning.Aap.Ready.{Settled, trigger_deprovision-Settled}
use cloudkit_operator.Examples.Samples.{new_job, instance_with}

abbrev pub job_with : String → AapJob
job_with status = record {
  id = pos 12;
  status = status;
  started = 1;
  finished = 2;
  extra_vars = "";
  result_traceback = "";
}

abbrev pub client : String → AapClient (Unit {0})
client status = record {
  get_template = λ name s. (done (record { id = pos 1; name = name; type = job_template }), s);
  launch_job_template = λ request s. (done (pos 41), s);
  launch_workflow_template = λ request s. (done (pos 42), s);
  get_job = λ job_id s. (done (job_with status), s);
  cancel_job = λ job_id s. (failed (method_not_allowed "POST"), s);
}

abbrev pub json : Json
json = record { marshal = λ ci. ok "{}"; unmarshal = λ text. ok text }

abbrev pub provider : AapProvider
provider = record { provision_template = "create"; deprovision_template = "delete" }

abbrev errored : String
errored = "error"

trigger_deprovision-Settled_example :
    Settled (client "successful") json provider (instance_with (new_job ∷ []) []) tt
unfolding trigger_deprovision is_ready_for_deprovision
    cloudkit_operator.Api.Job.find_latest_job_by_type cloudkit_operator.Api.Job.latest_from
    cloudkit_operator.Api.Job.newer cloudkit_operator.Provisioning.Eda.is_eda_job_id
    cloudkit_operator.Strconv.has_prefix cloudkit_operator.Provisioning.Aap.get_job_status
    is_terminal status_of cloudkit_operator.Provisioning.Aap.launch_deprovision_job
    cloudkit_operator.Strconv.format_int
trigger_deprovision-Settled_example =
    trigger_deprovision-Settled (client "successful") json provider
      (instance_with (new_job ∷ []) []) tt
      (record {
        action = deprovision_triggered;
        job_id = "41";
        block_deletion_on_failure = true;
        provision_job_status = some (status_of "12" (job_with "successful"));
      })
      refl refl

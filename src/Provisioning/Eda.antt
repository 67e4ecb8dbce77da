-- ===== src/Provisioning/Eda.antt =====
-- internal/provisioning/eda_provider.go: provisioning by webhooks. The only resource that the
-- program hands to a provider is a ComputeInstance, so that the two type assertions succeed.
pub mod Fresh
use cloudkit_operator.Prelude.{
  ℕ, suc, ◌+◌, String, Bool, true, false, not, Option, none, some, List, [], ◌∷◌, ltb, ◌==◌,
  if◌then◌else◌, join_text, Result, ok, err, plain, wrapped, rate_limit, Handler, pure, raise, wrap,
  ◌>>=◌, ◌>>◌,
}
use cloudkit_operator.Strconv.{ℤ, pos, negsuc, max_int, itoa, atoi, has_prefix, trim_prefix}
use cloudkit_operator.Api.Job.{JobStatus, running, succeeded, unknown}
use cloudkit_operator.Api.Kube.{Kube}
use cloudkit_operator.Api.ComputeInstance.{ComputeInstance}
use cloudkit_operator.Webhook.{Resource, Network, WebhookClient, WebhookState, trigger_webhook}
use cloudkit_operator.Provisioning.Provider.{
  ProvisionResult, ProvisionStatus, DeprovisionResult, deprovision_triggered, deprovision_skipped,
  ProvisioningProvider,
}

abbrev pub eda_job_id_prefix : String
eda_job_id_prefix = "eda-webhook-"

unfoldable pub is_eda_job_id : String → Bool
is_eda_job_id job_id = has_prefix job_id eda_job_id_prefix

-- if counter > maxCounter { maxCounter = counter }, for a counter that was parsed
raise_to : ℕ → Option ℤ → ℕ
raise_to max_counter none = max_counter
raise_to max_counter (some (pos counter)) = if ltb max_counter counter then counter else max_counter
raise_to max_counter (some (negsuc counter)) = max_counter

unfoldable pub count_job : ℕ → JobStatus → ℕ
unfolding raise_to
count_job max_counter job =
    if is_eda_job_id job.job_id
    then raise_to max_counter (atoi (trim_prefix job.job_id eda_job_id_prefix))
    else max_counter

unfoldable pub max_counter_from : ℕ → List JobStatus → ℕ
max_counter_from max_counter [] = max_counter
max_counter_from max_counter (job ∷ jobs) = max_counter_from (count_job max_counter job) jobs

-- maxCounter+1 on a 64-bit int, which wraps around at the largest one
next_counter : ℕ → String
next_counter max_counter =
    if ltb max_counter max_int then itoa (max_counter + 1) else "-9223372036854775808"

unfoldable pub generate_eda_job_id : List JobStatus → String
unfolding max_counter_from next_counter
generate_eda_job_id jobs = join_text eda_job_id_prefix (next_counter (max_counter_from 0 jobs))

pub record EdaProvider : Type 0 where
  pub webhook_client : WebhookClient
  pub create_url : String
  pub delete_url : String

abbrev pub aap_finalizer : String
aap_finalizer = "cloudkit.openshift.io/computeinstance-aap"

no_status : String → ProvisionStatus
no_status job_id = record {
  job_id = job_id;
  state = unknown;
  message = "";
  progress = 0;
  start_time = 0;
  end_time = 0;
  reconciled_version = "";
  error_details = "";
}

module _ (kube : Kube) (net : Network) (json : ComputeInstance → Result String)
    (p : EdaProvider) where
  as_resource : ComputeInstance → Resource
  as_resource ci = record { name = ci.name; marshal = json ci }

  unfoldable pub trigger_provision : ComputeInstance → Handler WebhookState ProvisionResult
  unfolding as_resource pure raise
  trigger_provision ci =
      if p.create_url == "" then raise (plain "create webhook URL not configured") else do
        remaining_time ←
            wrap "failed to trigger create webhook"
              (trigger_webhook net p.webhook_client p.create_url (as_resource ci))
        if ltb 0 remaining_time
            then raise (rate_limit remaining_time)
            else pure (record {
              job_id = generate_eda_job_id ci.status.jobs;
              initial_state = running;
              message = "Webhook sent to EDA, provisioning in progress";
            })

  unfoldable pub get_provision_status :
      ComputeInstance → String → Handler WebhookState ProvisionStatus
  unfolding no_status pure
  get_provision_status ci job_id = pure (record (no_status job_id) {
    state = unknown;
    message = "EDA provider does not support status polling";
  })

  unfoldable pub trigger_deprovision : ComputeInstance → Handler WebhookState DeprovisionResult
  unfolding as_resource pure raise
  trigger_deprovision ci =
      if not (kube.contains_finalizer ci.finalizers aap_finalizer)
      then pure (record {
        action = deprovision_skipped;
        job_id = "";
        block_deletion_on_failure = false;
        provision_job_status = none;
      })
      else if p.delete_url == ""
      then raise (plain "delete webhook URL not configured")
      else do
        remaining_time ←
            wrap "failed to trigger delete webhook"
              (trigger_webhook net p.webhook_client p.delete_url (as_resource ci))
        if ltb 0 remaining_time
            then raise (rate_limit remaining_time)
            else pure (record {
              action = deprovision_triggered;
              job_id = generate_eda_job_id ci.status.jobs;
              block_deletion_on_failure = false;
              provision_job_status = none;
            })

  unfoldable pub get_deprovision_status :
      ComputeInstance → String → Handler WebhookState ProvisionStatus
  unfolding no_status pure
  get_deprovision_status ci job_id =
      if not (kube.contains_finalizer ci.finalizers aap_finalizer)
      then pure (record (no_status job_id) {
        state = succeeded;
        message = "AAP playbook completed (finalizer removed)";
      })
      else pure (record (no_status job_id) {
        state = running;
        message = "Waiting for AAP playbook to complete";
      })

  abbrev pub eda_provider : ProvisioningProvider WebhookState
  eda_provider = record {
    trigger_provision = trigger_provision;
    get_provision_status = get_provision_status;
    trigger_deprovision = trigger_deprovision;
    get_deprovision_status = get_deprovision_status;
    name = "eda";
  }

-- ===== src/Examples/Samples.antt =====
-- The instance, jobs, cluster and providers that the tests work on.
use cloudkit_operator.Prelude.{
  ℕ, String, Bool, true, false, none, some, List, [], ◌∷◌, ok, err, api_not_found, done,
}
use cloudkit_operator.Api.Job.{JobType, JobState, JobStatus, provision, deprovision}
use cloudkit_operator.Api.Job
use cloudkit_operator.Api.Tenant.{Tenant, TenantPhase}
use cloudkit_operator.Api.ComputeInstance.{
  ComputeInstance, ComputeInstanceStatus, ComputeInstancePhase, VirtualMachineReference,
}
use cloudkit_operator.Webhook.{Network, WebhookClient, WebhookState, Resource}
use cloudkit_operator.Provisioning.Provider.{
  ProvisionStatus, DeprovisionAction, ProvisioningProvider,
}
use cloudkit_operator.ComputeInstance.Run.{Reconciler, Cluster, Run, VirtualMachineInstance}

abbrev pub job : String → JobType → ℕ → JobState → Bool → JobStatus
job job_id type timestamp state blocks = record {
  job_id = job_id;
  type = type;
  timestamp = timestamp;
  state = state;
  message = "";
  block_deletion_on_failure = blocks;
}

abbrev pub old_job : JobStatus
old_job = job "eda-webhook-7" provision 10 Job.running false

abbrev pub new_job : JobStatus
new_job = job "12" provision 20 Job.running false

abbrev pub removal : JobStatus
removal = job "40" deprovision 30 Job.running true

abbrev pub history : List JobStatus
history = new_job ∷ removal ∷ old_job ∷ []

abbrev pub empty_status : ComputeInstanceStatus
empty_status = record {
  phase = ComputeInstancePhase.starting;
  conditions = [];
  virtual_machine_reference = none;
  tenant_reference = none;
  desired_config_version = "";
  reconciled_config_version = "";
  last_restarted_at = none;
  jobs = [];
}

abbrev pub instance_with : List JobStatus → List String → ComputeInstance
instance_with jobs finalizers = record {
  name = "vm";
  namespace = "ns";
  labels = [];
  annotations = [];
  finalizers = finalizers;
  deletion_timestamp = none;
  generation = 1;
  spec = record { template_id = "t"; template_parameters = ""; restart_requested_at = none };
  status = record empty_status { jobs = jobs };
}

abbrev pub machine : VirtualMachineReference
machine = record { namespace = "tenant-ns"; kube_virt_virtual_machine_name = "vm" }

abbrev pub vmi : VirtualMachineInstance
vmi = record { creation_timestamp = 60 }

abbrev pub waiting_tenant : Tenant
waiting_tenant = record {
  name = "tenant-x";
  namespace = "ns";
  labels = [];
  finalizers = [];
  deletion_timestamp = none;
  spec_name = "x";
  status = record { phase = TenantPhase.progressing; namespace = "" };
}

abbrev pub cluster : Cluster
cluster = record {
  get = err (api_not_found "computeinstance");
  update = λ ci. ok ci;
  get_latest = λ n. ok (instance_with [] []);
  update_status = λ n ci. ok tt;
  retry_on_conflict = λ attempt. attempt 0;
  get_tenant = λ namespace name. ok waiting_tenant;
  create_or_update_tenant = λ ci tenant. ok tt;
  list_virtual_machines = λ namespace name. ok [];
  get_vmi = λ namespace name. ok vmi;
  delete_vmi = λ namespace name. ok tt;
  marshal_spec = λ spec. ok [];
  deep_equal = λ new old. false;
  now = 100;
  format_time = λ t. "";
  duration_text = λ d. "";
}

abbrev pub status_of : JobState → ProvisionStatus
status_of state = record {
  job_id = "";
  state = state;
  message = "";
  progress = 0;
  start_time = 0;
  end_time = 0;
  reconciled_version = "";
  error_details = "";
}

-- It answers a trigger with job 77, and reports each job as the given state.
abbrev pub scripted : JobState → ProvisioningProvider (Unit {0})
scripted state = record {
  trigger_provision =
      λ ci s. (done (record { job_id = "77"; initial_state = Job.pending; message = "" }), s);
  get_provision_status = λ ci job_id s. (done (status_of state), s);
  trigger_deprovision = λ ci s. (
    done (record {
      action = DeprovisionAction.deprovision_triggered;
      job_id = "78";
      block_deletion_on_failure = true;
      provision_job_status = none;
    }),
    s,
  );
  get_deprovision_status = λ ci job_id s. (done (status_of state), s);
  name = "scripted";
}

abbrev pub reconciler : {S : Type 0} → ProvisioningProvider S → Reconciler S
reconciler provider = record {
  compute_instance_namespace = "ns";
  provisioning_provider = some provider;
  status_poll_interval = 30;
  max_job_history = 10;
}

abbrev pub run_on : {S : Type 0} → ComputeInstance → S → Run S
run_on ci backend = record { instance = ci; backend = backend; calls = [] }

abbrev pub net : Network
net = record {
  new_request = λ url body. ok tt;
  send = λ timeout url body. ok 200;
  latency = λ url body. 1;
}

abbrev pub webhook_client : WebhookClient
webhook_client = record { client_timeout = 10; minimum_request_interval = 100 }

abbrev pub no_requests : WebhookState
no_requests = record { inflight_requests = λ key. none; now = 5; posted = [] }

abbrev pub resource : Resource
resource = record { name = "vm"; marshal = ok "{}" }

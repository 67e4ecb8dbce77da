-- ===== src/ComputeInstance/Run.antt =====
-- What a reconcile of a ComputeInstance works on: the reconciler's configuration, the answers of
-- the cluster, and the state that the handlers of internal/controller/computeinstance_controller.go
-- share. The handlers mutate one object, `instance`; `calls` records what they ask of the cluster
-- and of the provider, `backend` is the state behind the provider.
pub mod Rules
use cloudkit_operator.Prelude.{
  ℕ, zero, suc, String, Bool, true, false, Option, none, some, List, [], ◌∷◌, ◌++◌, lookup, ◌==◌,
  if◌then◌else◌, Result, Outcome, Handler, done, lift, ◌>>=◌, ◌>>◌,
}
use cloudkit_operator.Strconv.{ℤ, pos, negsuc}
use cloudkit_operator.Api.Condition.{Condition}
use cloudkit_operator.Api.ComputeInstance.{
  ComputeInstance, ComputeInstanceSpec, ComputeInstanceStatus,
}
use cloudkit_operator.Api.Tenant.{Tenant}
use cloudkit_operator.Provisioning.Provider.{ProvisioningProvider}

-- RequeueAfter and the poll interval are signed durations. The handlers and controller-runtime only
-- test RequeueAfter > 0, so that a duration that is not positive is 0 here.
pub record CtrlResult : Type 0 where
  pub requeue : Bool
  pub requeue_after : ℕ

abbrev pub no_requeue : CtrlResult
no_requeue = record { requeue = false; requeue_after = 0 }

abbrev pub requeue_in : ℕ → CtrlResult
requeue_in after = record { requeue = false; requeue_after = after }

pub record Reconciler (S : Type 0) : Type 0 where
  pub compute_instance_namespace : String
  pub provisioning_provider : Option (ProvisioningProvider S)
  pub status_poll_interval : ℕ
  pub max_job_history : ℕ

abbrev default_namespace : String → String
default_namespace namespace = if namespace == "" then "cloudkit-computeinstance" else namespace

-- A zero stands for 30 seconds, in nanoseconds. A negative duration stays as it is.
abbrev default_poll : ℤ → ℕ
default_poll (pos zero) = 30000000000
default_poll (pos (suc n)) = suc n
default_poll (negsuc n) = 0

abbrev default_history : ℤ → ℕ
default_history (pos zero) = 10
default_history (pos (suc n)) = suc n
default_history (negsuc n) = 10

unfoldable pub new_compute_instance_reconciler :
    {S : Type 0} → String → Option (ProvisioningProvider S) → ℤ → ℤ → Reconciler S
new_compute_instance_reconciler namespace provider poll history = record {
  compute_instance_namespace = default_namespace namespace;
  provisioning_provider = provider;
  status_poll_interval = default_poll poll;
  max_job_history = default_history history;
}

pub record VirtualMachine : Type 0 where
  pub name : String
  pub namespace : String
  pub conditions : List Condition

pub record VirtualMachineInstance : Type 0 where
  pub creation_timestamp : ℕ

-- The answers to the calls of one reconcile, and the library functions whose results the program
-- stores: encoding/json on the spec, time.Now, and the texts of times and durations. A lookup of
-- what is not there is answered by an `api_not_found` error.
pub record Cluster : Type 0 where
  pub get : Result ComputeInstance
  pub update : ComputeInstance → Result ComputeInstance
  pub get_latest : ℕ → Result ComputeInstance
  pub update_status : ℕ → ComputeInstance → Result (Unit {0})
  pub retry_on_conflict : (ℕ → Result (Unit {0})) → Result (Unit {0})
  pub get_tenant : String → String → Result Tenant
  pub create_or_update_tenant : ComputeInstance → Tenant → Result (Unit {0})
  pub list_virtual_machines : String → String → Result (List VirtualMachine)
  pub get_vmi : String → String → Result VirtualMachineInstance
  pub delete_vmi : String → String → Result (Unit {0})
  pub marshal_spec : ComputeInstanceSpec → Result (List ℕ)
  pub deep_equal : ComputeInstanceStatus → ComputeInstanceStatus → Bool
  pub now : ℕ
  pub format_time : ℕ → String
  pub duration_text : ℕ → String

pub data Call : Type 0 where
  called_update : Call
  called_update_status : ComputeInstanceStatus → Call
  called_create_tenant : Tenant → Call
  called_delete_vmi : String → String → Call
  called_trigger_provision : Call
  called_get_provision_status : String → Call
  called_trigger_deprovision : Call
  called_get_deprovision_status : String → Call

pub record Run (S : Type 0) : Type 0 where
  pub instance : ComputeInstance
  pub backend : S
  pub calls : List Call

module _ {S : Type 0} where
  unfoldable pub current : Handler (Run S) ComputeInstance
  current r = (done r.instance, r)

  unfoldable pub modify : (ComputeInstance → ComputeInstance) → Handler (Run S) (Unit {0})
  modify f r = (done tt, record r { instance = f r.instance })

  unfoldable pub log_call : Call → Handler (Run S) (Unit {0})
  log_call call r = (done tt, record r { calls = r.calls ++ call ∷ [] })

  -- a method of the provider
  unfoldable pub calling : {A : Type 0} → Call → Handler S A → Handler (Run S) A
  calling call m r =
      ((m r.backend).0, record r { backend = (m r.backend).1; calls = r.calls ++ call ∷ [] })

-- r.Update(ctx, instance): the client writes the server's answer over the object
unfoldable pub update_instance : {S : Type 0} → Cluster → Handler (Run S) (Unit {0})
unfolding current modify log_call lift
update_instance cluster = do
  ci ← current
  log_call called_update
  answer ← lift (cluster.update ci)
  modify (λ old. answer)

abbrev pub finalizer : String
finalizer = "cloudkit.openshift.io/computeinstance"

abbrev pub management_state_annotation : String
management_state_annotation = "cloudkit.openshift.io/management-state"

abbrev pub reconciled_config_version_annotation : String
reconciled_config_version_annotation = "cloudkit.openshift.io/reconciled-config-version"

abbrev pub tenant_annotation : String
tenant_annotation = "cloudkit.openshift.io/tenant"

abbrev has_value : String → Option String → Bool
has_value value none = false
has_value value (some v) = v == value

-- the annotation exists, and it has the value
unfoldable pub has_management_state : String → ComputeInstance → Bool
unfolding lookup
has_management_state state ci = has_value state (lookup management_state_annotation ci.annotations)

abbrev pub set_status : ComputeInstanceStatus → ComputeInstance → ComputeInstance
set_status status ci = record ci { status = status }

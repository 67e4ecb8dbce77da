-- ===== src/Api/ComputeInstance.antt =====
-- api/v1alpha1/computeinstance_types.go, computeinstance_conditions.go and
-- computeinstance_virtualmachinereference.go. A nil pointer is `none`.
use cloudkit_operator.Prelude.{ℕ, String, Bool, Option, none, some, List, Dictionary}
use cloudkit_operator.Api.Job.{JobStatus}
use cloudkit_operator.Api.Condition.{
  ConditionStatus, condition_true, condition_false, Condition, get_condition, has_status,
  is_unknown,
}
use cloudkit_operator.Api.Kube.{Kube}

pub record ComputeInstanceSpec : Type 0 where
  pub template_id : String
  pub template_parameters : String
  pub restart_requested_at : Option ℕ

-- the zero value "" of the string type is `unset`
pub data ComputeInstancePhase : Type 0 where
  unset starting running failed deleting : ComputeInstancePhase

abbrev pub accepted : String
accepted = "Accepted"

abbrev pub progressing : String
progressing = "Progressing"

abbrev pub available : String
available = "Available"

abbrev pub condition_deleting : String
condition_deleting = "Deleting"

abbrev pub restart_in_progress : String
restart_in_progress = "RestartInProgress"

abbrev pub restart_failed : String
restart_failed = "RestartFailed"

pub record VirtualMachineReference : Type 0 where
  pub namespace : String
  pub kube_virt_virtual_machine_name : String

pub record TenantReference : Type 0 where
  pub name : String
  pub namespace : String

pub record ComputeInstanceStatus : Type 0 where
  pub phase : ComputeInstancePhase
  pub conditions : List Condition
  pub virtual_machine_reference : Option VirtualMachineReference
  pub tenant_reference : Option TenantReference
  pub desired_config_version : String
  pub reconciled_config_version : String
  pub last_restarted_at : Option ℕ
  pub jobs : List JobStatus

pub record ComputeInstance : Type 0 where
  pub name : String
  pub namespace : String
  pub labels : Dictionary
  pub annotations : Dictionary
  pub finalizers : List String
  pub deletion_timestamp : Option ℕ
  pub generation : ℕ
  pub spec : ComputeInstanceSpec
  pub status : ComputeInstanceStatus

-- The condition that SetStatusCondition hands to the library: the two fields that it leaves out
-- are zero.
abbrev pub new_condition : String → ConditionStatus → String → String → Condition
new_condition condition_type status message reason = record {
  type = condition_type;
  status = status;
  reason = reason;
  message = message;
  observed_generation = 0;
  last_transition_time = 0;
}

unfoldable pub set_conditions : ComputeInstance → List Condition → ComputeInstance
set_conditions ci cs = record ci { status = record ci.status { conditions = cs } }

unfoldable pub set_status_condition :
    Kube → ComputeInstance → String → ConditionStatus → String → String → ComputeInstance
unfolding set_conditions
set_status_condition kube ci condition_type status message reason = set_conditions ci (
    kube.set_status_condition ci.status.conditions
      (new_condition condition_type status message reason))

unfoldable pub get_status_condition : ComputeInstance → String → Option Condition
get_status_condition ci condition_type = get_condition ci.status.conditions condition_type

unfoldable pub is_status_condition_true : ComputeInstance → String → Bool
unfolding get_status_condition
is_status_condition_true ci t = has_status condition_true (get_status_condition ci t)

unfoldable pub is_status_condition_false : ComputeInstance → String → Bool
unfolding get_status_condition
is_status_condition_false ci t = has_status condition_false (get_status_condition ci t)

unfoldable pub is_status_condition_unknown : ComputeInstance → String → Bool
unfolding get_status_condition
is_status_condition_unknown ci t = is_unknown (get_status_condition ci t)

ensured_vm : Option VirtualMachineReference → VirtualMachineReference
ensured_vm none = record { namespace = ""; kube_virt_virtual_machine_name = "" }
ensured_vm (some r) = r

ensured_tenant : Option TenantReference → TenantReference
ensured_tenant none = record { name = ""; namespace = "" }
ensured_tenant (some r) = r

unfoldable pub ensure_virtual_machine_reference : ComputeInstance → VirtualMachineReference
unfolding ensured_vm
ensure_virtual_machine_reference ci = ensured_vm ci.status.virtual_machine_reference

unfoldable pub set_virtual_machine_reference_namespace : ComputeInstance → String → ComputeInstance
unfolding ensure_virtual_machine_reference
set_virtual_machine_reference_namespace ci name = record ci {
  status = record ci.status {
    virtual_machine_reference =
        some (record (ensure_virtual_machine_reference ci) { namespace = name });
  };
}

unfoldable pub set_virtual_machine_reference_name : ComputeInstance → String → ComputeInstance
unfolding ensure_virtual_machine_reference
set_virtual_machine_reference_name ci name = record ci {
  status = record ci.status {
    virtual_machine_reference =
        some
          (record (ensure_virtual_machine_reference ci) { kube_virt_virtual_machine_name = name });
  };
}

unfoldable pub ensure_tenant_reference : ComputeInstance → TenantReference
unfolding ensured_tenant
ensure_tenant_reference ci = ensured_tenant ci.status.tenant_reference

unfoldable pub set_tenant_reference_name : ComputeInstance → String → ComputeInstance
unfolding ensure_tenant_reference
set_tenant_reference_name ci name = record ci {
  status = record ci.status {
    tenant_reference = some (record (ensure_tenant_reference ci) { name = name });
  };
}

unfoldable pub set_tenant_reference_namespace : ComputeInstance → String → ComputeInstance
unfolding ensure_tenant_reference
set_tenant_reference_namespace ci name = record ci {
  status = record ci.status {
    tenant_reference = some (record (ensure_tenant_reference ci) { namespace = name });
  };
}

-- The getters return "" at a nil reference, as `ensured_tenant` does.
unfoldable pub get_tenant_reference_name : ComputeInstance → String
unfolding ensured_tenant
get_tenant_reference_name ci = (ensured_tenant ci.status.tenant_reference).name

unfoldable pub get_tenant_reference_namespace : ComputeInstance → String
unfolding ensured_tenant
get_tenant_reference_namespace ci = (ensured_tenant ci.status.tenant_reference).namespace

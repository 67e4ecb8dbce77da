-- ===== src/ComputeInstance/Update.antt =====
-- handleUpdate of internal/controller/computeinstance_controller.go, with the functions that only it
-- calls.
pub mod Conditions
pub mod Settled
pub mod Tenancy
use cloudkit_operator.Prelude.{
  ℕ, String, Bool, true, false, Option, none, some, List, [], ◌∷◌, ◌==◌, ltb, if◌then◌else◌,
  is_present, GoError, plain, join_text, length, Handler, pure, raise, lift, ◌>>=◌, ◌>>◌,
}
use cloudkit_operator.Strconv.{itoa}
use cloudkit_operator.Api.Kube.{Kube}
use cloudkit_operator.Api.Condition.{
  ConditionStatus, condition_true, condition_false, get_condition, has_status,
}
use cloudkit_operator.Api.Job.{JobStatus, is_terminal, provision, find_latest_job_by_type}
use cloudkit_operator.Api.Tenant.{Tenant, TenantPhase}
use cloudkit_operator.Api.ComputeInstance.{
  ComputeInstance, ComputeInstancePhase, set_status_condition, get_status_condition, accepted,
  progressing, available, condition_deleting, set_virtual_machine_reference_name,
  set_virtual_machine_reference_namespace,
}
use cloudkit_operator.ComputeInstance.Run.{
  CtrlResult, no_requeue, Reconciler, Cluster, Run, VirtualMachine, current, modify,
  update_instance, finalizer,
}
use cloudkit_operator.ComputeInstance.Provisioning.{set_phase, handle_provisioning}
use cloudkit_operator.ComputeInstance.Delete.{set_finalizers}
use cloudkit_operator.ComputeInstance.Version.{
  handle_desired_config_version, handle_reconciled_config_version,
}
use cloudkit_operator.ComputeInstance.Restart.{handle_restart_request}
use cloudkit_operator.ComputeInstance.Tenants.{get_tenant, create_or_update_tenant}

-- An absent list of conditions and an empty one are the same here.
unfoldable pub initialize_status_condition :
    Kube → String → ConditionStatus → String → ComputeInstance → ComputeInstance
unfolding get_status_condition set_status_condition is_present
initialize_status_condition kube condition_type status reason ci =
    if is_present (get_status_condition ci condition_type)
    then ci
    else set_status_condition kube ci condition_type status "" reason

unfoldable pub initialize_status_conditions : Kube → ComputeInstance → ComputeInstance
unfolding initialize_status_condition
initialize_status_conditions kube ci =
    let accepted = initialize_status_condition kube accepted condition_true "Initialized" ci in
    let deleting =
      initialize_status_condition kube condition_deleting condition_false "Initialized" accepted in
    let progressing =
      initialize_status_condition kube progressing condition_true "Initialized" deleting in
    initialize_status_condition kube available condition_false "Initialized" progressing

unfoldable pub kv_vm_has_condition_with_status : VirtualMachine → String → ConditionStatus → Bool
unfolding get_condition
kv_vm_has_condition_with_status vm condition_type status =
    has_status status (get_condition vm.conditions condition_type)

unfoldable pub only_machine :
    {S : Type 0} → String → List VirtualMachine → Handler (Run S) (Option VirtualMachine)
unfolding pure raise itoa
only_machine name [] = pure none
only_machine name (vm ∷ []) = pure (some vm)
only_machine name (vm ∷ other ∷ vms) = raise (
    plain (
      join_text "found too many (" (
        join_text (itoa (length (vm ∷ other ∷ vms)))
          (join_text ") matching KubeVirt VMs for " name))))

-- the label's key is cloudkit.openshift.io/computeinstance
unfoldable pub find_kube_virt_vms :
    {S : Type 0} → Cluster → String → Handler (Run S) (Option VirtualMachine)
unfolding current lift only_machine
find_kube_virt_vms cluster ns_name = do
  ci ← current
  items ← lift (cluster.list_virtual_machines ns_name ci.name)
  only_machine ci.name items

abbrev pub with_machine : Kube → VirtualMachine → ComputeInstance → ComputeInstance
with_machine kube vm ci =
    let named = set_virtual_machine_reference_name ci vm.name in
    let placed = set_virtual_machine_reference_namespace named vm.namespace in
    let taken = set_status_condition kube placed accepted condition_true "" "AsExpected" in
    if kv_vm_has_condition_with_status vm "Ready" condition_true
    then set_status_condition kube taken available condition_true "" "AsExpected"
    else taken

unfoldable pub handle_kube_virt_vm :
    {S : Type 0} → Kube → Option VirtualMachine → Handler (Run S) (Unit {0})
unfolding modify pure set_virtual_machine_reference_name set_virtual_machine_reference_namespace
    set_status_condition kv_vm_has_condition_with_status
handle_kube_virt_vm kube none = pure tt
handle_kube_virt_vm kube (some vm) = modify (with_machine kube vm)

abbrev pub is_ready : TenantPhase → Bool
is_ready TenantPhase.ready = true
is_ready _ = false

-- latestProvisionJob != nil && !latestProvisionJob.State.IsTerminal()
unfoldable pub is_unfinished : Option JobStatus → Bool
unfolding is_terminal
is_unfinished none = false
is_unfinished (some job) = if is_terminal job.state then false else true

module _ {S : Type 0} (kube : Kube) (r : Reconciler S) (cluster : Cluster) where
  -- the tail of handleUpdate, behind the versions
  unfoldable pub apply_config : Handler (Run S) CtrlResult
  unfolding current modify pure set_status_condition is_present is_unfinished
      find_latest_job_by_type
  apply_config = do
    ci ← current
    if ci.status.desired_config_version == ci.status.reconciled_config_version
        then (do
          modify (set_phase ComputeInstancePhase.running)
          modify (λ c. set_status_condition kube c progressing condition_false "" "AsExpected")
          if is_present r.provisioning_provider
              then (if is_unfinished (find_latest_job_by_type ci.status.jobs provision)
                  then handle_provisioning r cluster
                  else pure no_requeue)
              else pure no_requeue)
        else do
          modify (set_phase ComputeInstancePhase.starting)
          modify (λ c.
              set_status_condition kube c progressing condition_true "Applying configuration"
                "AsExpected")
          handle_provisioning r cluster

  -- handleUpdate behind a tenant that is ready
  unfoldable pub handle_ready : Tenant → Handler (Run S) CtrlResult
  unfolding modify pure set_status_condition find_kube_virt_vms handle_kube_virt_vm
      handle_restart_request handle_desired_config_version handle_reconciled_config_version
      apply_config
  handle_ready tenant = do
    modify (λ c. set_status_condition kube c accepted condition_true "" "AsExpected")
    vm ← find_kube_virt_vms cluster tenant.status.namespace
    handle_kube_virt_vm kube vm
    result ← handle_restart_request kube cluster
    if ltb 0 result.requeue_after then pure result else do
      handle_desired_config_version cluster
      handle_reconciled_config_version
      apply_config

  unfoldable pub handle_tenant : Option Tenant → Handler (Run S) CtrlResult
  unfolding pure handle_ready create_or_update_tenant
  handle_tenant none = do create_or_update_tenant cluster; pure no_requeue
  handle_tenant (some tenant) =
      if is_ready tenant.status.phase then handle_ready tenant else pure no_requeue

  unfoldable pub prepare : Handler (Run S) (Unit {0})
  unfolding current modify pure initialize_status_conditions update_instance
  prepare = do
    modify (initialize_status_conditions kube)
    modify (set_phase ComputeInstancePhase.starting)
    ci ← current
    let added = kube.add_finalizer ci.finalizers finalizer
    modify (set_finalizers added.0)
    if added.1 then update_instance cluster else pure tt

  unfoldable pub handle_update : Handler (Run S) CtrlResult
  unfolding prepare get_tenant handle_tenant
  handle_update = do prepare; tenant ← get_tenant cluster; handle_tenant tenant

-- ===== src/ComputeInstance/Restart.antt =====
-- internal/controller/computeinstance_restart.go
pub mod Cycle
use cloudkit_operator.Prelude.{
  ℕ, String, Bool, true, false, Option, none, some, ltb, if◌then◌else◌, join_text, is_present,
  Result, ok, err, GoError, as_api_not_found, error_text, Handler, pure, raise, attempt, lift,
  ◌>>=◌, ◌>>◌,
}
use cloudkit_operator.Api.Condition.{Condition, ConditionStatus, condition_true}
use cloudkit_operator.Api.Kube.{Kube}
use cloudkit_operator.Api.ComputeInstance.{
  ComputeInstance, VirtualMachineReference, set_conditions, restart_in_progress, restart_failed,
}
use cloudkit_operator.ComputeInstance.Run.{
  CtrlResult, no_requeue, Cluster, Run, current, modify, log_call, called_delete_vmi,
  VirtualMachineInstance,
}

abbrev pub restart_condition : ComputeInstance → String → String → String → Condition
restart_condition ci condition_type reason message = record {
  type = condition_type;
  status = condition_true;
  reason = reason;
  message = message;
  observed_generation = ci.generation;
  last_transition_time = 0;
}

abbrev pub set_last_restarted : Option ℕ → ComputeInstance → ComputeInstance
set_last_restarted t ci = record ci { status = record ci.status { last_restarted_at = t } }

-- status.lastRestartedAt != nil && !requestedAt.After(lastRestartedAt)
unfoldable pub is_processed : ℕ → Option ℕ → Bool
is_processed requested_at none = false
is_processed requested_at (some last) = if ltb last requested_at then false else true

module _ {S : Type 0} (kube : Kube) (cluster : Cluster) where
  mark : String → String → String → Handler (Run S) (Unit {0})
  unfolding modify set_conditions
  mark condition_type reason message = modify (λ ci. set_conditions ci (
      kube.set_status_condition ci.status.conditions
        (restart_condition ci condition_type reason message)))

  unmark : String → Handler (Run S) (Unit {0})
  unfolding modify set_conditions
  unmark condition_type =
      modify (λ ci.
        set_conditions ci (kube.remove_status_condition ci.status.conditions condition_type).0)

  -- Its Boolean result is used by no caller.
  unfoldable pub clear_restart_conditions : Handler (Run S) (Unit {0})
  unfolding unmark
  clear_restart_conditions = do unmark restart_in_progress; unmark restart_failed

  unfoldable pub get_vmi : VirtualMachineReference → Handler (Run S) VirtualMachineInstance
  unfolding lift
  get_vmi ref = lift (cluster.get_vmi ref.namespace ref.kube_virt_virtual_machine_name)

  delete_vmi : VirtualMachineReference → Handler (Run S) (Unit {0})
  unfolding log_call lift
  delete_vmi ref = do
    log_call (called_delete_vmi ref.namespace ref.kube_virt_virtual_machine_name)
    lift (cluster.delete_vmi ref.namespace ref.kube_virt_virtual_machine_name)

  -- the end of performRestart, behind a deletion that did not fail
  initiated : ℕ → Handler (Run S) CtrlResult
  unfolding mark unmark pure
  initiated requested_at = do
    mark restart_in_progress "RestartInProgress"
        (join_text "Restart initiated at " (cluster.format_time requested_at))
    unmark restart_failed
    pure no_requeue

  deleted : ℕ → Result (Unit {0}) → Handler (Run S) CtrlResult
  unfolding initiated mark raise as_api_not_found is_present
  deleted requested_at (ok _) = initiated requested_at
  deleted requested_at (err e) =
      if is_present (as_api_not_found e) then initiated requested_at else do
        mark restart_failed "VMIDeletionFailed"
            (join_text "Failed to delete VMI: " (error_text cluster.duration_text e))
        raise e

  found : ℕ → VirtualMachineReference → Result VirtualMachineInstance → Handler (Run S) CtrlResult
  unfolding deleted delete_vmi mark raise pure as_api_not_found is_present
  found requested_at ref (err e) =
      if is_present (as_api_not_found e)
      then (do
        mark restart_in_progress "RestartInProgress" (
            join_text "Waiting for VMI to be created (restart requested at "
              (join_text (cluster.format_time requested_at) ")"))
        pure no_requeue)
      else raise e
  found requested_at ref (ok vmi) = do
    answer ← attempt (delete_vmi ref)
    deleted requested_at answer

  perform_on : ℕ → Option VirtualMachineReference → Handler (Run S) CtrlResult
  unfolding found get_vmi mark pure
  perform_on requested_at none = do
    mark restart_failed "NoVMReference" "No VirtualMachine reference found"
    pure no_requeue
  perform_on requested_at (some ref) = do
    answer ← attempt (get_vmi ref)
    found requested_at ref answer

  unfoldable pub perform_restart : ℕ → Handler (Run S) CtrlResult
  unfolding perform_on current
  perform_restart requested_at = do
    ci ← current
    perform_on requested_at ci.status.virtual_machine_reference

  recreated : ℕ → Result VirtualMachineInstance → Handler (Run S) (Unit {0})
  unfolding clear_restart_conditions modify raise pure as_api_not_found is_present
  recreated requested_at (err e) = if is_present (as_api_not_found e) then pure tt else raise e
  recreated requested_at (ok vmi) =
      if ltb requested_at vmi.creation_timestamp
      then (do modify (set_last_restarted (some requested_at)); clear_restart_conditions)
      else pure tt

  check_on : ℕ → Option VirtualMachineReference → Handler (Run S) (Unit {0})
  unfolding recreated get_vmi pure
  check_on requested_at none = pure tt
  check_on requested_at (some ref) = do
    answer ← attempt (get_vmi ref)
    recreated requested_at answer

  unfoldable pub check_restart_completion : ℕ → Handler (Run S) (Unit {0})
  unfolding check_on current
  check_restart_completion requested_at = do
    ci ← current
    check_on requested_at ci.status.virtual_machine_reference

  unfoldable pub handle_requested : Option ℕ → Handler (Run S) CtrlResult
  unfolding clear_restart_conditions check_restart_completion is_processed perform_restart current
      pure
  handle_requested none = do clear_restart_conditions; pure no_requeue
  handle_requested (some requested_at) = do
    ci ← current
    if kube.is_status_condition_true ci.status.conditions restart_in_progress
        then (do check_restart_completion requested_at; pure no_requeue)
        else if is_processed requested_at ci.status.last_restarted_at
        then pure no_requeue
        else perform_restart requested_at

  unfoldable pub handle_restart_request : Handler (Run S) CtrlResult
  unfolding handle_requested current
  handle_restart_request = do ci ← current; handle_requested ci.spec.restart_requested_at

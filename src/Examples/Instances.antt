-- ===== src/Examples/Instances.antt =====
-- The ComputeInstance controller: provisioning, updates, restarts and the status.
use cloudkit_operator.Prelude.{
  plain, ◌≡◌, refl, arith, true, none, some, [], ◌∷◌, ◌++◌, ok, done, failed, if◌then◌else◌,
}
use cloudkit_operator.Api.Job
use cloudkit_operator.Api.Condition.{condition_true, get_condition, has_status}
use cloudkit_operator.Api.ComputeInstance.{
  ComputeInstance, restart_in_progress, restart_failed, new_condition,
}
use cloudkit_operator.ComputeInstance.Run.{
  Cluster, Run, Reconciler, called_get_provision_status, called_delete_vmi, no_requeue,
  has_management_state, called_update_status,
}
use cloudkit_operator.ComputeInstance.Provisioning.{handle_provisioning}
use cloudkit_operator.ComputeInstance.Provisioning.Triggers.{
  calls_for, handle_provisioning-calls, trigger_then_poll,
}
use cloudkit_operator.ComputeInstance.Restart.{handle_restart_request}
use cloudkit_operator.ComputeInstance.Restart.Cycle.{
  handle_restart_request-starts, handle_restart_request-completes,
}
use cloudkit_operator.ComputeInstance.Update.{apply_config, handle_update}
use cloudkit_operator.ComputeInstance.Update.Settled.{ConfigCalls, apply_config-calls}
use cloudkit_operator.ComputeInstance.Reconcile.{handle, reconcile_instance, write_latest}
use cloudkit_operator.ComputeInstance.Reconcile.Records.{recorded, reconcile_instance-records}
use cloudkit_operator.Examples.Kubernetes.{kube}
use cloudkit_operator.Examples.Samples.{
  new_job, instance_with, cluster, machine, vmi, scripted, reconciler, run_on,
}

abbrev fresh : Run (Unit {0})
fresh = run_on (instance_with [] []) tt

abbrev busy : Run (Unit {0})
busy = run_on (instance_with (new_job ∷ []) []) tt

handle_provisioning-calls_example :
    (handle_provisioning (reconciler (scripted Job.running)) cluster busy).1.calls
    ≡ busy.calls
      ++ (if has_management_state "manual" busy.instance
          then []
          else calls_for (some (scripted Job.running)) busy.instance)
handle_provisioning-calls_example =
    handle_provisioning-calls (reconciler (scripted Job.running)) cluster busy

-- the next run is some time later
abbrev moment : Cluster
moment = record cluster { now = 160 }

abbrev after_trigger : Run (Unit {0})
unfolding handle_provisioning
after_trigger = (handle_provisioning (reconciler (scripted Job.running)) cluster fresh).1

trigger_then_poll_example :
    (handle_provisioning (reconciler (scripted Job.running)) moment after_trigger).1.calls
    ≡ after_trigger.calls ++ called_get_provision_status "77" ∷ []
unfolding handle_provisioning has_management_state
    cloudkit_operator.ComputeInstance.Provisioning.has_no_id Job.find_latest_job_by_type
    Job.latest_from cloudkit_operator.ComputeInstance.Provisioning.trigger
trigger_then_poll_example =
    trigger_then_poll (reconciler (scripted Job.running)) cluster moment (scripted Job.running)
      (record { job_id = "77"; initial_state = Job.pending; message = "" }) fresh after_trigger refl
      refl refl refl refl (omega arith) tt refl refl

apply_config-calls_example :
    ConfigCalls
      (reconciler (scripted Job.running))
      busy
      (apply_config kube (reconciler (scripted Job.running)) cluster busy).1.calls
apply_config-calls_example =
    apply_config-calls kube (reconciler (scripted Job.running)) cluster busy

abbrev requested : ComputeInstance
requested = record (instance_with [] []) {
  spec = record { template_id = "t"; template_parameters = ""; restart_requested_at = some 50 };
  status = record (instance_with [] []).status { virtual_machine_reference = some machine };
}

abbrev restarting : ComputeInstance
restarting = record requested {
  status = record requested.status {
    conditions = new_condition restart_in_progress condition_true "" "" ∷ [];
  };
}

handle_restart_request-starts_example :
    let run' = (handle_restart_request kube cluster (run_on requested tt)).1 in
    (run'.calls ≡ [] ++ called_delete_vmi "tenant-ns" "vm" ∷ [])
    × (run'.instance.status.last_restarted_at ≡ none)
    × (has_status condition_true (get_condition run'.instance.status.conditions restart_in_progress)
        ≡ true)
    × (get_condition run'.instance.status.conditions restart_failed ≡ none)
unfolding get_condition
handle_restart_request-starts_example =
    handle_restart_request-starts kube cluster (run_on requested tt) 50 machine vmi
      (record { requested = refl; idle = refl; unprocessed = λ last e. absurd (cc) }) refl refl refl

handle_restart_request-completes_example :
    let run' = (handle_restart_request kube cluster (run_on restarting tt)).1 in
    (run'.calls ≡ [])
    × (run'.instance.status.last_restarted_at ≡ some 50)
    × (get_condition run'.instance.status.conditions restart_in_progress ≡ none)
    × (get_condition run'.instance.status.conditions restart_failed ≡ none)
    × (handle_restart_request kube cluster run' ≡ (done no_requeue, run'))
unfolding get_condition
handle_restart_request-completes_example =
    handle_restart_request-completes kube cluster (run_on restarting tt) 50 machine vmi refl refl
      refl refl (omega arith)

abbrev by_script : Reconciler (Unit {0})
by_script = reconciler (scripted Job.running)

reconcile_instance-records_example :
    let handled = (handle kube by_script cluster none busy).1 in
    ((reconcile_instance kube by_script cluster busy).1 ≡ record handled {
      calls = handled.calls ++ called_update_status handled.instance.status ∷ [];
    })
    × ((reconcile_instance kube by_script cluster busy).0
        ≡ recorded (failed (plain "tenant name not found")) (ok tt))
unfolding has_management_state handle handle_update write_latest
reconcile_instance-records_example =
    reconcile_instance-records kube by_script cluster busy (failed (plain "tenant name not found"))
      (handle kube by_script cluster none busy).1 refl refl (λ e. absurd (cc)) refl

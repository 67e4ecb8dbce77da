-- ===== src/Examples/Deletion.antt =====
-- The deletion of an instance.
use mathlib.Core.Path.{subst}
use cloudkit_operator.Prelude.{done, some_unique, ◌≡◌, ◌⊎◌, refl, arith, true, false, [], ◌∷◌, ok}
use cloudkit_operator.Strconv.{pos}
use cloudkit_operator.Api.Job
use cloudkit_operator.Api.ComputeInstance.{ComputeInstance}
use cloudkit_operator.Webhook.{WebhookState}
use cloudkit_operator.Provisioning.Eda.{EdaProvider, eda_provider, aap_finalizer}
use cloudkit_operator.Provisioning.Aap
use cloudkit_operator.Provisioning.Aap.{aap_provider}
use cloudkit_operator.ComputeInstance.Run.{
  Run, Reconciler, finalizer, no_requeue, has_management_state,
}
use cloudkit_operator.ComputeInstance.Deprovisioning.{handle_deprovisioning}
use cloudkit_operator.ComputeInstance.Deprovisioning.Release.{
  Released, Waits, handle_deprovisioning-Released,
}
use cloudkit_operator.ComputeInstance.Deprovisioning.Effects.{Keeps, handle_deprovisioning-Keeps}
use cloudkit_operator.ComputeInstance.Delete.{handle_delete}
use cloudkit_operator.ComputeInstance.Delete.Guard.{marked, handle_delete-Released}
use cloudkit_operator.ComputeInstance.Delete.Unpolled.{impatient, handle_delete-never_waits}
use cloudkit_operator.ComputeInstance.Delete.WithEda.{
  NoRateLimit, eda-handle_delete, eda_provider-Waits,
}
use cloudkit_operator.ComputeInstance.Delete.WithAap.{IsDeprovisioned, aap-handle_delete}
use cloudkit_operator.Examples.Kubernetes.{kube}
use cloudkit_operator.Examples.Providers.{client, json, provider}
use cloudkit_operator.Examples.Samples.{
  removal, instance_with, cluster, scripted, reconciler, run_on, net, webhook_client, no_requests,
}

abbrev removing : ComputeInstance
removing = instance_with (removal ∷ []) (finalizer ∷ [])

abbrev removing_run : Run (Unit {0})
removing_run = run_on removing tt

abbrev by_script : Reconciler (Unit {0})
by_script = reconciler (scripted Job.succeeded)

script-Waits : Waits (scripted Job.succeeded)
script-Waits = record { trigger_waits = λ ci s e after h limit. absurd (cc) }

handle_deprovisioning-Released_example : Released by_script removing_run
unfolding handle_deprovisioning has_management_state Job.find_latest_job_by_type Job.latest_from
    Job.newer cloudkit_operator.ComputeInstance.Deprovisioning.poll Job.is_terminal
    Job.is_successful
handle_deprovisioning-Released_example =
    handle_deprovisioning-Released by_script cluster (omega arith) removing_run no_requeue
      (λ p there. subst Waits (some_unique refl there) script-Waits) refl refl

handle_deprovisioning-Keeps_example :
    Keeps by_script cluster
      (finalizer ∷ [])
      (handle_deprovisioning by_script cluster removing_run).1
handle_deprovisioning-Keeps_example =
    handle_deprovisioning-Keeps by_script cluster (finalizer ∷ []) removing_run
      (record { finalizers = refl; bounded = omega arith })

handle_delete-Released_example :
    ((handle_delete kube by_script cluster removing_run).1.instance.finalizers ≡ finalizer ∷ [])
    ⊎ Released by_script (marked removing_run)
handle_delete-Released_example =
    handle_delete-Released kube by_script cluster (omega arith) removing_run
      (λ p there. subst Waits (some_unique refl there) script-Waits) (omega arith)

abbrev eda : EdaProvider
eda = record { webhook_client = webhook_client; create_url = "create"; delete_url = "delete" }

abbrev by_eda : Reconciler WebhookState
by_eda = reconciler (eda_provider kube net (λ ci. ok "{}") eda)

plain-NoRateLimit : NoRateLimit net (λ ci. ok "{}")
plain-NoRateLimit = record {
  json_errors = λ ci e h. absurd (cc);
  request_errors = λ url body e h. absurd (cc);
  send_errors = λ timeout url body e h. absurd (cc);
}

eda_provider-Waits_example : Waits (eda_provider kube net (λ ci. ok "{}") eda)
eda_provider-Waits_example = eda_provider-Waits kube net (λ ci. ok "{}") eda plain-NoRateLimit

eda-handle_delete_example :
    ((handle_delete kube by_eda cluster (run_on removing no_requests)).1.instance.finalizers
      ≡ finalizer ∷ [])
    ⊎ (has_management_state "manual" removing ≡ true)
    ⊎ (kube.contains_finalizer (finalizer ∷ []) aap_finalizer ≡ false)
eda-handle_delete_example =
    eda-handle_delete kube net (λ ci. ok "{}") eda by_eda cluster (run_on removing no_requests)
      (omega arith) plain-NoRateLimit refl (omega arith)

abbrev by_aap : Reconciler (Unit {0})
by_aap = reconciler (aap_provider (client "successful") json provider)

aap-Waits : Waits (aap_provider (client "successful") json provider)
unfolding Aap.status_of Aap.map_aap_status_to_job_state Job.is_terminal Aap.cancel_provision_job
    Aap.eda_readiness Aap.trigger_deprovision Aap.is_ready_for_deprovision Aap.get_job_status
    Aap.launch_deprovision_job Aap.extract_extra_vars
aap-Waits = record { trigger_waits = λ ci s e after h limit. ground arith }

aap-handle_delete_example :
    ((handle_delete kube by_aap cluster removing_run).1.instance.finalizers ≡ finalizer ∷ [])
    ⊎ (has_management_state "manual" removing ≡ true)
    ⊎ IsDeprovisioned (client "successful") json provider (removal ∷ []) tt
aap-handle_delete_example =
    aap-handle_delete (client "successful") json provider kube by_aap cluster removing_run
      (omega arith) aap-Waits refl (omega arith)

-- a poll interval of minus five seconds, and a deprovision job that still runs
handle_delete-never_waits_example :
    let after =
      handle_delete kube
        (impatient kube cluster "vms" 4999999999 (pos 10) (scripted Job.running))
        cluster
        removing_run in
    (after.0 ≡ done no_requeue)
    × (kube.contains_finalizer after.1.instance.finalizers finalizer ≡ false)
unfolding has_management_state Job.find_latest_job_by_type Job.latest_from Job.newer
handle_delete-never_waits_example =
    handle_delete-never_waits kube cluster "vms" 4999999999 (pos 10) (scripted Job.running) removal
      removing_run refl refl refl refl (λ h. absurd (cc)) (λ ci. refl)

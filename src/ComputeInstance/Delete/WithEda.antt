-- ===== src/ComputeInstance/Delete/WithEda.antt =====
-- The deletion of an instance (handleDelete of internal/controller/computeinstance_controller.go)
-- with the EDA provider (internal/provisioning/eda_provider.go).
use mathlib.Core.Path.{subst}
use cloudkit_operator.Prelude.{
  some_unique, ℕ, ◌≤◌, ◌<◌, String, ◌≡◌, ◌∙◌, ap, ◌⊎◌, inl, inr, true, false, none, some, arith,
  length, Result, err, GoError, as_rate_limit, done, failed, Outcome-cases, Result-cases,
}
use cloudkit_operator.Api.Kube.{Kube}
use cloudkit_operator.Api.Job.{JobState, is_terminal, is_successful}
use cloudkit_operator.Api.ComputeInstance.{ComputeInstance}
use cloudkit_operator.Webhook.{Network, WebhookState, Resource, trigger_webhook}
use cloudkit_operator.Provisioning.Provider.{
  ProvisionStatus, DeprovisionResult, deprovision_skipped,
}
use cloudkit_operator.Provisioning.Eda
use cloudkit_operator.Provisioning.Eda.{EdaProvider, aap_finalizer, eda_provider}
use cloudkit_operator.ComputeInstance.Run.{Reconciler, Cluster, Run, has_management_state}
use cloudkit_operator.ComputeInstance.Deprovisioning.Release.{
  Released, by_hand, skipped, succeeded, not_blocking, Waits,
}
use cloudkit_operator.ComputeInstance.Delete.{handle_delete}
use cloudkit_operator.ComputeInstance.Delete.Guard.{marked, handle_delete-Released}

-- No error of encoding/json and net/http is a RateLimitError.
pub record NoRateLimit (net : Network) (json : ComputeInstance → Result String) : Type 0 where
  pub json_errors : (ci : ComputeInstance) (e : GoError) → json ci ≡ err e → as_rate_limit e ≡ none
  pub request_errors :
      (url body : String) (e : GoError) → net.new_request url body ≡ err e → as_rate_limit e ≡ none
  pub send_errors :
      (timeout : ℕ) (url body : String) (e : GoError)
      → net.send timeout url body ≡ err e
      → as_rate_limit e ≡ none

success-is_terminal : (state : JobState) → is_successful state ≡ true → is_terminal state ≡ true
unfolding is_successful is_terminal
success-is_terminal state success = ground arith

module _ (kube : Kube) (net : Network) (json : ComputeInstance → Result String)
    (p : EdaProvider) where
  trigger_webhook-rate_limit :
      (url : String) (ci : ComputeInstance) (s : WebhookState) (e : GoError)
      → NoRateLimit net json
      → (trigger_webhook net p.webhook_client url
          (record { name = ci.name; marshal = json ci })
          s).0
        ≡ failed e
      → as_rate_limit e ≡ none
  unfolding trigger_webhook as_rate_limit
  trigger_webhook-rate_limit url ci s e plain h = elim (Result-cases (json ci)) [
    | inr (x, m) ↦ ground (arith, plain.json_errors ci x m)
    | inl (body, m) ↦ elim (Result-cases (net.new_request url body)) [
      | inr (x, b) ↦ ground (arith, plain.request_errors url body x b)
      | inl (u, b) ↦ elim (Result-cases (net.send p.webhook_client.client_timeout url body)) [
        | inr (x, a) ↦
            ground (arith, plain.send_errors p.webhook_client.client_timeout url body x a)
        | inl (code, a) ↦ ground arith
      ]
    ]
  ]

  eda-skips :
      (ci : ComputeInstance) (s : WebhookState) (result : DeprovisionResult)
      → (Eda.trigger_deprovision kube net json p ci s).0 ≡ done result
      → result.action ≡ deprovision_skipped
      → kube.contains_finalizer ci.finalizers aap_finalizer ≡ false
  unfolding Eda.trigger_deprovision
  eda-skips ci s result h action = ground arith

  eda-status :
      (ci : ComputeInstance) (job_id : String) (s : WebhookState) (status : ProvisionStatus)
      → (Eda.get_deprovision_status kube net json p ci job_id s).0 ≡ done status
      → is_terminal status.state ≡ true
      → kube.contains_finalizer ci.finalizers aap_finalizer ≡ false
  unfolding Eda.get_deprovision_status is_terminal
  eda-status ci job_id s status h over = ground arith

  -- If no error of net/http and encoding/json is a RateLimitError, every RateLimitError of the EDA
  -- provider's TriggerDeprovision names a positive time to wait.
  pub eda_provider-Waits : NoRateLimit net json → Waits (eda_provider kube net json p)
  unfolding Eda.trigger_deprovision as_rate_limit
  eda_provider-Waits plain = record {
    trigger_waits = λ ci s e after h limit.
        let resource : Resource = record { name = ci.name; marshal = json ci } in
        elim (Outcome-cases (trigger_webhook net p.webhook_client p.delete_url resource s).0) [
          | inl (remaining, w) ↦ ground arith
          | inr (inl (x, w)) ↦
              ground (arith, trigger_webhook-rate_limit p.delete_url ci s x plain w)
          | inr (inr w) ↦ ground arith
        ];
  }

  eda-Released :
      (r : Reconciler WebhookState) (run : Run WebhookState)
      → r.provisioning_provider ≡ some (eda_provider kube net json p)
      → Released r run
      → (has_management_state "manual" run.instance ≡ true)
        ⊎ (kube.contains_finalizer run.instance.finalizers aap_finalizer ≡ false)
  eda-Released r run eda (by_hand manual) = inl manual
  eda-Released r run eda (skipped provider result there answer action) = inr (
      eda-skips run.instance run.backend result
        (ap (λ q. (q.trigger_deprovision run.instance run.backend).0) (some_unique eda there)
          ∙ answer)
        action)
  eda-Released r run eda (succeeded provider job status there latest answer success) = inr (
      eda-status run.instance job.job_id run.backend status
        (ap (λ q. (q.get_deprovision_status run.instance job.job_id run.backend).0)
            (some_unique eda there)
          ∙ answer)
        (success-is_terminal status.state success))
  eda-Released r run eda (not_blocking provider job status there latest answer over lets_go) = inr (
      eda-status run.instance job.job_id run.backend status
        (ap (λ q. (q.get_deprovision_status run.instance job.job_id run.backend).0)
            (some_unique eda there)
          ∙ answer)
        over)

  -- With the EDA provider, if the poll interval is positive, no error of net/http or encoding/json is
  -- a RateLimitError, and the job history is within its bound, handleDelete changes the finalizers of
  -- an instance only under manual management, or once the playbook's own finalizer is gone.
  pub eda-handle_delete :
      (r : Reconciler WebhookState) (cluster : Cluster) (run : Run WebhookState)
      → 0 < r.status_poll_interval
      → NoRateLimit net json
      → r.provisioning_provider ≡ some (eda_provider kube net json p)
      → length run.instance.status.jobs ≤ r.max_job_history
      → ((handle_delete kube r cluster run).1.instance.finalizers ≡ run.instance.finalizers)
        ⊎ (has_management_state "manual" run.instance ≡ true)
        ⊎ (kube.contains_finalizer run.instance.finalizers aap_finalizer ≡ false)
  unfolding has_management_state
  eda-handle_delete r cluster run polls plain eda bounded =
      elim (handle_delete-Released kube r cluster polls run
        (λ provider there. subst Waits (some_unique eda there) (eda_provider-Waits plain))
        bounded) [
          | inl same ↦ inl same
          | inr released ↦ inr (eda-Released r (marked run) eda released)
        ]

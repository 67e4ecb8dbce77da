-- ===== src/HostPool/Steps.antt =====
-- The steps of handleUpdate and handleDelete of internal/controller/hostpool_controller.go: the
-- component, the webhooks, the conditions that they set, and findNamespace.
use cloudkit_operator.Prelude.{
  ℕ, String, true, Option, none, some, List, if◌then◌else◌, ◌==◌, ltb, GoError, plain, join_text,
  error_text, length, Result, ok, err, Outcome, done, failed, panicked, Handler, attempt, pure,
  lift, ◌>>=◌, ◌>>◌,
}
use cloudkit_operator.Strconv.{itoa}
use cloudkit_operator.Api.Condition.{condition_true, condition_false}
use cloudkit_operator.Api.HostPool.{
  HostPool, HostPoolPhase, set_condition, host_pool_condition_accepted,
  host_pool_condition_progressing, host_pool_condition_available,
}
use cloudkit_operator.ComputeInstance.Run.{CtrlResult, no_requeue, requeue_in}
use cloudkit_operator.Controller.{
  Namespace, current, modify, asking, telling, on_cluster, raise_if, has_entry,
  management_state_annotation,
}
use cloudkit_operator.Controller.Components.{AppResource, create_or_update, only_item, trigger}
use cloudkit_operator.HostPool.Resources.{
  HostPoolApi, HostPoolScope, HostPoolReconciler, called_delete_namespace,
  label_selector_from_host_pool_instance,
}

abbrev pub host_pool_finalizer : String
host_pool_finalizer = "cloudkit.openshift.io/finalizer"

abbrev pub set_finalizers : List String → HostPool → HostPool
set_finalizers fs hp = record hp { finalizers = fs }

abbrev pub set_phase : HostPoolPhase → HostPool → HostPool
set_phase phase hp = record hp { status = record hp.status { phase = phase } }

abbrev pub too_many : {A : Type 0} → HostPool → List A → String
too_many hp items =
    join_text "found too many ("
      (join_text (itoa (length items)) (join_text ") matching namespaces for " hp.name))

abbrev pub requeue_now : CtrlResult
requeue_now = record { requeue = true; requeue_after = 0 }

module _ {V : Type 0} (api : HostPoolApi V) where
  unfoldable pub find_namespace : Handler (HostPoolScope V) (Option Namespace)
  unfolding current asking on_cluster lift only_item label_selector_from_host_pool_instance
  find_namespace = do
    hp ← current
    items ← asking (on_cluster (api.list_namespaces (label_selector_from_host_pool_instance hp)))
    lift (only_item (plain (too_many hp items)) items)

  unfoldable pub update : Handler (HostPoolScope V) (Unit {0})
  unfolding current modify asking on_cluster
  update = do hp ← current; answer ← asking (on_cluster (api.update hp)); modify (λ old. answer)

  unfoldable pub mark_failed : String → String → GoError → HostPool → HostPool
  unfolding set_condition error_text
  mark_failed reason text e hp = set_phase HostPoolPhase.failed (
      set_condition api.now hp host_pool_condition_progressing condition_false reason
        (join_text text (error_text api.duration_text e)))

  unfoldable pub failing :
      {A : Type 0} → String → String → Outcome A × HostPoolScope V → Outcome A × HostPoolScope V
  unfolding mark_failed
  failing reason text (failed e, s) =
      (failed e, record s { instance = mark_failed reason text e s.instance })
  failing reason text (done a, s) = (done a, s)
  failing reason text (panicked, s) = (panicked, s)

  -- if err := m(); err != nil { SetCondition(Progressing, False, reason, text); return err }
  unfoldable pub or_failed :
      {A : Type 0} → String → String → Handler (HostPoolScope V) A → Handler (HostPoolScope V) A
  unfolding failing
  or_failed reason text m s = failing reason text (m s)

  -- one round of the loop over r.hostPoolComponents()
  unfoldable pub handle_component :
      String
      → Handler (HostPoolScope V) (AppResource HostPool)
      → Handler (HostPoolScope V) (Unit {0})
  unfolding or_failed create_or_update raise_if
  handle_component name fn = do
    resource ←
        or_failed "ComponentCreationFailed" (join_text "Failed to create " (join_text name ": ")) fn
    or_failed "ComponentUpdateFailed" (join_text "Failed to update " (join_text name ": "))
        (do applied ← create_or_update api.create_or_update resource; raise_if applied.error)

  unfoldable pub set_initial_conditions : HostPool → HostPool
  unfolding set_condition
  set_initial_conditions hp =
      let accepted =
        set_condition api.now hp host_pool_condition_accepted condition_true "HostPoolAccepted"
          "HostPool has been accepted for processing" in
      if ltb 0 (length hp.status.conditions)
      then hp
      else set_phase HostPoolPhase.progressing (
          set_condition api.now accepted host_pool_condition_progressing condition_true
            "HostPoolProgressing" "HostPool is being processed")

  unfoldable pub mark_ready : HostPool → HostPool
  unfolding set_condition
  mark_ready hp =
      let settled =
        set_condition api.now hp host_pool_condition_progressing condition_false "HostPoolReady"
          "HostPool is ready" in
      let available =
        set_condition api.now settled host_pool_condition_available condition_true
          "HostPoolAvailable" "HostPool is available" in
      record available {
        status = record available.status {
          phase = HostPoolPhase.ready;
          host_sets = available.spec.host_sets;
        };
      }

module _ {V : Type 0} (api : HostPoolApi V) (r : HostPoolReconciler) where
  unfoldable pub trigger_webhook : String → Handler (HostPoolScope V) ℕ
  unfolding current trigger
  trigger_webhook url = do
    hp ← current
    trigger api.network r.webhook_client url (record { name = hp.name; marshal = api.marshal hp })

  unfoldable pub call_create_webhook : Handler (HostPoolScope V) (Unit {0})
  unfolding pure or_failed trigger_webhook
  call_create_webhook = if r.create_host_pool_webhook == "" then pure tt else do
    remaining ←
        or_failed api "WebhookFailed" "Webhook call failed: "
          (trigger_webhook r.create_host_pool_webhook)
    pure tt

  -- the call of the delete webhook: what handleDelete returns at once, if anything
  unfoldable pub triggered : Result ℕ → Option CtrlResult
  triggered (err e) = some requeue_now
  triggered (ok remaining) = if ltb 0 remaining then some (requeue_in remaining) else none

  unfoldable pub call_delete_webhook : Handler (HostPoolScope V) (Option CtrlResult)
  unfolding current pure has_entry trigger_webhook triggered
  call_delete_webhook = do
    hp ← current
    if r.delete_host_pool_webhook == ""
        then pure none
        else if has_entry management_state_annotation "manual" hp.annotations
        then pure none
        else do
          answer ← attempt (trigger_webhook r.delete_host_pool_webhook)
          pure (triggered answer)

  unfoldable pub delete_after : Namespace → Option CtrlResult → Handler (HostPoolScope V) CtrlResult
  unfolding pure telling on_cluster
  delete_after namespace (some res) = pure res
  delete_after namespace none = do
    telling (called_delete_namespace namespace) (on_cluster (api.delete_namespace namespace))
    pure no_requeue

-- ===== src/HostPool/Phases.antt =====
-- The phase in which handleUpdate (internal/controller/hostpool_controller.go) leaves a pool.
use mathlib.Core.Path.{subst}
use cloudkit_operator.Prelude.{
  ◌≡◌, refl, ap, sym, ◌∙◌, String, ◌==◌, true, GoError, Outcome, done, failed, panicked, Bool-cases,
  inl, inr, Handler, pure, ◌>>◌,
}
use cloudkit_operator.Api.Kube.{Kube}
use cloudkit_operator.Api.HostPool.{HostPool, HostPoolPhase}
use cloudkit_operator.ComputeInstance.Run.{CtrlResult, no_requeue}
use cloudkit_operator.Controller.{modify}
use cloudkit_operator.Controller.Components.{AppResource}
use cloudkit_operator.Controller.Rules.{bind_done, failed_rule}
use cloudkit_operator.HostPool.Resources.{
  HostPoolApi, HostPoolScope, HostPoolReconciler, new_host_pool_namespace,
}
use cloudkit_operator.HostPool.Steps.{
  host_pool_finalizer, failing, or_failed, mark_failed, handle_component, call_create_webhook,
  trigger_webhook, mark_ready, set_initial_conditions,
}
use cloudkit_operator.HostPool.Handlers.{handle_update}

-- A failure is marked in the phase.
abbrev IsMarked : {V : Type 0} → HostPoolScope V → Type 0
IsMarked s = s.instance.status.phase ≡ HostPoolPhase.failed

abbrev IsReady : HostPool → Type 0
IsReady hp = (hp.status.phase ≡ HostPoolPhase.ready) × (hp.status.host_sets ≡ hp.spec.host_sets)

module _ {V : Type 0} (api : HostPoolApi V) where
  failing-IsMarked :
      {A : Type 0} (reason text : String) (p : Outcome A × HostPoolScope V) (e : GoError)
      → (failing api reason text p).0 ≡ failed e
      → IsMarked (failing api reason text p).1
  unfolding failing mark_failed
  failing-IsMarked reason text (failed x, s) e h = refl
  failing-IsMarked reason text (done a, s) e h = absurd (cc)
  failing-IsMarked reason text (panicked, s) e h = absurd (cc)

  or_failed-IsMarked :
      {A : Type 0} (reason text : String) (m : Handler (HostPoolScope V) A) (s : HostPoolScope V)
      (e : GoError)
      → (or_failed api reason text m s).0 ≡ failed e
      → IsMarked (or_failed api reason text m s).1
  unfolding or_failed
  or_failed-IsMarked reason text m s e h = failing-IsMarked reason text (m s) e h

  handle_component-IsMarked :
      (name : String) (fn : Handler (HostPoolScope V) (AppResource HostPool)) (s : HostPoolScope V)
      (e : GoError)
      → (handle_component api name fn s).0 ≡ failed e
      → IsMarked (handle_component api name fn s).1
  unfolding handle_component
  handle_component-IsMarked name fn =
      failed_rule (or_failed api _ _ fn) _ IsMarked (or_failed-IsMarked _ _ fn)
        (λ resource. or_failed-IsMarked _ _ _)

  call_create_webhook-IsMarked :
      (r : HostPoolReconciler) (s : HostPoolScope V) (e : GoError)
      → (call_create_webhook api r s).0 ≡ failed e
      → IsMarked (call_create_webhook api r s).1
  unfolding call_create_webhook pure
  call_create_webhook-IsMarked r s e = elim (Bool-cases (r.create_host_pool_webhook == "")) [
    | inl unset ↦ rw unset (λ h. absurd (cc))
    | inr set ↦ rw set (
        failed_rule
          (or_failed api "WebhookFailed" "Webhook call failed: "
            (trigger_webhook api r r.create_host_pool_webhook))
          (λ n. pure tt) IsMarked (or_failed-IsMarked _ _ _) (λ a t x h. absurd (cc)) s e)
  ]

module _ {V : Type 0} (kube : Kube) (api : HostPoolApi V) (r : HostPoolReconciler) where
  -- handleUpdate of a pool that has its finalizer
  abbrev preparing : Handler (HostPoolScope V) (Unit {0})
  preparing = do
    modify (set_initial_conditions api)
    handle_component api "Namespace" (new_host_pool_namespace api)
    call_create_webhook api r

  -- Once the pool has its finalizer, handleUpdate that returns no error leaves the pool ready and
  -- with the host sets of its spec, and one that returns an error leaves it failed.
  pub handle_update-settles :
      (s : HostPoolScope V)
      → kube.contains_finalizer s.instance.finalizers host_pool_finalizer ≡ true
      → let s' = handle_update kube api r s in
        ((c : CtrlResult)
          → s'.0 ≡ done c
          → (s'.1.instance.status.phase ≡ HostPoolPhase.ready)
            × (s'.1.instance.status.host_sets ≡ s'.1.instance.spec.host_sets))
        × ((e : GoError) → s'.0 ≡ failed e → s'.1.instance.status.phase ≡ HostPoolPhase.failed)
  unfolding handle_update modify pure mark_ready
  handle_update-settles s present =
      let initial = record s { instance = set_initial_conditions api s.instance } in
      let component = handle_component api "Namespace" (new_host_pool_namespace api) in
      let ready : Handler (HostPoolScope V) CtrlResult =
        modify (mark_ready api) >> pure no_requeue in
      rw present (
        λ c h.
            let (a, e, f) =
              bind_done component (λ _. call_create_webhook api r >> ready) initial c h in
            let (b, g, i) =
              bind_done (call_create_webhook api r) (λ _. ready) (component initial).1 c
                (ap (λ p. p.0) (sym f) ∙ h) in
            subst (λ p. IsReady p.1.instance) (sym (f ∙ i)) (refl, refl),
        failed_rule component (λ _. call_create_webhook api r >> ready) IsMarked
            (handle_component-IsMarked api "Namespace" (new_host_pool_namespace api))
            (λ a.
              failed_rule (call_create_webhook api r) (λ _. ready) IsMarked
                (call_create_webhook-IsMarked api r) (λ b t e h. absurd (cc)))
            initial,
      )

-- ===== src/HostPool/HeldBack.antt =====
-- A pool whose delete webhook was called a short while ago (handleDelete of
-- internal/controller/hostpool_controller.go with the cache of webhook_common.go).
use cloudkit_operator.Prelude.{
  ℕ, ◌+◌, ◌-◌, ◌<◌, ◌≡◌, refl, [], ◌∷◌, some, done, true, false, ◌==◌, lt→ltb, arith, pure,
}
use cloudkit_operator.Api.Kube.{Kube}
use cloudkit_operator.Api.HostPool.{set_condition}
use cloudkit_operator.ComputeInstance.Run.{requeue_in}
use cloudkit_operator.Webhook.{cache_key}
use cloudkit_operator.Webhook.Caching.{trigger_webhook-suppressed}
use cloudkit_operator.Controller.{
  Namespace, has_entry, management_state_annotation, on_webhooks, asking, current,
}
use cloudkit_operator.Controller.Components.{trigger, only_item}
use cloudkit_operator.Controller.Rules.{consulted}
use cloudkit_operator.HostPool.Resources.{HostPoolApi, HostPoolScope, HostPoolReconciler}
use cloudkit_operator.HostPool.Steps.{
  host_pool_finalizer, find_namespace, call_delete_webhook, trigger_webhook, triggered,
}
use cloudkit_operator.HostPool.Handlers.{release, mark_deleting, handle_delete}
use cloudkit_operator.HostPool.Release.{listed_namespaces, marked, call_delete_webhook-Spectates}

module _ {V : Type 0} (kube : Kube) (api : HostPoolApi V) (r : HostPoolReconciler) where
  -- The delete webhook is set and is to be called, and was called at the time `at` for the pool.
  pub record IsRecent (s : HostPoolScope V) (at : ℕ) : Type 0 where
    pub set : (r.delete_host_pool_webhook == "") ≡ false
    pub unmanaged : has_entry management_state_annotation "manual" s.instance.annotations ≡ false
    pub remembered :
        s.world.webhooks.inflight_requests (cache_key r.delete_host_pool_webhook s.instance.name)
        ≡ some at
    pub past : at < s.world.webhooks.now
    pub within : s.world.webhooks.now < at + r.webhook_client.minimum_request_interval

  call_delete_webhook-held_back :
      (s : HostPoolScope V) (at : ℕ)
      → IsRecent s at
      → (call_delete_webhook api r s).0 ≡ done (some (requeue_in (s.world.webhooks.now - at)))
  unfolding call_delete_webhook trigger_webhook trigger on_webhooks asking current triggered pure
  call_delete_webhook-held_back s at h =
      let (answer, posted, kept) =
        trigger_webhook-suppressed api.network r.webhook_client r.delete_host_pool_webhook
          (record { name = s.instance.name; marshal = api.marshal s.instance }) s.world.webhooks at
          h.remembered h.past h.within in
      let some_time : 0 < s.world.webhooks.now - at = omega (arith, h.past) in
      rw (h.set, h.unmanaged, answer, lt→ltb 0 (s.world.webhooks.now - at) some_time) refl

  -- For a pool that has the controller's finalizer, is not under manual management, and whose
  -- namespace is the only one listed: while a delete webhook is set and was called for the pool at an
  -- earlier moment within the minimum interval, handleDelete asks for no deletion and returns no error,
  -- and asks to come back after the time that has passed since that call.
  pub handle_delete-held_back :
      (s : HostPoolScope V) (ns : Namespace) (at : ℕ)
      → kube.contains_finalizer s.instance.finalizers host_pool_finalizer ≡ true
      → (listed_namespaces kube api r s.instance s.world.cluster).0 ≡ done (ns ∷ [])
      → IsRecent s at
      → ((handle_delete kube api r s).0 ≡ done (requeue_in (s.world.webhooks.now - at)))
        × ((handle_delete kube api r s).1.calls ≡ s.calls)
  unfolding handle_delete find_namespace mark_deleting release only_item set_condition
  handle_delete-held_back s ns at present one h =
      let before = consulted (listed_namespaces kube api r s.instance) (marked kube api r s) in
      let recent : IsRecent before at = record {
        set = h.set;
        unmanaged = h.unmanaged;
        remembered = h.remembered;
        past = h.past;
        within = h.within;
      } in
      let early = call_delete_webhook-held_back before at recent in
      let (same, calls) = call_delete_webhook-Spectates kube api r before in
      (rw (present, one, early) refl, rw (present, one, early) calls)

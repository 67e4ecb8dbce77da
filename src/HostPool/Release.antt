-- ===== src/HostPool/Release.antt =====
-- In which order handleDelete (internal/controller/hostpool_controller.go) gives up what belongs to a
-- pool.
use cloudkit_operator.Prelude.{
  ℕ, eq_iff, ok, true, ◌≡◌, refl, ◌∙◌, ap, List, [], ◌∷◌, ◌++◌, none, some, done, inl, inr, arith,
  Bool-cases, Outcome-cases, Handler, attempt, plain, ◌==◌, pure,
}
use cloudkit_operator.Api.Kube.{Kube}
use cloudkit_operator.Api.HostPool.{HostPool, set_condition}
use cloudkit_operator.Webhook
use cloudkit_operator.Webhook.{WebhookState}
use cloudkit_operator.Controller.{
  asking, current, Namespace, has_entry, management_state_annotation,
}
use cloudkit_operator.Controller.Components.{trigger}
use cloudkit_operator.Controller.Rules.{Spectates, then_rule, listing_rule, consulted}
use cloudkit_operator.HostPool.Resources.{
  HostPoolApi, HostPoolScope, HostPoolReconciler, called_delete_namespace,
  label_selector_from_host_pool_instance,
}
use cloudkit_operator.HostPool.Steps.{
  too_many, find_namespace, triggered, call_delete_webhook, trigger_webhook, delete_after,
  host_pool_finalizer,
}
use cloudkit_operator.HostPool.Handlers.{release, remove_finalizer, mark_deleting, handle_delete}

module _ {V : Type 0} (kube : Kube) (api : HostPoolApi V) (r : HostPoolReconciler) where
  abbrev pub listed_namespaces : HostPool → Handler V (List Namespace)
  listed_namespaces hp = api.list_namespaces (label_selector_from_host_pool_instance hp)

  abbrev pub marked : HostPoolScope V → HostPoolScope V
  marked s = record s { instance = mark_deleting kube api r s.instance }

  -- Nothing is left to wait for: no delete webhook is set, the pool is managed by hand, or the request
  -- for the pool ended without an error and with no time to wait.
  pub data Notified (hp : HostPool) (requests : WebhookState) : Type 0 where
    not_set : r.delete_host_pool_webhook ≡ "" → Notified hp requests
    by_hand :
        has_entry management_state_annotation "manual" hp.annotations ≡ true → Notified hp requests
    answered :
        (Webhook.trigger_webhook api.network r.webhook_client r.delete_host_pool_webhook
            (record { name = hp.name; marshal = api.marshal hp })
            requests).0
          ≡ done 0
        → Notified hp requests

  -- What handleDelete did to the finalizers and which deletions it asked for.
  pub data PoolReleased (s t : HostPoolScope V) : Type 0 where
    untouched : t.instance.finalizers ≡ s.instance.finalizers → t.calls ≡ s.calls → PoolReleased s t
    namespace_gone :
        (listed_namespaces s.instance s.world.cluster).0 ≡ done []
        → t.calls ≡ s.calls
        → PoolReleased s t
    namespace_deleted :
        (ns : Namespace)
        → (listed_namespaces s.instance s.world.cluster).0 ≡ done (ns ∷ [])
        → Notified (mark_deleting kube api r s.instance) s.world.webhooks
        → t.instance.finalizers ≡ s.instance.finalizers
        → t.calls ≡ s.calls ++ called_delete_namespace ns ∷ []
        → PoolReleased s t

  pub call_delete_webhook-Spectates : Spectates (call_delete_webhook api r)
  unfolding call_delete_webhook trigger_webhook trigger pure
  call_delete_webhook-Spectates s = elim (Bool-cases (r.delete_host_pool_webhook == "")) [
    | inl unset ↦ rw unset (refl, refl)
    | inr set ↦
        elim (Bool-cases (has_entry management_state_annotation "manual" s.instance.annotations)) [
          | inl manual ↦ rw (set, manual) (refl, refl)
          | inr other ↦
              rw (set, other)
                (then_rule (attempt (trigger_webhook api r r.delete_host_pool_webhook)) _
                  (λ t. (t.instance ≡ s.instance) × (t.calls ≡ s.calls)) s (refl, refl)
                  (λ answer t e h. h))
        ]
  ]

  triggered_ok : (remaining : ℕ) → triggered api r (ok remaining) ≡ none → remaining ≡ 0
  unfolding triggered
  triggered_ok remaining h = ground arith

  call_delete_webhook-Notified :
      (s : HostPoolScope V)
      → (call_delete_webhook api r s).0 ≡ done none
      → Notified s.instance s.world.webhooks
  unfolding call_delete_webhook trigger_webhook trigger asking current pure
  call_delete_webhook-Notified s h = elim (Bool-cases (r.delete_host_pool_webhook == "")) [
    | inl unset ↦ not_set ((eq_iff _ _).0 unset)
    | inr set ↦
        elim (Bool-cases (has_entry management_state_annotation "manual" s.instance.annotations)) [
          | inl manual ↦ by_hand manual
          | inr other ↦
              elim (Outcome-cases
                (Webhook.trigger_webhook api.network r.webhook_client r.delete_host_pool_webhook
                  (record { name = s.instance.name; marshal = api.marshal s.instance })
                  s.world.webhooks).0) [
                    | inl (remaining, e) ↦
                        let free = triggered_ok remaining (ground (arith, set, other, e, h)) in
                        answered (e ∙ ap done free)
                    | inr (inl (x, e)) ↦ absurd (ground (arith, set, other, e, h))
                    | inr (inr e) ↦ absurd (ground (arith, set, other, e, h))
                  ]
        ]
  ]

  remove_finalizer-calls : (s : HostPoolScope V) → (remove_finalizer kube api r s).1.calls ≡ s.calls
  unfolding remove_finalizer
  remove_finalizer-calls s = ground arith

  delete_after-calls :
      (ns : Namespace) (t : HostPoolScope V)
      → ((delete_after api r ns none t).1.instance.finalizers ≡ t.instance.finalizers)
        × ((delete_after api r ns none t).1.calls ≡ t.calls ++ called_delete_namespace ns ∷ [])
  unfolding delete_after
  delete_after-calls ns t = elim (Outcome-cases (api.delete_namespace ns t.world.cluster).0) [
    | inl (a, e) ↦ rw e (refl, refl)
    | inr (inl (x, e)) ↦ rw e (refl, refl)
    | inr (inr e) ↦ rw e (refl, refl)
  ]

  release_namespace :
      (s : HostPoolScope V) (ns : Namespace)
      → (listed_namespaces s.instance s.world.cluster).0 ≡ done (ns ∷ [])
      → PoolReleased s
          (release kube api r (some ns) (consulted (listed_namespaces s.instance) (marked s))).1
  unfolding release mark_deleting set_condition
  release_namespace s ns h =
      let before = consulted (listed_namespaces s.instance) (marked s) in
      let (kept, calls) = call_delete_webhook-Spectates before in
      let finalizers = ap (λ (hp : HostPool). hp.finalizers) kept in
      elim (Outcome-cases (call_delete_webhook api r before).0) [
        | inl (none, e) ↦
            let (same, told) = delete_after-calls ns (call_delete_webhook api r before).1 in
            rw e (
              namespace_deleted ns h (call_delete_webhook-Notified before e) (same ∙ finalizers)
                (told ∙ ap (λ log. log ++ called_delete_namespace ns ∷ []) calls))
        | inl (some res, e) ↦ rw e (untouched finalizers calls)
        | inr (inl (x, e)) ↦ rw e (untouched finalizers calls)
        | inr (inr e) ↦ rw e (untouched finalizers calls)
      ]

  -- handleDelete touches the finalizers of a pool only when the cluster lists no namespace for it,
  -- and asks to delete a namespace only when it is the only one that the cluster lists for the pool,
  -- and no delete webhook is set, or the pool is managed by hand, or the request to the webhook ended
  -- without an error and with no time to wait; then the finalizers stay. It asks for no other
  -- deletion.
  pub handle_delete-PoolReleased :
      (s : HostPoolScope V) → PoolReleased s (handle_delete kube api r s).1
  unfolding handle_delete find_namespace mark_deleting release
  handle_delete-PoolReleased s =
      elim (Bool-cases (kube.contains_finalizer s.instance.finalizers host_pool_finalizer)) [
        | inr free ↦ rw free (untouched refl refl)
        | inl present ↦ rw present (
            listing_rule (listed_namespaces s.instance)
              (λ items. plain (too_many (marked s).instance items)) (release kube api r)
              (λ p. PoolReleased s p.1) (marked s)
              (λ nothing. namespace_gone nothing (remove_finalizer-calls _))
              (λ ns one. release_namespace s ns one) (λ x. untouched refl refl)
              (untouched refl refl))
      ]

-- ===== src/ClusterOrder/Release.antt =====
-- In which order handleDelete (internal/controller/clusterorder_controller.go) gives up what belongs
-- to an order.
use cloudkit_operator.Prelude.{
  ◌≡◌, refl, ◌∙◌, List, [], ◌∷◌, ◌++◌, Option, none, some, done, arith, Handler, ◌>>◌, plain,
}
use cloudkit_operator.Api.Kube.{Kube}
use cloudkit_operator.Api.ClusterOrder.{ClusterOrder, ClusterOrderPhase}
use cloudkit_operator.Controller.{Namespace}
use cloudkit_operator.Controller.Rules.{
  then_rule, listing_rule, consulted, trigger_unless_manual-Spectates,
}
use cloudkit_operator.ClusterOrder.Resources.{
  ClusterApi, ClusterScope, ClusterOrderReconciler, called_delete_namespace,
  label_selector_from_instance,
}
use cloudkit_operator.ClusterOrder.Observed.{set_phase}
use cloudkit_operator.ClusterOrder.Handlers.{
  too_many, find_namespace, find_hosted_cluster, release, remove_finalizer, delete_unless_hosted,
  handle_delete, trigger_webhook,
}

module _ {V : Type 0} (api : ClusterApi V) where
  -- the namespaces of the order, and then the hosted clusters in one of them
  abbrev pub listed_namespaces : ClusterOrder → Handler V (List Namespace)
  listed_namespaces co = api.list_namespaces (label_selector_from_instance co)

  -- What handleDelete did to the finalizers and which deletions it asked for.
  pub data OrderReleased (s t : ClusterScope V) : Type 0 where
    untouched :
        t.instance.finalizers ≡ s.instance.finalizers → t.calls ≡ s.calls → OrderReleased s t
    namespace_gone :
        (listed_namespaces s.instance s.world.cluster).0 ≡ done []
        → t.calls ≡ s.calls
        → OrderReleased s t
    namespace_deleted :
        (ns : Namespace)
        → (listed_namespaces s.instance s.world.cluster).0 ≡ done (ns ∷ [])
        → (api.list_hosted_clusters ns.name
            (label_selector_from_instance s.instance)
            (listed_namespaces s.instance s.world.cluster).1).0
          ≡ done []
        → t.instance.finalizers ≡ s.instance.finalizers
        → t.calls ≡ s.calls ++ called_delete_namespace ns ∷ []
        → OrderReleased s t

  abbrev pub marked : ClusterScope V → ClusterScope V
  marked s = record s { instance = set_phase ClusterOrderPhase.deleting s.instance }

  -- a listing and a deletion leave the rest of the scope alone
  release_namespace :
      (kube : Kube) (s : ClusterScope V) (ns : Namespace)
      → (listed_namespaces s.instance s.world.cluster).0 ≡ done (ns ∷ [])
      → OrderReleased s
          (release kube api (some ns) (consulted (listed_namespaces s.instance) (marked s))).1
  unfolding release find_hosted_cluster delete_unless_hosted label_selector_from_instance
  release_namespace kube s ns h =
      listing_rule (api.list_hosted_clusters ns.name (label_selector_from_instance s.instance))
        (λ items. plain (too_many ") matching hosted clusters" s.instance items))
        (delete_unless_hosted kube api ns) (λ p. OrderReleased s p.1)
        (consulted (listed_namespaces s.instance) (marked s))
        (λ nothing. namespace_deleted ns h nothing refl refl) (λ hc one. untouched refl refl)
        (λ x. untouched refl refl) (untouched refl refl)

  remove_finalizer-calls :
      (kube : Kube) (s : ClusterScope V) → (remove_finalizer kube api s).1.calls ≡ s.calls
  unfolding remove_finalizer
  remove_finalizer-calls kube s = ground arith

  OrderReleased-spectated :
      (s t u : ClusterScope V)
      → (u.instance ≡ t.instance) × (u.calls ≡ t.calls)
      → OrderReleased s t
      → OrderReleased s u
  OrderReleased-spectated s t u (e, f) (untouched g h) = untouched (rw e g) (f ∙ h)
  OrderReleased-spectated s t u (e, f) (namespace_gone g h) = namespace_gone g (f ∙ h)
  OrderReleased-spectated s t u (e, f) (namespace_deleted ns g h i j) =
      namespace_deleted ns g h (rw e i) (f ∙ j)

module _ {V : Type 0} (kube : Kube) (api : ClusterApi V) (r : ClusterOrderReconciler) where
  -- the webhook comes last, and leaves the scope alone
  then_triggered :
      (s t : ClusterScope V) (namespace : Option Namespace)
      → OrderReleased api s (release kube api namespace t).1
      → OrderReleased api s
          ((release kube api namespace >> trigger_webhook kube api r r.delete_cluster_webhook) t).1
  unfolding trigger_webhook
  then_triggered s t namespace h =
      then_rule (release kube api namespace)
        (λ _. trigger_webhook kube api r r.delete_cluster_webhook) (OrderReleased api s) t h
        (λ a u e. OrderReleased-spectated api s u _ (
          trigger_unless_manual-Spectates api.network r.webhook_client r.delete_cluster_webhook
            u.instance.annotations
            (record { name = u.instance.name; marshal = api.marshal u.instance }) u))

  -- handleDelete touches the finalizers of an order only when the cluster lists no namespace for it,
  -- and asks to delete a namespace only when it is the order's only one and the cluster lists no
  -- hosted cluster in it; then the finalizers stay. It asks for no other deletion.
  pub handle_delete-OrderReleased :
      (s : ClusterScope V) → OrderReleased api s (handle_delete kube api r s).1
  unfolding handle_delete find_namespace trigger_webhook label_selector_from_instance release
  handle_delete-OrderReleased s =
      listing_rule (listed_namespaces api s.instance)
        (λ items. plain (too_many ") matching namespaces" s.instance items))
        (λ namespace.
          release kube api namespace >> trigger_webhook kube api r r.delete_cluster_webhook)
        (λ p. OrderReleased api s p.1) (marked api s)
        (λ nothing.
          then_triggered s _ none (namespace_gone nothing (remove_finalizer-calls api kube _)))
        (λ ns one. then_triggered s _ (some ns) (release_namespace api kube s ns one))
        (λ x. untouched refl refl) (untouched refl refl)

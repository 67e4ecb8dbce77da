-- ===== src/ClusterOrder/Reference/Kept.antt =====
-- What handleUpdate (internal/controller/clusterorder_controller.go) does after the components keeps
-- the cluster reference.
use mathlib.Core.Path.{subst}
use cloudkit_operator.Prelude.{
  lift, ◌≡◌, refl, ap, sym, ◌∙◌, String, Option, none, some, ok, err, Result, done, Handler,
  attempt, ◌>>=◌, ◌>>◌, plain,
}
use cloudkit_operator.Api.Kube.{Kube}
use cloudkit_operator.Api.Condition.{condition_true}
use cloudkit_operator.Api.ClusterOrder.{ClusterOrderPhase, set_status_condition}
use cloudkit_operator.ComputeInstance.Run.{CtrlResult}
use cloudkit_operator.Controller.{Namespace, current, modify, asking, on_cluster}
use cloudkit_operator.Controller.Components.{Mutates, only_item}
use cloudkit_operator.Controller.Rules.{
  then_rule, bind_done, lift_state, trigger_unless_manual-Spectates,
}
use cloudkit_operator.ClusterOrder.Resources.{
  ClusterApi, ClusterScope, ClusterOrderReconciler, HostedCluster, label_selector_from_instance,
}
use cloudkit_operator.ClusterOrder.Observed.{
  set_phase, initialize_status_conditions, handle_hosted_cluster, observe_hosted_cluster,
  handle_node_pools, as_expected,
}
use cloudkit_operator.ClusterOrder.Release.{listed_namespaces}
use cloudkit_operator.ClusterOrder.Handlers.{
  too_many, find_namespace, find_hosted_cluster, handle_components, components, with_namespace,
  with_hosted_cluster, add_finalizer, handle_update, trigger_webhook,
}
use cloudkit_operator.ClusterOrder.Reference.{IsReferenced, components-IsReferenced}
use cloudkit_operator.ClusterOrder.Reference.Seen.{
  IsReferenced-reference, observe_hosted_cluster-IsReferenced, handle_node_pools-reference,
}

module _ {V : Type 0} (kube : Kube) (api : ClusterApi V) where
  abbrev Holds : ClusterScope V → Type 0
  Holds s = IsReferenced s.instance

  handle_hosted_cluster-IsReferenced :
      (hc : HostedCluster) (s : ClusterScope V)
      → Holds s
      → Holds (handle_hosted_cluster kube api hc s).1
  unfolding handle_hosted_cluster modify current asking
  handle_hosted_cluster-IsReferenced hc s h =
      let observed = record s { instance = observe_hosted_cluster kube hc s.instance } in
      then_rule
        (asking (
          on_cluster
            (api.list_node_pools hc.namespace (label_selector_from_instance observed.instance))))
        (λ pools. modify (handle_node_pools pools)) Holds observed
        (observe_hosted_cluster-IsReferenced kube hc s.instance h)
        (λ pools t e i.
          IsReferenced-reference t.instance (handle_node_pools pools t.instance)
            (handle_node_pools-reference pools t.instance) i)

  with_hosted_cluster-IsReferenced :
      (answer : Result (Option HostedCluster)) (s : ClusterScope V)
      → Holds s
      → Holds (with_hosted_cluster kube api answer s).1
  unfolding with_hosted_cluster
  with_hosted_cluster-IsReferenced (ok (some hc)) s h = handle_hosted_cluster-IsReferenced hc s h
  with_hosted_cluster-IsReferenced (ok none) s h = h
  with_hosted_cluster-IsReferenced (err e) s h = h

  find_hosted_cluster-instance :
      (namespace : String) (s : ClusterScope V)
      → (find_hosted_cluster api namespace s).1.instance ≡ s.instance
  unfolding find_hosted_cluster current
  find_hosted_cluster-instance namespace s =
      let selector = label_selector_from_instance s.instance in
      then_rule (asking (on_cluster (api.list_hosted_clusters namespace selector)))
        (λ items.
          lift (only_item (plain (too_many ") matching hosted clusters" s.instance items)) items))
        (λ t. t.instance ≡ s.instance) s refl
        (λ items t e h. ap (λ (u : ClusterScope V). u.instance) (lift_state _ t) ∙ h)

  with_namespace-IsReferenced :
      (namespace : Option Namespace) (s : ClusterScope V)
      → Holds s
      → Holds (with_namespace kube api namespace s).1
  unfolding with_namespace
  with_namespace-IsReferenced none s h = h
  with_namespace-IsReferenced (some namespace) s h =
      then_rule (attempt (find_hosted_cluster api namespace.name)) (with_hosted_cluster kube api)
        Holds s (rw (find_hosted_cluster-instance namespace.name s) h)
        (λ answer t e i. with_hosted_cluster-IsReferenced answer t i)

  find_namespace-instance : (s : ClusterScope V) → (find_namespace api s).1.instance ≡ s.instance
  unfolding find_namespace current asking
  find_namespace-instance s =
      then_rule (asking (on_cluster (listed_namespaces api s.instance)))
        (λ items.
          lift (only_item (plain (too_many ") matching namespaces" s.instance items)) items))
        (λ t. t.instance ≡ s.instance) s refl
        (λ items t e h. ap (λ (u : ClusterScope V). u.instance) (lift_state _ t) ∙ h)

module _ {V : Type 0} (kube : Kube) (api : ClusterApi V) (r : ClusterOrderReconciler) where
  -- handleUpdate after the components
  abbrev observing : Handler (ClusterScope V) CtrlResult
  observing = do
    modify (λ co. set_status_condition kube co "NamespaceCreated" condition_true "" as_expected)
    namespace ← find_namespace api
    with_namespace kube api namespace
    trigger_webhook kube api r r.create_cluster_webhook

  observing-IsReferenced : (s : ClusterScope V) → Holds kube api s → Holds kube api (observing s).1
  unfolding modify set_status_condition trigger_webhook current
  observing-IsReferenced s h =
      let trigger = trigger_webhook kube api r r.create_cluster_webhook in
      let created = record s {
        instance =
            set_status_condition kube s.instance "NamespaceCreated" condition_true "" as_expected;
      } in
      then_rule (find_namespace api) (λ namespace. with_namespace kube api namespace >> trigger)
        (Holds kube api) created
        (rw (find_namespace-instance kube api created)
          (IsReferenced-reference s.instance created.instance refl h))
        (λ namespace t e i.
          then_rule (with_namespace kube api namespace) (λ _. trigger) (Holds kube api) t
            (with_namespace-IsReferenced kube api namespace t i)
            (λ a u g j.
              rw
                ((trigger_unless_manual-Spectates api.network r.webhook_client
                  r.create_cluster_webhook u.instance.annotations
                  (record { name = u.instance.name; marshal = api.marshal u.instance }) u).0)
                j))

module _ {V : Type 0} (kube : Kube) (api : ClusterApi V) (r : ClusterOrderReconciler)
    (mutates : Mutates api.create_or_update) where
  -- A handleUpdate that returns no error leaves an order whose cluster reference names a namespace,
  -- the service account and the role binding, provided that a CreateOrUpdate without an error has
  -- run the mutate function.
  pub handle_update-IsReferenced :
      (s : ClusterScope V) (c : CtrlResult)
      → (handle_update kube api r s).0 ≡ done c
      → IsReferenced (handle_update kube api r s).1.instance
  unfolding handle_update modify trigger_webhook
  handle_update-IsReferenced s c h =
      let initial = record s {
        instance =
            set_phase ClusterOrderPhase.progressing (initialize_status_conditions kube s.instance);
      } in
      let later = observing kube api r in
      let (a, e, f) =
        bind_done (add_finalizer kube api) (λ _. handle_components api (components api) >> later)
          initial c h in
      let t = (add_finalizer kube api initial).1 in
      let (b, g, i) =
        bind_done (handle_components api (components api)) (λ _. later) t c
          (ap (λ p. p.0) (sym f) ∙ h) in
      subst (λ p. IsReferenced p.1.instance) (sym (f ∙ i))
        (observing-IsReferenced kube api r (handle_components api (components api) t).1
          (components-IsReferenced api mutates t g))

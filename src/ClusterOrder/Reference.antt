-- ===== src/ClusterOrder/Reference.antt =====
-- What a successful handleUpdate (internal/controller/clusterorder_controller.go) leaves in the
-- cluster reference of an order.
pub mod Seen
pub mod Kept
use mathlib.Core.Path.{subst}
use cloudkit_operator.Prelude.{
  ◌≡◌, ◌≢◌, refl, ap, sym, ◌∙◌, String, List, [], ◌∷◌, Option, none, some, ok, err, Result, Outcome,
  done, failed, panicked, Outcome-cases, Bool-cases, Option-cases, inl, inr, arith, Handler, lift,
  attempt, ◌==◌, ◌||◌, true, false, eq_iff, ◌>>=◌, ◌>>◌, plain,
}
use cloudkit_operator.Api.Kube.{Kube}
use cloudkit_operator.Api.Condition.{condition_true}
use cloudkit_operator.Api.ClusterOrder.{
  ClusterOrder, ClusterOrderPhase, ensure_cluster_reference, ensured,
  get_cluster_reference_namespace, set_status_condition, set_cluster_reference_service_account_name,
  set_cluster_reference_role_binding_name, set_cluster_reference_hosted_cluster_name,
}
use cloudkit_operator.ComputeInstance.Run.{CtrlResult}
use cloudkit_operator.Controller.{Namespace, Scope, Remote, Applied, raise_if, modify, current}
use cloudkit_operator.Controller.Components.{AppResource, Mutates, create_or_update, only_item}
use cloudkit_operator.Controller.Rules.{
  Spectates, then_rule, bind_done, guard_done, trigger_unless_manual-Spectates,
}
use cloudkit_operator.ClusterOrder.Resources.{
  ClusterApi, ClusterScope, ClusterOrderReconciler, HostedCluster, NodePool, new_namespace,
  new_service_account, new_admin_role_binding, default_service_account_name,
  default_role_binding_name, label_selector_from_instance,
}
use cloudkit_operator.ClusterOrder.Observed.{
  set_phase, initialize_status_conditions, handle_hosted_cluster, observe_hosted_cluster,
  mark_available, mark_ready, hosted_cluster_is_ready, hosted_cluster_control_plane_is_available,
  handle_node_pool, handle_node_pools, for_requests, written, write_last, as_expected,
}
use cloudkit_operator.ClusterOrder.Handlers.{
  find_namespace, find_hosted_cluster, handle_component, handle_components, components,
  with_namespace, with_hosted_cluster, add_finalizer, handle_update, trigger_webhook,
}

-- The reference names a namespace, the service account and the role binding.
pub record IsReferenced (co : ClusterOrder) : Type 0 where
  pub namespace : (ensure_cluster_reference co).namespace ≢ ""
  pub service_account : (ensure_cluster_reference co).service_account_name ≡ "cloudkit"
  pub role_binding : (ensure_cluster_reference co).role_binding_name ≡ "cloudkit"

module _ {V : Type 0} (api : ClusterApi V) (mutates : Mutates api.create_or_update) where
  resource_applied :
      (resource : AppResource ClusterOrder) (t : ClusterScope V)
      → let applying = create_or_update {V = V} api.create_or_update resource >>= λ applied.
          raise_if applied.error in
        (applying t).0 ≡ done tt → (applying t).1.instance ≡ resource.mutate_instance t.instance
  unfolding create_or_update raise_if
  resource_applied resource t h =
      elim (Outcome-cases
        (api.create_or_update resource.object resource.mutate t.world.cluster).0) [
          | inl (a, e) ↦ elim (Option-cases a.error) [
            | inl good ↦
                rw (e, mutates resource.object resource.mutate t.world.cluster a e good, good) refl
            | inr (x, bad) ↦ absurd (ground (arith))
          ]
          | inr (inl (x, e)) ↦ absurd (ground (arith))
          | inr (inr e) ↦ absurd (ground (arith))
        ]

  -- a component that was created or updated has changed the order as its mutateFn does
  component_applied :
      (fn : Handler (ClusterScope V) (AppResource ClusterOrder)) (s : ClusterScope V)
      → (handle_component api fn s).0 ≡ done tt
      → (resource : AppResource ClusterOrder) × ((fn s).0 ≡ done resource)
        × ((handle_component api fn s).1.instance ≡ resource.mutate_instance (fn s).1.instance)
  unfolding handle_component
  component_applied fn s h =
      let rest : AppResource ClusterOrder → Handler (ClusterScope V) (Unit {0}) = λ resource.
        create_or_update {V = V} api.create_or_update resource >>= λ applied.
        raise_if applied.error in
      let (resource, e, f) = bind_done fn rest s tt h in
      (
        resource,
        e,
        ap (λ p. p.1.instance) f ∙ resource_applied resource (fn s).1 (ap (λ p. p.0) (sym f) ∙ h),
      )

  service_account_done :
      (s : ClusterScope V) (resource : AppResource ClusterOrder)
      → (new_service_account api s).0 ≡ done resource
      → ((new_service_account api s).1.instance ≡ s.instance)
        × (((ensure_cluster_reference s.instance).namespace == "") ≡ false)
        × (resource.mutate_instance
            ≡ set_cluster_reference_service_account_name default_service_account_name)
  unfolding new_service_account get_cluster_reference_namespace current
  service_account_done s resource h =
      let (named, same, kept) = guard_done _ _ _ resource s h in
      (ap (λ (t : ClusterScope V). t.instance) kept, named, ap (λ r. r.mutate_instance) (sym same))

  role_binding_done :
      (s : ClusterScope V) (resource : AppResource ClusterOrder)
      → (new_admin_role_binding api s).0 ≡ done resource
      → ((new_admin_role_binding api s).1.instance ≡ s.instance)
        × (resource.mutate_instance
            ≡ set_cluster_reference_role_binding_name default_role_binding_name)
  unfolding new_admin_role_binding current
  role_binding_done s resource h =
      let (named, same, kept) = guard_done _ _ _ resource s h in
      (ap (λ (t : ClusterScope V). t.instance) kept, ap (λ r. r.mutate_instance) (sym same))

  both-IsReferenced :
      (co : ClusterOrder)
      → ((ensure_cluster_reference co).namespace == "") ≡ false
      → IsReferenced (
          set_cluster_reference_role_binding_name default_role_binding_name
            (set_cluster_reference_service_account_name default_service_account_name co))
  unfolding set_cluster_reference_role_binding_name set_cluster_reference_service_account_name
      ensure_cluster_reference ensured
  both-IsReferenced co named = record {
    namespace = λ e. ground (arith, eq_iff (ensure_cluster_reference co).namespace "");
    service_account = refl;
    role_binding = refl;
  }

  service_account_applied :
      (s : ClusterScope V)
      → (handle_component api (new_service_account api) s).0 ≡ done tt
      → (((ensure_cluster_reference s.instance).namespace == "") ≡ false)
        × ((handle_component api (new_service_account api) s).1.instance
            ≡ set_cluster_reference_service_account_name default_service_account_name s.instance)
  service_account_applied s h =
      let (resource, made, changed) = component_applied (new_service_account api) s h in
      let (kept, named, mutation) = service_account_done s resource made in
      (
        named,
        changed
            ∙ ap resource.mutate_instance kept
            ∙ ap (λ (f : ClusterOrder → ClusterOrder). f s.instance) mutation,
      )

  role_binding_applied :
      (s : ClusterScope V)
      → (handle_component api (new_admin_role_binding api) s).0 ≡ done tt
      → (handle_component api (new_admin_role_binding api) s).1.instance
        ≡ set_cluster_reference_role_binding_name default_role_binding_name s.instance
  role_binding_applied s h =
      let (resource, made, changed) = component_applied (new_admin_role_binding api) s h in
      let (kept, mutation) = role_binding_done s resource made in
      changed
      ∙ ap resource.mutate_instance kept
      ∙ ap (λ (f : ClusterOrder → ClusterOrder). f s.instance) mutation

  components-IsReferenced :
      (s : ClusterScope V)
      → (handle_components api (components api) s).0 ≡ done tt
      → IsReferenced (handle_components api (components api) s).1.instance
  unfolding handle_components components
  components-IsReferenced s h =
      let account = new_service_account api in
      let binding = new_admin_role_binding api in
      let t = (handle_component api (new_namespace api) s).1 in
      let u = (handle_component api account t).1 in
      let (a, e, f) =
        bind_done (handle_component api (new_namespace api))
          (λ _. handle_components api (account ∷ binding ∷ [])) s tt h in
      let h_t = ap (λ p. p.0) (sym f) ∙ h in
      let (b, g, i) =
        bind_done (handle_component api account) (λ _. handle_components api (binding ∷ [])) t tt
          h_t in
      let h_u = ap (λ p. p.0) (sym i) ∙ h_t in
      let (c, j, k) =
        bind_done (handle_component api binding) (λ _. handle_components api []) u tt h_u in
      let (named, with_account) = service_account_applied t g in
      let with_binding = role_binding_applied u j in
      subst IsReferenced
        (sym (
          ap (λ p. p.1.instance) (f ∙ i ∙ k)
          ∙ with_binding
          ∙ ap (set_cluster_reference_role_binding_name default_role_binding_name) with_account))
        (both-IsReferenced t.instance named)

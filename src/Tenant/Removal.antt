-- ===== src/Tenant/Removal.antt =====
-- When handleDelete (internal/controller/tenant_controller.go) takes the finalizer off a tenant.
use cloudkit_operator.Prelude.{
  ap, eq_iff, ◌≢◌, some, ◌≡◌, refl, ◌==◌, true, false, Outcome-cases, Bool-cases, done, arith, inl,
  inr, ◌⊎◌,
}
use cloudkit_operator.Controller.{Namespace}
use cloudkit_operator.Controller.Lookups.{IsNotFound, asked, found_rule, guarded_absence}
use cloudkit_operator.Api.Kube.{Kube}
use cloudkit_operator.Api.Tenant.{Tenant, TenantPhase}
use cloudkit_operator.Tenant.Resources.{
  TenantApi, TenantScope, UserDefinedNetwork, delete_found_udn, delete_found_namespace,
  delete_tenant_udn, delete_tenant_namespace,
}
use cloudkit_operator.Tenant.Handlers.{tenant_finalizer, handle_delete, set_phase}

module _ {W : Type 0} (api : TenantApi W) where
  -- Nothing of the tenant is left: it never had a namespace, or neither its network nor then its
  -- namespace is found.
  pub data IsGone (t : Tenant) (w : W) : Type 0 where
    unnamed : t.status.namespace ≡ "" → IsGone t w
    absent :
        IsNotFound (api.get_udn "udn" t.status.namespace w).0
        → IsNotFound
            (api.get_namespace t.status.namespace (api.get_udn "udn" t.status.namespace w).1).0
        → IsGone t w

  delete_found_udn-true :
      (u : UserDefinedNetwork) (s : TenantScope W)
      → (delete_found_udn api (some u) s).0 ≢ done false
  unfolding delete_found_udn
  delete_found_udn-true u s h = ground arith

  delete_found_namespace-true :
      (n : Namespace) (s : TenantScope W) → (delete_found_namespace api (some n) s).0 ≢ done false
  unfolding delete_found_namespace
  delete_found_namespace-true n s h = ground arith

  delete_found_udn-keeps :
      (u : UserDefinedNetwork) (s : TenantScope W)
      → (delete_found_udn api (some u) s).1.instance ≡ s.instance
  unfolding delete_found_udn
  delete_found_udn-keeps u s = ground arith

  delete_found_namespace-keeps :
      (n : Namespace) (s : TenantScope W)
      → (delete_found_namespace api (some n) s).1.instance ≡ s.instance
  unfolding delete_found_namespace
  delete_found_namespace-keeps n s = ground arith

  delete_tenant_udn-keeps : (s : TenantScope W) → (delete_tenant_udn api s).1.instance ≡ s.instance
  unfolding delete_tenant_udn delete_found_udn
  delete_tenant_udn-keeps s = elim (Bool-cases (s.instance.status.namespace == "")) [
    | inl no_name ↦ rw no_name refl
    | inr named ↦ rw named (
        found_rule (api.get_udn "udn" s.instance.status.namespace) (delete_found_udn api)
          (λ p. p.1.instance ≡ s.instance) s (λ missing. refl)
          (λ u there. delete_found_udn-keeps u _) (λ e. refl) refl)
  ]

  delete_tenant_namespace-keeps :
      (s : TenantScope W) → (delete_tenant_namespace api s).1.instance ≡ s.instance
  unfolding delete_tenant_namespace delete_found_namespace
  delete_tenant_namespace-keeps s = elim (Bool-cases (s.instance.status.namespace == "")) [
    | inl no_name ↦ rw no_name refl
    | inr named ↦ rw named (
        found_rule (api.get_namespace s.instance.status.namespace) (delete_found_namespace api)
          (λ p. p.1.instance ≡ s.instance) s (λ missing. refl)
          (λ n there. delete_found_namespace-keeps n _) (λ e. refl) refl)
  ]

  pub udn-absence :
      (s : TenantScope W)
      → (delete_tenant_udn api s).0 ≡ done false
      → (((s.instance.status.namespace == "") ≡ true) × (delete_tenant_udn api s ≡ (done false, s)))
        ⊎ IsNotFound (api.get_udn "udn" s.instance.status.namespace s.world).0
          × (delete_tenant_udn api s
              ≡ (done false, asked (api.get_udn "udn" s.instance.status.namespace) s))
  unfolding delete_tenant_udn delete_found_udn
  udn-absence s h =
      guarded_absence (s.instance.status.namespace == "")
        (api.get_udn "udn" s.instance.status.namespace) (delete_found_udn api) s (λ t. refl)
        delete_found_udn-true h

  pub namespace-absence :
      (s : TenantScope W)
      → (delete_tenant_namespace api s).0 ≡ done false
      → (((s.instance.status.namespace == "") ≡ true)
          × (delete_tenant_namespace api s ≡ (done false, s)))
        ⊎ IsNotFound (api.get_namespace s.instance.status.namespace s.world).0
          × (delete_tenant_namespace api s
              ≡ (done false, asked (api.get_namespace s.instance.status.namespace) s))
  unfolding delete_tenant_namespace delete_found_namespace
  namespace-absence s h =
      guarded_absence (s.instance.status.namespace == "")
        (api.get_namespace s.instance.status.namespace) (delete_found_namespace api) s (λ t. refl)
        delete_found_namespace-true h

module _ {W : Type 0} (kube : Kube) (api : TenantApi W) where
  -- handleDelete leaves the finalizers as they are while anything of the tenant is left.
  pub handle_delete-IsGone :
      (s : TenantScope W)
      → ((handle_delete kube api s).1.instance.finalizers ≡ s.instance.finalizers)
        ⊎ IsGone api s.instance s.world
  unfolding handle_delete
  handle_delete-IsGone s =
      let marked = record s { instance = set_phase TenantPhase.deleting s.instance } in
      elim (Bool-cases (kube.contains_finalizer s.instance.finalizers tenant_finalizer)) [
        | inr free ↦ inl (rw free refl)
        | inl present ↦ elim (Outcome-cases (delete_tenant_udn api marked).0) [
          | inl (true, e) ↦ inl (
              rw (present, e)
                (ap (λ (t : Tenant). t.finalizers) (delete_tenant_udn-keeps api marked)))
          | inl (false, e) ↦ elim (udn-absence api marked e) [
            | inl (no_name, f) ↦ inr (unnamed ((eq_iff _ _).0 no_name))
            | inr (no_udn, f) ↦
                let free = asked (api.get_udn "udn" s.instance.status.namespace) marked in
                elim (Outcome-cases (delete_tenant_namespace api free).0) [
                  | inl (true, g) ↦ inl (
                      rw (present, f, g)
                        (ap (λ (t : Tenant). t.finalizers)
                          (delete_tenant_namespace-keeps api free)))
                  | inl (false, g) ↦ elim (namespace-absence api free g) [
                    | inl (no_name, i) ↦ inr (unnamed ((eq_iff _ _).0 no_name))
                    | inr (no_namespace, i) ↦ inr (absent no_udn no_namespace)
                  ]
                  | inr (inl (x, g)) ↦ inl (
                      rw (present, f, g)
                        (ap (λ (t : Tenant). t.finalizers)
                          (delete_tenant_namespace-keeps api free)))
                  | inr (inr g) ↦ inl (
                      rw (present, f, g)
                        (ap (λ (t : Tenant). t.finalizers)
                          (delete_tenant_namespace-keeps api free)))
                ]
          ]
          | inr (inl (x, e)) ↦ inl (
              rw (present, e)
                (ap (λ (t : Tenant). t.finalizers) (delete_tenant_udn-keeps api marked)))
          | inr (inr e) ↦ inl (
              rw (present, e)
                (ap (λ (t : Tenant). t.finalizers) (delete_tenant_udn-keeps api marked)))
        ]
      ]

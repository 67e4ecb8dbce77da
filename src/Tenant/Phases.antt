-- ===== src/Tenant/Phases.antt =====
-- The phase in which handleUpdate (internal/controller/tenant_controller.go) leaves a tenant.
use cloudkit_operator.Prelude.{
  ap, ◌∙◌, ◌≡◌, refl, true, GoError, Outcome-cases, done, failed, arith, inl, inr,
}
use cloudkit_operator.Api.Kube.{Kube}
use cloudkit_operator.Api.Tenant.{Tenant, TenantPhase}
use cloudkit_operator.TenantNames.{generate_tenant_namespace_name}
use cloudkit_operator.ComputeInstance.Run.{CtrlResult}
use cloudkit_operator.Tenant.Resources.{
  TenantApi, TenantScope, create_or_update_tenant_namespace, create_or_update_tenant_udn,
}
use cloudkit_operator.Tenant.Handlers.{tenant_finalizer, set_phase, or_failed, handle_update}

module _ {W : Type 0} (api : TenantApi W) where
  -- the name is stored whatever the client answers, unless it panics
  namespace-stores :
      (s : TenantScope W)
      → (create_or_update_tenant_namespace api s).0 ≡ done tt
      → (create_or_update_tenant_namespace api s).1.instance.status.namespace
        ≡ generate_tenant_namespace_name s.instance
  unfolding create_or_update_tenant_namespace
  namespace-stores s ok = ground (arith)

  udn-keeps : (s : TenantScope W) → (create_or_update_tenant_udn api s).1.instance ≡ s.instance
  unfolding create_or_update_tenant_udn
  udn-keeps s = ground arith

module _ {W : Type 0} (kube : Kube) (api : TenantApi W) where
  -- Once the tenant has its finalizer, handleUpdate that returns no error leaves the tenant ready
  -- and with the name of its namespace, and one that returns an error leaves it failed.
  pub handle_update-phase :
      (s : TenantScope W)
      → kube.contains_finalizer s.instance.finalizers tenant_finalizer ≡ true
      → let s' = handle_update kube api s in
        ((c : CtrlResult)
          → s'.0 ≡ done c
          → (s'.1.instance.status.phase ≡ TenantPhase.ready)
            × (s'.1.instance.status.namespace ≡ generate_tenant_namespace_name s.instance))
        × ((e : GoError) → s'.0 ≡ failed e → s'.1.instance.status.phase ≡ TenantPhase.failed)
  unfolding handle_update or_failed generate_tenant_namespace_name
  handle_update-phase s present =
      let marked = record s { instance = set_phase TenantPhase.progressing s.instance } in
      let named = (create_or_update_tenant_namespace api marked).1 in
      elim (Outcome-cases (create_or_update_tenant_namespace api marked).0) [
        | inl (t, e) ↦ elim (Outcome-cases (create_or_update_tenant_udn api named).0) [
          | inl (u, f) ↦
              rw (present, e, f)
                (
                  λ c h. (
                    refl,
                    ap (λ (i : Tenant). i.status.namespace) (udn-keeps api named)
                        ∙ namespace-stores api marked e,
                  ),
                  λ x h. absurd (cc),
                )
          | inr (inl (x, f)) ↦ rw (present, e, f) (λ c h. absurd (cc), λ y h. refl)
          | inr (inr f) ↦ rw (present, e, f) (λ c h. absurd (cc), λ y h. absurd (cc))
        ]
        | inr (inl (x, e)) ↦ rw (present, e) (λ c h. absurd (cc), λ y h. refl)
        | inr (inr e) ↦ rw (present, e) (λ c h. absurd (cc), λ y h. absurd (cc))
      ]

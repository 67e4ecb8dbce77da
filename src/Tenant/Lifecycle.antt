-- ===== src/Tenant/Lifecycle.antt =====
-- The deletion of a tenant (handleDelete of internal/controller/tenant_controller.go) among the steps
-- of others: a run is any sequence of reconciles, of changes of the cluster, and of edits of the
-- object that leave the controller's finalizer alone.
use cloudkit_operator.Prelude.{◌≡◌, Bool}
use cloudkit_operator.Api.Kube.{Kube}
use cloudkit_operator.Api.Tenant.{Tenant}
use cloudkit_operator.Tenant.Resources.{TenantApi, TenantScope}
use cloudkit_operator.Tenant.Handlers.{tenant_finalizer, handle_delete}
use cloudkit_operator.Tenant.Removal.{IsGone}

module _ {W : Type 0} (kube : Kube) (api : TenantApi W) where
  abbrev pub holds_finalizer : Tenant → Bool
  holds_finalizer t = kube.contains_finalizer t.finalizers tenant_finalizer

  pub data Reaches (s : TenantScope W) : TenantScope W → Type 0 where
    starts : Reaches s s
    reconciles : (t : TenantScope W) → Reaches s t → Reaches s (handle_delete kube api t).1
    changes : (t : TenantScope W) (w : W) → Reaches s t → Reaches s (record t { world = w })
    edits :
        (t : TenantScope W) (i : Tenant)
        → holds_finalizer i ≡ holds_finalizer t.instance
        → Reaches s t
        → Reaches s (record t { instance = i })

  -- a state of the run, before `t`, in which nothing of the tenant was left
  pub record WasGone (s t : TenantScope W) : Type 0 where
    pub at : TenantScope W
    pub before : Reaches s at
    pub gone : IsGone api at.instance at.world
    pub after : Reaches at t

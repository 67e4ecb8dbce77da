-- ===== src/ComputeInstance/Tenants.antt =====
-- internal/controller/computeinstance_resources.go: the tenant that an instance belongs to.
use cloudkit_operator.Prelude.{
  String, Option, none, some, [], ◌∷◌, lookup, ◌==◌, ◌||◌, if◌then◌else◌, is_present, Result, ok,
  err, plain, as_api_not_found, Handler, pure, raise, lift, attempt, ◌>>=◌, ◌>>◌,
}
use cloudkit_operator.Api.ComputeInstance.{
  ComputeInstance, get_tenant_reference_name, get_tenant_reference_namespace,
  set_tenant_reference_name, set_tenant_reference_namespace,
}
use cloudkit_operator.Api.Tenant.{Tenant, TenantPhase}
use cloudkit_operator.TenantNames.{get_tenant_object_name}
use cloudkit_operator.ComputeInstance.Run.{
  Cluster, Run, current, modify, log_call, called_create_tenant, tenant_annotation,
}

-- return nil, client.IgnoreNotFound(err)
unfoldable pub found_tenant : {S : Type 0} → Result Tenant → Handler (Run S) (Option Tenant)
unfolding pure raise as_api_not_found is_present
found_tenant (ok tenant) = pure (some tenant)
found_tenant (err e) = if is_present (as_api_not_found e) then pure none else raise e

abbrev pub new_tenant : ComputeInstance → String → Tenant
new_tenant ci tenant_name = record {
  name = get_tenant_object_name tenant_name;
  namespace = ci.namespace;
  labels = ("app.kubernetes.io/name", "osac-operator") ∷ [];
  finalizers = [];
  deletion_timestamp = none;
  spec_name = tenant_name;
  status = record { phase = TenantPhase.unset; namespace = "" };
}

abbrev pub refer_to : Tenant → ComputeInstance → ComputeInstance
refer_to tenant ci =
    set_tenant_reference_namespace (set_tenant_reference_name ci tenant.name) tenant.namespace

module _ {S : Type 0} (cluster : Cluster) where
  unfoldable pub get_tenant : Handler (Run S) (Option Tenant)
  unfolding current pure lift found_tenant get_tenant_reference_name get_tenant_reference_namespace
  get_tenant = do
    ci ← current
    if get_tenant_reference_name ci == "" || get_tenant_reference_namespace ci == ""
        then pure none
        else do
          answer ← attempt (
              lift (
                cluster.get_tenant (get_tenant_reference_namespace ci)
                  (get_tenant_reference_name ci)))
          found_tenant answer

  unfoldable pub create_named : String → Handler (Run S) (Unit {0})
  unfolding current modify log_call lift raise set_tenant_reference_name
      set_tenant_reference_namespace
  create_named tenant_name = if tenant_name == "" then raise (plain "tenant name not found") else do
    ci ← current
    log_call (called_create_tenant (new_tenant ci tenant_name))
    lift (cluster.create_or_update_tenant ci (new_tenant ci tenant_name))
    modify (refer_to (new_tenant ci tenant_name))

  unfoldable pub create_annotated : Option String → Handler (Run S) (Unit {0})
  unfolding create_named raise
  create_annotated none = raise (plain "tenant name not found")
  create_annotated (some tenant_name) = create_named tenant_name

  unfoldable pub create_or_update_tenant : Handler (Run S) (Unit {0})
  unfolding create_annotated current lookup
  create_or_update_tenant = do
    ci ← current
    create_annotated (lookup tenant_annotation ci.annotations)

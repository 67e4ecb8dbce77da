-- ===== src/Tenant/Resources.antt =====
-- internal/controller/tenant_resources.go: the namespace of a tenant and its user defined network.
use cloudkit_operator.Prelude.{
  String, Bool, true, false, Option, none, some, List, [], ◌∷◌, ◌==◌, if◌then◌else◌, plain,
  join_text, Handler, pure, raise, attempt, Dictionary, ◌>>=◌, ◌>>◌,
}
use cloudkit_operator.Api.Tenant.{Tenant, TenantStatus}
use cloudkit_operator.TenantNames.{generate_tenant_namespace_name}
use cloudkit_operator.Controller.{
  Scope, Applied, Namespace, current, modify, asking, found, raise_if,
}

-- The specification of the network is a constant: layer 2, primary, persistent IPAM, one subnet.
pub record UserDefinedNetwork : Type 0 where
  pub name : String
  pub namespace : String
  pub labels : Dictionary
  pub subnets : List String

-- The client, on a cluster's state `W`, and the two functions that are used of samber/lo on maps.
pub record TenantApi (W : Type 0) : Type 0 where
  pub get : String → String → Handler W Tenant
  pub update : Tenant → Handler W Tenant
  pub update_status : Tenant → Handler W (Unit {0})
  pub create_or_update_namespace : Namespace → (Namespace → Namespace) → Handler W Applied
  pub create_or_update_udn :
      UserDefinedNetwork → (UserDefinedNetwork → UserDefinedNetwork) → Handler W Applied
  pub get_udn : String → String → Handler W UserDefinedNetwork
  pub delete_udn : UserDefinedNetwork → Handler W (Unit {0})
  pub get_namespace : String → Handler W Namespace
  pub delete_namespace : Namespace → Handler W (Unit {0})
  pub assign : Dictionary → Dictionary → Dictionary
  pub elements_match : Dictionary → Dictionary → Bool
  pub deep_equal : TenantStatus → TenantStatus → Bool

abbrev pub TenantScope : Type 0 → Type 0
TenantScope W = Scope Tenant W (Unit {0})

unfoldable pub common_labels_from_tenant : Tenant → Dictionary
common_labels_from_tenant t =
    ("app.kubernetes.io/name", "osac-operator")
    ∷ ("cloudkit.openshift.io/tenant-ref", t.name)
    ∷ ("cloudkit.openshift.io/project", t.namespace)
    ∷ []

abbrev pub udn_namespace_label : Dictionary
udn_namespace_label = ("k8s.ovn.org/primary-user-defined-network", "") ∷ []

abbrev pub set_namespace : String → Tenant → Tenant
set_namespace name t = record t { status = record t.status { namespace = name } }

module _ {W : Type 0} (api : TenantApi W) where
  -- ensureCommonLabelsForTenant, on the labels of the object
  unfoldable pub ensure_common_labels_for_tenant : Tenant → Dictionary → Dictionary
  unfolding common_labels_from_tenant
  ensure_common_labels_for_tenant t labels =
      let merged = api.assign labels (common_labels_from_tenant t) in
      if api.elements_match labels merged then labels else merged

  -- The name of the namespace is stored before the error is looked at.
  unfoldable pub create_or_update_tenant_namespace : Handler (TenantScope W) (Unit {0})
  unfolding current modify asking raise_if ensure_common_labels_for_tenant common_labels_from_tenant
  create_or_update_tenant_namespace = do
    t ← current
    let namespace : Namespace = record {
      name = generate_tenant_namespace_name t;
      labels = api.assign (common_labels_from_tenant t) udn_namespace_label;
      is_terminating = false;
    }
    applied ← asking (
        api.create_or_update_namespace namespace
          (λ n. record n { labels = ensure_common_labels_for_tenant t n.labels }))
    modify (set_namespace namespace.name)
    raise_if applied.error

  unfoldable pub create_or_update_tenant_udn : Handler (TenantScope W) (Unit {0})
  unfolding current asking raise_if ensure_common_labels_for_tenant common_labels_from_tenant raise
  create_or_update_tenant_udn = do
    t ← current
    if t.status.namespace == ""
        then raise (plain (join_text "namespace not yet created for tenant " t.name))
        else do
          applied ← asking (
              api.create_or_update_udn
                (record {
                  name = "udn";
                  namespace = t.status.namespace;
                  labels = common_labels_from_tenant t;
                  subnets = "10.200.0.0/16" ∷ [];
                })
                (λ u. record u { labels = ensure_common_labels_for_tenant t u.labels }))
          raise_if applied.error

  -- what is done with the network that was found, if any
  unfoldable pub delete_found_udn : Option UserDefinedNetwork → Handler (TenantScope W) Bool
  unfolding pure asking
  delete_found_udn none = pure false
  delete_found_udn (some udn) = do asking (api.delete_udn udn); pure true

  -- The result tells whether there still is a network.
  unfoldable pub delete_tenant_udn : Handler (TenantScope W) Bool
  unfolding current pure asking found delete_found_udn
  delete_tenant_udn = do
    t ← current
    if t.status.namespace == "" then pure false else do
      answer ← attempt (asking (api.get_udn "udn" t.status.namespace))
      udn ← found answer
      delete_found_udn udn

  unfoldable pub delete_found_namespace : Option Namespace → Handler (TenantScope W) Bool
  unfolding pure asking
  delete_found_namespace none = pure false
  delete_found_namespace (some namespace) = do
    if namespace.is_terminating then pure tt else asking (api.delete_namespace namespace)
    pure true

  unfoldable pub delete_tenant_namespace : Handler (TenantScope W) Bool
  unfolding current pure asking found delete_found_namespace
  delete_tenant_namespace = do
    t ← current
    if t.status.namespace == "" then pure false else do
      answer ← attempt (asking (api.get_namespace t.status.namespace))
      namespace ← found answer
      delete_found_namespace namespace

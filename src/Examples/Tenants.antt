-- ===== src/Examples/Tenants.antt =====
-- A tenant in a cluster that knows whether its network and its namespace are there.
use cloudkit_operator.Prelude.{
  ℕ, ◌+◌, ◌≡◌, ◌⊎◌, refl, inl, inr, arith, Bool, true, false, none, some, [], ◌∷◌, done, failed,
  api_not_found, GoError, Handler, as_api_not_found, is_present,
}
use cloudkit_operator.Api.Tenant.{Tenant, TenantPhase}
use cloudkit_operator.TenantNames.{generate_tenant_namespace_name}
use cloudkit_operator.ComputeInstance.Run.{CtrlResult}
use cloudkit_operator.Controller.{Applied, Namespace}
use cloudkit_operator.Tenant.Resources.{TenantApi, TenantScope, UserDefinedNetwork}
use cloudkit_operator.Tenant.Handlers.{tenant_finalizer, handle_update, handle_delete}
use cloudkit_operator.Tenant.Phases.{handle_update-phase}
use cloudkit_operator.Tenant.Rounds.{
  Settles, IsAbsent, IsDeleting, IsEnding, has_finalizer, rounds, rounds-ends,
}
use cloudkit_operator.Examples.Kubernetes.{kube}

abbrev World : Type 0
World = Bool × Bool

abbrev tenant : Tenant
tenant = record {
  name = "acme";
  namespace = "tenants";
  labels = [];
  finalizers = tenant_finalizer ∷ [];
  deletion_timestamp = some 5;
  spec_name = "acme";
  status = record { phase = TenantPhase.ready; namespace = "tenants-acme" };
}

abbrev namespace : Namespace
namespace = record { name = "tenants-acme"; labels = []; is_terminating = false }

abbrev network : UserDefinedNetwork
network = record { name = "udn"; namespace = "tenants-acme"; labels = []; subnets = [] }

abbrev applied : Applied
applied = record { mutated = true; error = none }

abbrev get_udn : Handler World UserDefinedNetwork
get_udn (true, n) = (done network, (true, n))
get_udn (false, n) = (failed (api_not_found "udn"), (false, n))

abbrev delete_udn : Handler World (Unit {0})
delete_udn (u, n) = (done tt, (false, n))

abbrev get_namespace : Handler World Namespace
get_namespace (u, true) = (done namespace, (u, true))
get_namespace (u, false) = (failed (api_not_found "namespace"), (u, false))

abbrev delete_namespace : Handler World (Unit {0})
delete_namespace (u, n) = (done tt, (u, false))

abbrev api : TenantApi World
api = record {
  get = λ ns name w. (done tenant, w);
  update = λ t w. (done t, w);
  update_status = λ t w. (done tt, w);
  create_or_update_namespace = λ n f w. (done applied, (w.0, true));
  create_or_update_udn = λ u f w. (done applied, (true, w.1));
  get_udn = λ name ns. get_udn;
  delete_udn = λ u. delete_udn;
  get_namespace = λ name. get_namespace;
  delete_namespace = λ n. delete_namespace;
  assign = λ a b. b;
  elements_match = λ a b. false;
  deep_equal = λ a b. false;
}

abbrev scope : World → TenantScope World
scope w = record { instance = tenant; world = w; calls = [] }

abbrev bit : Bool → ℕ
bit true = 1
bit false = 0

abbrev rank : World → ℕ
rank (u, n) = bit u + bit n

abbrev tick : World → World
tick w = w

udn_settles :
    (w : World)
    → IsAbsent api tick rank get_udn w
      ⊎ ((u : UserDefinedNetwork) × IsDeleting api tick rank get_udn delete_udn u w)
unfolding as_api_not_found is_present
udn_settles (true, n) = inr (network, (refl, refl, omega arith))
udn_settles (false, n) = inl (api_not_found "udn", refl, refl)

namespace_settles :
    (w : World)
    → IsAbsent api tick rank get_namespace w
      ⊎ ((n : Namespace) × (n.is_terminating ≡ true) × IsEnding api tick rank get_namespace n w)
      ⊎ ((n : Namespace) × (n.is_terminating ≡ false)
          × IsDeleting api tick rank get_namespace delete_namespace n w)
unfolding as_api_not_found is_present
namespace_settles (u, true) = inr (inr (namespace, refl, (refl, refl, omega arith)))
namespace_settles (u, false) = inl (api_not_found "namespace", refl, refl)

api-Settles : Settles api tick rank
api-Settles = record {
  udn = λ ns. udn_settles;
  namespace = λ ns. namespace_settles;
  echoes = λ t w. refl;
}

handle_update-phase_example :
    let s' = handle_update kube api (scope (false, false)) in
    ((c : CtrlResult)
      → s'.0 ≡ done c
      → (s'.1.instance.status.phase ≡ TenantPhase.ready)
        × (s'.1.instance.status.namespace ≡ generate_tenant_namespace_name tenant))
    × ((e : GoError) → s'.0 ≡ failed e → s'.1.instance.status.phase ≡ TenantPhase.failed)
handle_update-phase_example = handle_update-phase kube api (scope (false, false)) refl

abbrev deleted : TenantScope World → TenantScope World
deleted s = (handle_delete kube api s).1

rounds-ends_example :
    has_finalizer kube api tick rank api-Settles
      (rounds kube api tick rank api-Settles 3 (scope (true, true)))
    ≡ false
rounds-ends_example =
    rounds-ends kube api tick rank api-Settles 3 (scope (true, true)) (omega arith)

-- ===== src/Examples/HostPools.antt =====
-- Pools in a cluster with one namespace.
use cloudkit_operator.Prelude.{
  arith, ◌≡◌, refl, true, false, none, some, [], ◌∷◌, ok, done, failed, GoError,
}
use cloudkit_operator.Api.Condition.{condition_true}
use cloudkit_operator.Api.HostPool.{
  HostPool, HostPoolPhase, set_condition, get_host_pool_condition, remove_condition,
}
use cloudkit_operator.Api.HostPool.Conditions.{remove-set_condition}
use cloudkit_operator.Api.HostPool.View.{view, updated, view-set_condition}
use cloudkit_operator.ComputeInstance.Run.{CtrlResult, requeue_in}
use cloudkit_operator.Controller.{Applied, Namespace, has_entry}
use cloudkit_operator.HostPool.Resources.{HostPoolApi, HostPoolScope, HostPoolReconciler}
use cloudkit_operator.HostPool.Steps.{host_pool_finalizer}
use cloudkit_operator.HostPool.Handlers.{handle_update, handle_delete}
use cloudkit_operator.HostPool.Phases.{handle_update-settles}
use cloudkit_operator.HostPool.Release.{PoolReleased, handle_delete-PoolReleased}
use cloudkit_operator.HostPool.HeldBack.{IsRecent, handle_delete-held_back}
use cloudkit_operator.Examples.Kubernetes.{kube}
use cloudkit_operator.Examples.Samples.{net, webhook_client, no_requests}

abbrev pool : HostPool
pool = record {
  name = "pool";
  namespace = "pools";
  labels = [];
  annotations = [];
  finalizers = host_pool_finalizer ∷ [];
  deletion_timestamp = none;
  spec = record { host_sets = record { host_class = "gpu"; size = 2 } ∷ [] };
  status = record {
    phase = HostPoolPhase.unset;
    conditions = [];
    host_pool_reference = none;
    host_sets = [];
  };
}

abbrev namespace : Namespace
namespace = record { name = "pools-pool"; labels = []; is_terminating = false }

abbrev applied : Applied
applied = record { mutated = true; error = none }

abbrev api : HostPoolApi (Unit {0})
api = record {
  get = λ ns name w. (done pool, w);
  update = λ hp w. (done hp, w);
  update_status = λ hp w. (done tt, w);
  create_or_update = λ o f w. (done applied, w);
  list_namespaces = λ labels w. (done (namespace ∷ []), w);
  delete_namespace = λ n w. (done tt, w);
  marshal = λ hp. ok "";
  deep_equal = λ a b. false;
  network = net;
  now = 100;
  duration_text = λ d. "";
}

abbrev reconciler : HostPoolReconciler
reconciler = record {
  create_host_pool_webhook = "create";
  delete_host_pool_webhook = "delete";
  host_pool_namespace = "pools";
  webhook_client = webhook_client;
}

abbrev scope : HostPoolScope (Unit {0})
scope = record {
  instance = pool;
  world = record { cluster = tt; webhooks = no_requests };
  calls = [];
}

view-set_condition_example :
    view (set_condition 7 pool "Available" condition_true "Ready" "it is")
    ≡ updated "Available" (some (condition_true, "Ready", "it is")) (view pool)
view-set_condition_example = view-set_condition 7 pool "Available" condition_true "Ready" "it is"

remove-set_condition_example :
    remove_condition (set_condition 7 pool "Available" condition_true "Ready" "it is") "Available"
    ≡ pool
unfolding get_host_pool_condition
remove-set_condition_example =
    remove-set_condition 7 pool "Available" condition_true "Ready" "it is" refl

handle_update-settles_example :
    let s' = handle_update kube api reconciler scope in
    ((c : CtrlResult)
      → s'.0 ≡ done c
      → (s'.1.instance.status.phase ≡ HostPoolPhase.ready)
        × (s'.1.instance.status.host_sets ≡ s'.1.instance.spec.host_sets))
    × ((e : GoError) → s'.0 ≡ failed e → s'.1.instance.status.phase ≡ HostPoolPhase.failed)
handle_update-settles_example = handle_update-settles kube api reconciler scope refl

handle_delete-PoolReleased_example :
    PoolReleased kube api reconciler scope (handle_delete kube api reconciler scope).1
handle_delete-PoolReleased_example = handle_delete-PoolReleased kube api reconciler scope

abbrev called_before : HostPoolScope (Unit {0})
called_before = record {
  instance = pool;
  world = record {
    cluster = tt;
    webhooks = record { inflight_requests = λ key. some 40; now = 42; posted = [] };
  };
  calls = [];
}

called_before-IsRecent : IsRecent kube api reconciler called_before 40
unfolding has_entry
called_before-IsRecent = record {
  set = refl;
  unmanaged = refl;
  remembered = refl;
  past = omega arith;
  within = omega arith;
}

handle_delete-held_back_example :
    ((handle_delete kube api reconciler called_before).0 ≡ done (requeue_in 2))
    × ((handle_delete kube api reconciler called_before).1.calls ≡ [])
handle_delete-held_back_example =
    handle_delete-held_back kube api reconciler called_before namespace 40 refl refl
      called_before-IsRecent

-- ===== src/Examples/Feedbacks.antt =====
-- Records of the fulfillment service, and the program's configuration.
use cloudkit_operator.Prelude.{◌≡◌, refl, arith, true, false, none, some, List, [], ◌∷◌, done}
use cloudkit_operator.Strconv.{pos}
use cloudkit_operator.Api.Condition.{Condition, condition_true, condition_false}
use cloudkit_operator.Api.ComputeInstance.{ComputeInstance, new_condition}
use cloudkit_operator.Feedback.{RecordCondition, SharedStatus, shared_true, sync_listed}
use cloudkit_operator.Feedback.Laws.{Shows, find_condition}
use cloudkit_operator.Feedback.Listed.{last_condition, sync_listed-last}
use cloudkit_operator.Feedback.ClusterOrders
use cloudkit_operator.Feedback.ClusterOrders.Conditions.{sync_listed-progressing}
use cloudkit_operator.Feedback.HostPools
use cloudkit_operator.Feedback.ComputeInstances.{
  FeedbackApi, FeedbackScope, empty_status, sync_state, feedback_finalizer, reconcile_labelled,
}
use cloudkit_operator.Feedback.ComputeInstances.Quiet.{reconcile_labelled-quiet}
use cloudkit_operator.Feedback.ComputeInstances.Finalizer.{Removed, reconcile_labelled-Removed}
use cloudkit_operator.Program.{Environment, parse_int_env}
use cloudkit_operator.Program.Configured.{IsPositive, parse_int_env-IsPositive}
use cloudkit_operator.Examples.Kubernetes.{kube}
use cloudkit_operator.Examples.Samples.{instance_with}

abbrev conditions : List Condition
conditions =
    new_condition "Available" condition_true "it is" "Ready"
    ∷ new_condition "Progressing" condition_false "no more" "Ready"
    ∷ []

abbrev instance : ComputeInstance
instance = record (instance_with [] (feedback_finalizer ∷ [])) {
  deletion_timestamp = some 9;
  status = record (instance_with [] []).status { conditions = conditions };
}

abbrev api : FeedbackApi (Unit {0}) (Unit {0})
api = record {
  get = λ w. (done instance, w);
  update = λ o w. (done o, w);
  fetch = λ id w. (done (record { rest = tt; status = none }), w);
  with_spec = λ r. r;
  save = λ r w. (done tt, w);
  signal = λ id w. (done tt, w);
  equal = λ a b. false;
  now = 100;
}

abbrev scope : FeedbackScope (Unit {0}) (Unit {0})
scope = record { instance = instance; world = tt; calls = [] }

abbrev environment : Environment
environment = record { getenv = λ name. "0"; parse_duration = λ text. none }

abbrev live : ComputeInstance
live = record instance { deletion_timestamp = none }

abbrev synced_api : FeedbackApi (Unit {0}) (Unit {0})
synced_api = record api {
  fetch = λ id w. (done (record { rest = tt; status = some (sync_state 50 live empty_status) }), w);
  equal = λ a b. true;
}

reconcile_labelled-quiet_example :
    (reconcile_labelled kube synced_api (some "id") (record scope { instance = live })).1.calls ≡ []
reconcile_labelled-quiet_example =
    reconcile_labelled-quiet kube synced_api (λ ci. refl) "id" (record scope { instance = live }) 50
      tt empty_status refl refl refl

reconcile_labelled-Removed_example :
    Removed kube api "id" scope (reconcile_labelled kube api (some "id") scope).1
reconcile_labelled-Removed_example = reconcile_labelled-Removed kube api "id" scope 9 refl

sync_listed-last_example :
    Shows "READY" shared_true "it is" (sync_listed HostPools.kind_of 100 conditions [])
unfolding last_condition HostPools.kind_of cloudkit_operator.Feedback.map_condition_status
sync_listed-last_example =
    sync_listed-last HostPools.kind_of 100 "READY" conditions []
      (new_condition "Available" condition_true "it is" "Ready") refl

sync_listed-progressing_example :
    find_condition "AVAILABLE" (sync_listed ClusterOrders.kind_of 100 conditions [])
    ≡ find_condition "AVAILABLE" []
sync_listed-progressing_example = sync_listed-progressing 100 conditions [] "AVAILABLE" refl

parse_int_env-IsPositive_example : IsPositive (parse_int_env environment "MAX" (pos 10))
parse_int_env-IsPositive_example = parse_int_env-IsPositive environment "MAX" (pos 10) (omega arith)

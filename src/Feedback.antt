-- ===== src/Feedback.antt =====
-- What the feedback controllers (internal/controller/feedback_controller.go,
-- hostpool_feedback_controller.go, computeinstance_feedback_controller.go) share: the conditions of a
-- record of the fulfillment service, and how one is written. The enumeration of the condition types,
-- which the service's generated code declares, is named by its values' texts.
pub mod Laws
pub mod Listed
pub mod ComputeInstances
pub mod ClusterOrders
pub mod HostPools
use cloudkit_operator.Prelude.{
  ℕ, String, Bool, true, false, Option, none, some, List, [], ◌∷◌, ◌==◌, if◌then◌else◌,
}
use cloudkit_operator.Api.Condition.{
  Condition, ConditionStatus, condition_true, condition_false, condition_unknown,
}

-- sharedv1.ConditionStatus
pub data SharedStatus : Type 0 where
  unspecified shared_true shared_false : SharedStatus

pub record RecordCondition : Type 0 where
  pub type : String
  pub status : SharedStatus
  pub message : String
  pub last_transition_time : Option ℕ

abbrev pub same_shared : SharedStatus → SharedStatus → Bool
same_shared unspecified unspecified = true
same_shared shared_true shared_true = true
same_shared shared_false shared_false = true
same_shared _ _ = false

unfoldable pub map_condition_status : ConditionStatus → SharedStatus
map_condition_status condition_false = shared_false
map_condition_status condition_true = shared_true
map_condition_status condition_unknown = unspecified

-- SetStatus and SetMessage, and SetLastTransitionTime when the status is another
unfoldable pub write_condition : ℕ → SharedStatus → String → RecordCondition → RecordCondition
write_condition now status message c =
    if same_shared status c.status
    then record c { status = status; message = message }
    else record c { status = status; message = message; last_transition_time = some now }

abbrev pub fresh : String → RecordCondition
fresh kind = record {
  type = kind;
  status = shared_false;
  message = "";
  last_transition_time = none;
}

-- A write through the pointer that the find function returns: to the first condition of the type, or
-- to a new one at the end.
unfoldable pub with_condition :
    String → (RecordCondition → RecordCondition) → List RecordCondition → List RecordCondition
with_condition kind f [] = f (fresh kind) ∷ []
with_condition kind f (c ∷ cs) =
    let rest = with_condition kind f cs in if c.type == kind then f c ∷ cs else c ∷ rest

unfoldable pub sync_condition :
    ℕ → String → SharedStatus → String → List RecordCondition → List RecordCondition
unfolding with_condition write_condition
sync_condition now kind status message = with_condition kind (write_condition now status message)

-- syncCondition: a condition of the object is written to the record's condition that its type stands
-- for, if it does for one
unfoldable pub sync_to : ℕ → Option String → Condition → List RecordCondition → List RecordCondition
unfolding sync_condition map_condition_status
sync_to now none c rs = rs
sync_to now (some kind) c rs = sync_condition now kind (map_condition_status c.status) c.message rs

-- the loop of syncConditions
unfoldable pub sync_listed :
    (String → Option String) → ℕ → List Condition → List RecordCondition → List RecordCondition
unfolding sync_to
sync_listed kind_of now [] rs = rs
sync_listed kind_of now (c ∷ cs) rs = sync_listed kind_of now cs (sync_to now (kind_of c.type) c rs)

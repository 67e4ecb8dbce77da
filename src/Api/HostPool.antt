-- ===== src/Api/HostPool.antt =====
-- api/v1alpha1/hostpool_types.go, hostpool_conditions.go and hostpool_hostpoolreference.go. A nil
-- pointer is `none`, and `now` is what metav1.Now answers.
pub mod Conditions
pub mod View
use cloudkit_operator.Prelude.{
  ℕ, String, Bool, true, false, Option, none, some, List, [], ◌∷◌, Dictionary, ◌==◌, if◌then◌else◌,
}
use cloudkit_operator.Api.Condition.{
  ConditionStatus, Condition, condition_true, condition_false, get_condition, has_status,
  same_status,
}

-- The size is Go's int, and a count.
pub record HostSet : Type 0 where
  pub host_class : String
  pub size : ℕ

pub record HostPoolSpec : Type 0 where
  pub host_sets : List HostSet

-- the zero value "" of the string type is `unset`
pub data HostPoolPhase : Type 0 where
  unset progressing failed ready deleting : HostPoolPhase

abbrev pub host_pool_condition_accepted : String
host_pool_condition_accepted = "Accepted"

abbrev pub host_pool_condition_progressing : String
host_pool_condition_progressing = "Progressing"

abbrev pub host_pool_condition_available : String
host_pool_condition_available = "Available"

abbrev pub host_pool_condition_deleting : String
host_pool_condition_deleting = "Deleting"

pub record HostPoolReference : Type 0 where
  pub namespace : String

pub record HostPoolStatus : Type 0 where
  pub phase : HostPoolPhase
  pub conditions : List Condition
  pub host_pool_reference : Option HostPoolReference
  pub host_sets : List HostSet

pub record HostPool : Type 0 where
  pub name : String
  pub namespace : String
  pub labels : Dictionary
  pub annotations : Dictionary
  pub finalizers : List String
  pub deletion_timestamp : Option ℕ
  pub spec : HostPoolSpec
  pub status : HostPoolStatus

abbrev pub with_conditions : HostPool → List Condition → HostPool
with_conditions hp cs = record hp { status = record hp.status { conditions = cs } }

-- the time of a condition with the same status is kept
abbrev pub timed : Condition → Condition → Condition
timed c old =
    if same_status old.status c.status
    then record c { last_transition_time = old.last_transition_time }
    else c

-- the loop of SetCondition, and the append behind it
unfoldable pub put_condition : List Condition → Condition → List Condition
put_condition [] c = c ∷ []
put_condition (d ∷ ds) c =
    let rest = put_condition ds c in if d.type == c.type then timed c d ∷ ds else d ∷ rest

unfoldable pub set_condition : ℕ → HostPool → String → ConditionStatus → String → String → HostPool
unfolding put_condition
set_condition now hp condition_type status reason message = with_conditions hp (
    put_condition hp.status.conditions (record {
      type = condition_type;
      status = status;
      reason = reason;
      message = message;
      observed_generation = 0;
      last_transition_time = now;
    }))

unfoldable pub get_host_pool_condition : HostPool → String → Option Condition
unfolding get_condition
get_host_pool_condition hp condition_type = get_condition hp.status.conditions condition_type

unfoldable pub is_condition_true : HostPool → String → Bool
unfolding get_host_pool_condition
is_condition_true hp t = has_status condition_true (get_host_pool_condition hp t)

unfoldable pub is_condition_false : HostPool → String → Bool
unfolding get_host_pool_condition
is_condition_false hp t = has_status condition_false (get_host_pool_condition hp t)

-- the loop of RemoveCondition: the first condition of the type goes
unfoldable pub drop_condition : List Condition → String → List Condition
drop_condition [] t = []
drop_condition (d ∷ ds) t = let rest = drop_condition ds t in if d.type == t then ds else d ∷ rest

unfoldable pub remove_condition : HostPool → String → HostPool
unfolding drop_condition
remove_condition hp t = with_conditions hp (drop_condition hp.status.conditions t)

unfoldable pub ensured : Option HostPoolReference → HostPoolReference
ensured none = record { namespace = "" }
ensured (some r) = r

unfoldable pub set_host_pool_reference_namespace : String → HostPool → HostPool
unfolding ensured
set_host_pool_reference_namespace name hp = record hp {
  status = record hp.status {
    host_pool_reference =
        some (record (ensured hp.status.host_pool_reference) { namespace = name });
  };
}

unfoldable pub get_host_pool_reference_namespace : HostPool → String
unfolding ensured
get_host_pool_reference_namespace hp = (ensured hp.status.host_pool_reference).namespace

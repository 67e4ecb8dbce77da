-- ===== src/Api/Condition.antt =====
-- metav1.Condition, with the accessors that the resources share
-- (api/v1alpha1/computeinstance_conditions.go).
use cloudkit_operator.Prelude.{
  ℕ, String, Bool, true, false, Option, none, some, List, [], ◌∷◌, ◌==◌, if◌then◌else◌,
}

pub data ConditionStatus : Type 0 where
  condition_true condition_false condition_unknown : ConditionStatus

pub record Condition : Type 0 where
  pub type : String
  pub status : ConditionStatus
  pub reason : String
  pub message : String
  pub observed_generation : ℕ
  pub last_transition_time : ℕ

abbrev pub same_status : ConditionStatus → ConditionStatus → Bool
same_status condition_true condition_true = true
same_status condition_false condition_false = true
same_status condition_unknown condition_unknown = true
same_status _ _ = false

-- the loop of GetStatusCondition: the first condition of the type
unfoldable pub get_condition : List Condition → String → Option Condition
get_condition [] t = none
get_condition (c ∷ cs) t = if c.type == t then some c else get_condition cs t

abbrev pub has_status : ConditionStatus → Option Condition → Bool
has_status status none = false
has_status status (some c) = same_status c.status status

abbrev pub is_unknown : Option Condition → Bool
is_unknown none = true
is_unknown (some c) = same_status c.status condition_unknown

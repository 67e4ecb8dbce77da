-- ===== src/ComputeInstance/Update/Conditions.antt =====
-- initializeStatusConditions (internal/controller/computeinstance_controller.go).
use cloudkit_operator.Prelude.{
  eq_iff, String, ◌==◌, ◌≡◌, ◌≢◌, refl, ◌∙◌, true, false, Option, none, some, Bool-cases, inl, inr,
  is_present, arith, ap,
}
use cloudkit_operator.Api.Kube.{Kube, Agrees}
use cloudkit_operator.Api.Condition.{Condition, ConditionStatus, get_condition}
use cloudkit_operator.Api.ComputeInstance.{
  ComputeInstance, new_condition, accepted, progressing, available, condition_deleting,
}
use cloudkit_operator.ComputeInstance.Update.{
  initialize_status_condition, initialize_status_conditions,
}

Agrees-is_present :
    (c : Condition) (found : Option Condition) → Agrees c found → is_present found ≡ true
unfolding is_present
Agrees-is_present c none agrees = absurd agrees
Agrees-is_present c (some d) agrees = refl

some-is_present : (o : Option Condition) (c : Condition) → o ≡ some c → is_present o ≡ true
unfolding is_present
some-is_present o c e = rw e refl

is_present-some : (o : Option Condition) → is_present o ≡ true → (c : Condition) × (o ≡ some c)
unfolding is_present
is_present-some none present = absurd (cc)
is_present-some (some c) present = (c, refl)

differs : (o p : Option Condition) (c : Condition) → is_present o ≡ false → p ≡ some c → o ≢ p
unfolding is_present
differs o p c missing e same = ground (arith)

module _ (kube : Kube) where
  initialize-keeps :
      (t : String) (status : ConditionStatus) (reason : String) (ci : ComputeInstance) (s : String)
      (c : Condition)
      → get_condition ci.status.conditions s ≡ some c
      → get_condition (initialize_status_condition kube t status reason ci).status.conditions s
        ≡ some c
  unfolding initialize_status_condition
  initialize-keeps t status reason ci s c e =
      elim (Bool-cases (is_present (get_condition ci.status.conditions t))) [
        | inl present ↦ rw present e
        | inr missing ↦ elim (Bool-cases (t == s)) [
          | inl same ↦ absurd (
              differs _ _ c missing e
                (ap (get_condition ci.status.conditions) ((eq_iff t s).0 same)))
          | inr other ↦
              rw missing (
                kube.get-set_ne ci.status.conditions (new_condition t status "" reason) s other ∙ e)
        ]
      ]

  initialize-sets :
      (t : String) (status : ConditionStatus) (reason : String) (ci : ComputeInstance)
      → is_present
          (get_condition (initialize_status_condition kube t status reason ci).status.conditions t)
        ≡ true
  unfolding initialize_status_condition
  initialize-sets t status reason ci =
      elim (Bool-cases (is_present (get_condition ci.status.conditions t))) [
        | inl present ↦ rw present present
        | inr missing ↦ rw missing (
            Agrees-is_present (new_condition t status "" reason) _
              (kube.get-set_self ci.status.conditions (new_condition t status "" reason)))
      ]

  initialize-stays :
      (t : String) (status : ConditionStatus) (reason : String) (ci : ComputeInstance) (s : String)
      → is_present (get_condition ci.status.conditions s) ≡ true
      → is_present
          (get_condition (initialize_status_condition kube t status reason ci).status.conditions s)
        ≡ true
  initialize-stays t status reason ci s present =
      let found = is_present-some (get_condition ci.status.conditions s) present in
      some-is_present _ found.0 (initialize-keeps t status reason ci s found.0 found.1)

  -- Initializing the conditions changes none that the instance already has, and leaves it with all
  -- four types of condition.
  pub initialize_status_conditions-fills :
      (ci : ComputeInstance)
      → let cs = (initialize_status_conditions kube ci).status.conditions in
        ((s : String) (c : Condition)
          → get_condition ci.status.conditions s ≡ some c
          → get_condition cs s ≡ some c)
        × (is_present (get_condition cs accepted) ≡ true)
        × (is_present (get_condition cs condition_deleting) ≡ true)
        × (is_present (get_condition cs progressing) ≡ true)
        × (is_present (get_condition cs available) ≡ true)
  unfolding initialize_status_conditions
  initialize_status_conditions-fills ci = (
    (λ s c e. initialize-keeps _ _ _ _ s c (
        initialize-keeps _ _ _ _ s c
          (initialize-keeps _ _ _ _ s c (initialize-keeps _ _ _ ci s c e)))),
    initialize-stays _ _ _ _ accepted (
        initialize-stays _ _ _ _ accepted
          (initialize-stays _ _ _ _ accepted (initialize-sets accepted _ _ ci))),
    initialize-stays _ _ _ _ condition_deleting
        (initialize-stays _ _ _ _ condition_deleting (initialize-sets condition_deleting _ _ _)),
    initialize-stays _ _ _ _ progressing (initialize-sets progressing _ _ _),
    initialize-sets available _ _ _,
  )

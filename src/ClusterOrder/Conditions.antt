-- ===== src/ClusterOrder/Conditions.antt =====
-- What initializeStatusConditions (internal/controller/clusterorder_controller.go) guarantees.
use cloudkit_operator.Prelude.{
  ◌≡◌, refl, ◌∙◌, ap, sym, String, List, Option, none, some, is_present, ◌==◌, [], ◌∷◌, All, true,
  Bool-cases, Option-cases, inl, inr, arith, eq_iff,
}
use cloudkit_operator.Api.Kube.{Kube, Agrees}
use cloudkit_operator.Api.Condition.{Condition, ConditionStatus, get_condition}
use cloudkit_operator.Api.ComputeInstance.{new_condition}
use cloudkit_operator.Api.ClusterOrder.{ClusterOrder}
use cloudkit_operator.ClusterOrder.Observed.{
  initialize_status_condition, initialize_each, initial_conditions, initialize_status_conditions,
}

module _ (kube : Kube) where
  -- the second list has every condition that the first one has, as it is
  abbrev pub Extends : List Condition → List Condition → Type 0
  Extends cs ds =
      (t : String) (c : Condition) → get_condition cs t ≡ some c → get_condition ds t ≡ some c

  present_after_set : (c : Condition) (o : Option Condition) → Agrees c o → is_present o ≡ true
  unfolding is_present
  present_after_set c none h = absurd h
  present_after_set c (some d) h = refl

  pub initialize_status_condition-present :
      (t : String) (status : ConditionStatus) (reason : String) (cs : List Condition)
      → is_present (get_condition (initialize_status_condition kube t status reason cs) t) ≡ true
  unfolding initialize_status_condition
  initialize_status_condition-present t status reason cs =
      elim (Bool-cases (is_present (kube.find_status_condition cs t))) [
        | inl there ↦ rw there (ap is_present (sym (kube.find_lem cs t)) ∙ there)
        | inr new ↦ rw new (
            present_after_set (new_condition t status "" reason)
              (get_condition (kube.set_status_condition cs (new_condition t status "" reason)) t)
              (kube.get-set_self cs (new_condition t status "" reason)))
      ]

  pub initialize_status_condition-Extends :
      (t : String) (status : ConditionStatus) (reason : String) (cs : List Condition)
      → Extends cs (initialize_status_condition kube t status reason cs)
  unfolding initialize_status_condition is_present
  initialize_status_condition-Extends t status reason cs u c h =
      elim (Bool-cases (is_present (kube.find_status_condition cs t))) [
        | inl there ↦ rw there h
        | inr new ↦ elim (Bool-cases (t == u)) [
          | inl same ↦ absurd (ground (arith, kube.find_lem cs t, eq_iff t u))
          | inr other ↦ rw new (kube.get-set_ne cs (new_condition t status "" reason) u other ∙ h)
        ]
      ]

  present-Extends :
      (cs ds : List Condition) (t : String)
      → Extends cs ds
      → is_present (get_condition cs t) ≡ true
      → is_present (get_condition ds t) ≡ true
  unfolding is_present
  present-Extends cs ds t more h = elim (Option-cases (get_condition cs t)) [
    | inl absent ↦ absurd (cc)
    | inr (c, e) ↦ rw (more t c e) refl
  ]

  initialize_each-Extends :
      (calls : List (String × ConditionStatus × String)) (cs : List Condition)
      → Extends cs (initialize_each kube calls cs)
  unfolding initialize_each
  initialize_each-Extends [] cs u c h = h
  initialize_each-Extends ((t, status, reason) ∷ calls) cs u c h =
      initialize_each-Extends calls (initialize_status_condition kube t status reason cs) u c
        (initialize_status_condition-Extends t status reason cs u c h)

  initialize_each-present :
      (calls : List (String × ConditionStatus × String)) (cs : List Condition)
      → All (λ call. is_present (get_condition (initialize_each kube calls cs) call.0) ≡ true) calls
  unfolding initialize_each
  initialize_each-present [] cs = tt
  initialize_each-present ((t, status, reason) ∷ calls) cs =
      let next = initialize_status_condition kube t status reason cs in
      (
        present-Extends next (initialize_each kube calls next) t
            (initialize_each-Extends calls next)
            (initialize_status_condition-present t status reason cs),
        initialize_each-present calls next,
      )

  -- calls for conditions that are there do nothing
  initialize_each-idle :
      (calls : List (String × ConditionStatus × String)) (cs : List Condition)
      → All (λ call. is_present (get_condition cs call.0) ≡ true) calls
      → initialize_each kube calls cs ≡ cs
  unfolding initialize_each initialize_status_condition
  initialize_each-idle [] cs h = refl
  initialize_each-idle ((t, status, reason) ∷ calls) cs (here, there) =
      rw (kube.find_lem cs t, here) (initialize_each-idle calls cs there)

  -- After initializeStatusConditions each of its six conditions is there, the conditions that were
  -- there before are there as they were, and a second call changes nothing.
  pub initialize_status_conditions-Extends :
      (co : ClusterOrder)
      → let once = initialize_status_conditions kube co in
        All
          (λ call. is_present (get_condition once.status.conditions call.0) ≡ true)
          initial_conditions
        × Extends co.status.conditions once.status.conditions
        × (initialize_status_conditions kube once ≡ once)
  unfolding initialize_status_conditions
  initialize_status_conditions-Extends co =
      let present = initialize_each-present initial_conditions co.status.conditions in
      (
        present,
        initialize_each-Extends initial_conditions co.status.conditions,
        ap (λ (cs : List Condition). record co { status = record co.status { conditions = cs } })
            (initialize_each-idle initial_conditions _ present),
      )

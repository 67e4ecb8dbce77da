-- ===== src/Api/HostPool/View.antt =====
-- The conditions of a pool (api/v1alpha1/hostpool_conditions.go) as what they mean: a map from types
-- to a status, a reason and a message, which forgets their order and their times.
use mathlib.Core.Path.{subst}
use cloudkit_operator.Prelude.{
  ℕ, String, ◌≡◌, ap, ◌==◌, Bool-cases, Option, none, some, inl, inr, eq_iff, if◌then◌else◌,
}
use cloudkit_operator.Api.Condition.{ConditionStatus, Condition}
use cloudkit_operator.Api.HostPool.{HostPool, set_condition, get_host_pool_condition}
use cloudkit_operator.Api.HostPool.Conditions.{Tells, get-set_condition}

abbrev pub Told : Type 0
Told = Option (ConditionStatus × String × String)

abbrev told : Option Condition → Told
told none = none
told (some c) = some (c.status, c.reason, c.message)

abbrev pub view : HostPool → String → Told
view hp t = told (get_host_pool_condition hp t)

-- a map with another value at one key
abbrev pub updated : String → Told → (String → Told) → String → Told
updated t value m u = if t == u then value else m u

told-Tells :
    (status : ConditionStatus) (reason message : String) (o : Option Condition)
    → Tells status reason message o
    → told o ≡ some (status, reason, message)
told-Tells status reason message none h = absurd h
told-Tells status reason message (some c) (e, f, g) = λ i. some (e i, f i, g i)

view-set_at :
    (now : ℕ) (hp : HostPool) (t : String) (status : ConditionStatus) (reason message u : String)
    → view (set_condition now hp t status reason message) u
      ≡ updated t (some (status, reason, message)) (view hp) u
view-set_at now hp t status reason message u =
    let (self, other) = get-set_condition now hp t status reason message in
    let after = set_condition now hp t status reason message in
    elim (Bool-cases (t == u)) [
      | inl same ↦ rw same (
          subst (λ v. view after v ≡ some (status, reason, message)) ((eq_iff t u).0 same)
            (told-Tells status reason message (get_host_pool_condition after t) self))
      | inr differs ↦ rw differs (ap told (other u differs))
    ]

-- Setting a condition of a pool is setting the value of its type in the map that the conditions
-- mean, whatever their order and their times are.
pub view-set_condition :
    (now : ℕ) (hp : HostPool) (t : String) (status : ConditionStatus) (reason message : String)
    → view (set_condition now hp t status reason message)
      ≡ updated t (some (status, reason, message)) (view hp)
view-set_condition now hp t status reason message =
    λ i u. view-set_at now hp t status reason message u i

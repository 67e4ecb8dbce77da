-- ===== src/Api/HostPool/Conditions.antt =====
-- The laws of SetCondition, GetCondition and RemoveCondition (api/v1alpha1/hostpool_conditions.go).
use cloudkit_operator.Prelude.{
  ℕ, String, ◌≡◌, refl, ap, ◌==◌, false, Bool-cases, Option, none, some, List, [], ◌∷◌, inl, inr,
  arith, eq_iff,
}
use cloudkit_operator.Api.Condition.{ConditionStatus, Condition, get_condition, same_status}
use cloudkit_operator.Api.HostPool.{
  HostPool, put_condition, drop_condition, set_condition, get_host_pool_condition, remove_condition,
  timed, with_conditions,
}

-- what a caller of SetCondition gave
abbrev pub Tells : ConditionStatus → String → String → Option Condition → Type 0
Tells status reason message none = ⊥
Tells status reason message (some c) =
    (c.status ≡ status) × (c.reason ≡ reason) × (c.message ≡ message)

timed-Tells :
    (c old : Condition)
    → (timed c old).type ≡ c.type × Tells c.status c.reason c.message (some (timed c old))
timed-Tells c old = elim (Bool-cases (same_status old.status c.status)) [
  | inl same ↦ rw same (refl, (refl, refl, refl))
  | inr new ↦ rw new (refl, (refl, refl, refl))
]

get-put_self :
    (cs : List Condition) (c : Condition)
    → Tells c.status c.reason c.message (get_condition (put_condition cs c) c.type)
unfolding get_condition put_condition
get-put_self [] c = rw ((eq_iff c.type c.type).1 refl) (refl, refl, refl)
get-put_self (d ∷ ds) c = elim (Bool-cases (d.type == c.type)) [
  | inl same ↦
      let (type, told) = timed-Tells c d in rw (same, (eq_iff (timed c d).type c.type).1 type) told
  | inr other ↦ rw (other, other) (get-put_self ds c)
]

get-put_other :
    (cs : List Condition) (c : Condition) (t : String)
    → (c.type == t) ≡ false
    → get_condition (put_condition cs c) t ≡ get_condition cs t
unfolding get_condition put_condition
get-put_other [] c t h = rw h refl
get-put_other (d ∷ ds) c t h = elim (Bool-cases (d.type == c.type)) [
  | inl same ↦
      let (type, told) = timed-Tells c d in
      rw (same) (
        ground (
          arith,
          type,
          eq_iff d.type c.type,
          eq_iff d.type t,
          eq_iff c.type t,
          eq_iff (timed c d).type t,
        ))
  | inr other ↦ rw other (ground (arith, get-put_other ds c t h))
]

-- After SetCondition, GetCondition of the type finds the status, the reason and the message that
-- were given, and GetCondition of any other type finds what it found before.
pub get-set_condition :
    (now : ℕ) (hp : HostPool) (t : String) (status : ConditionStatus) (reason message : String)
    → let after = set_condition now hp t status reason message in
      Tells status reason message (get_host_pool_condition after t)
      × ((u : String)
          → (t == u) ≡ false
          → get_host_pool_condition after u ≡ get_host_pool_condition hp u)
unfolding set_condition get_host_pool_condition
get-set_condition now hp t status reason message =
    let c : Condition = record {
      type = t;
      status = status;
      reason = reason;
      message = message;
      observed_generation = 0;
      last_transition_time = now;
    } in
    (get-put_self hp.status.conditions c, get-put_other hp.status.conditions c)

drop-put :
    (cs : List Condition) (c : Condition)
    → get_condition cs c.type ≡ none
    → drop_condition (put_condition cs c) c.type ≡ cs
unfolding get_condition put_condition drop_condition
drop-put [] c h = rw ((eq_iff c.type c.type).1 refl) refl
drop-put (d ∷ ds) c h = elim (Bool-cases (d.type == c.type)) [
  | inl same ↦ absurd (ground (arith))
  | inr other ↦ rw (other, other) (ap (λ rest. d ∷ rest) (drop-put ds c (ground (arith))))
]

-- RemoveCondition takes away what SetCondition added: a pool without a condition of the type is as
-- it was after both.
pub remove-set_condition :
    (now : ℕ) (hp : HostPool) (t : String) (status : ConditionStatus) (reason message : String)
    → get_host_pool_condition hp t ≡ none
    → remove_condition (set_condition now hp t status reason message) t ≡ hp
unfolding set_condition remove_condition get_host_pool_condition
remove-set_condition now hp t status reason message h = ap (with_conditions hp) (
    drop-put hp.status.conditions
      (record {
        type = t;
        status = status;
        reason = reason;
        message = message;
        observed_generation = 0;
        last_transition_time = now;
      })
      h)

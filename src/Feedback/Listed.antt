-- ===== src/Feedback/Listed.antt =====
-- What the loop of syncConditions (internal/controller/feedback_controller.go and
-- hostpool_feedback_controller.go) leaves in a record.
use mathlib.Core.Path.{subst}
use cloudkit_operator.Prelude.{
  ℕ, String, ◌≡◌, refl, ◌∙◌, ◌==◌, true, false, Bool-cases, Option-cases, Option, none, some, List,
  [], ◌∷◌, inl, inr, Bool, arith, sym, eq_iff, if◌then◌else◌,
}
use cloudkit_operator.Api.Condition.{Condition}
use cloudkit_operator.Feedback.{
  RecordCondition, map_condition_status, sync_condition, sync_to, sync_listed,
}
use cloudkit_operator.Feedback.Laws.{Shows, find_condition, Shows-sync_self, find-sync_other}

abbrev pub is_kind : String → Option String → Bool
is_kind kind none = false
is_kind kind (some k) = k == kind

abbrev or_first : Bool → Condition → Option Condition → Option Condition
or_first stands c (some later) = some later
or_first stands c none = if stands then some c else none

-- the last condition of the object that stands for the type of the record
unfoldable pub last_condition :
    (String → Option String) → String → List Condition → Option Condition
last_condition kind_of kind [] = none
last_condition kind_of kind (c ∷ cs) =
    or_first (is_kind kind (kind_of c.type)) c (last_condition kind_of kind cs)

module _ (now : ℕ) (kind : String) where
  find-sync_to_other :
      (k : Option String) (c : Condition) (rs : List RecordCondition)
      → is_kind kind k ≡ false
      → find_condition kind (sync_to now k c rs) ≡ find_condition kind rs
  unfolding sync_to
  find-sync_to_other none c rs h = refl
  find-sync_to_other (some k) c rs h =
      find-sync_other now kind k (map_condition_status c.status) c.message rs h

  Shows-sync_to_self :
      (k : Option String) (c : Condition) (rs : List RecordCondition)
      → is_kind kind k ≡ true
      → Shows kind (map_condition_status c.status) c.message (sync_to now k c rs)
  unfolding sync_to
  Shows-sync_to_self none c rs h = absurd (cc)
  Shows-sync_to_self (some k) c rs h =
      subst
        (λ k.
          Shows kind (map_condition_status c.status) c.message
            (sync_condition now k (map_condition_status c.status) c.message rs))
        (sym ((eq_iff k kind).0 h))
        (Shows-sync_self now kind (map_condition_status c.status) c.message rs)

module _ (kind_of : String → Option String) (now : ℕ) (kind : String) where
  or_first-none :
      (stands : Bool) (c : Condition) (later : Option Condition)
      → or_first stands c later ≡ none
      → (stands ≡ false) × (later ≡ none)
  or_first-none true c none h = absurd (cc)
  or_first-none false c none h = (refl, refl)
  or_first-none stands c (some d) h = absurd (cc)

  -- what no condition stands for is left alone
  pub find-sync_listed :
      (cs : List Condition) (rs : List RecordCondition)
      → last_condition kind_of kind cs ≡ none
      → find_condition kind (sync_listed kind_of now cs rs) ≡ find_condition kind rs
  unfolding sync_listed last_condition
  find-sync_listed [] rs h = refl
  find-sync_listed (c ∷ cs) rs h =
      let (other, later) =
        or_first-none (is_kind kind (kind_of c.type)) c (last_condition kind_of kind cs) h in
      find-sync_listed cs (sync_to now (kind_of c.type) c rs) later
      ∙ find-sync_to_other now kind (kind_of c.type) c rs other

  Shows-sync_listed_after :
      (cs : List Condition) (rs : List RecordCondition) (c : Condition)
      → last_condition kind_of kind cs ≡ none
      → Shows kind (map_condition_status c.status) c.message rs
      → Shows kind (map_condition_status c.status) c.message (sync_listed kind_of now cs rs)
  Shows-sync_listed_after cs rs c h shows = record {
    says = rw (find-sync_listed cs rs h) shows.says;
  }

  -- For a type that some condition of the object stands for, the loop leaves the record with a
  -- condition of that type, and the first one of it has the status and the message of the last such
  -- condition of the object.
  pub sync_listed-last :
      (cs : List Condition) (rs : List RecordCondition) (c : Condition)
      → last_condition kind_of kind cs ≡ some c
      → Shows kind (map_condition_status c.status) c.message (sync_listed kind_of now cs rs)
  unfolding sync_listed last_condition
  sync_listed-last [] rs c h = absurd (cc)
  sync_listed-last (d ∷ cs) rs c h = elim (Option-cases (last_condition kind_of kind cs)) [
    | inr (e, later) ↦
        sync_listed-last cs (sync_to now (kind_of d.type) d rs) c (ground (arith, later, h))
    | inl none_later ↦ elim (Bool-cases (is_kind kind (kind_of d.type))) [
      | inl stands ↦
          let same : d ≡ c = ground (arith, none_later, stands, h) in
          subst
            (λ (b : Condition).
              Shows kind (map_condition_status b.status) b.message
                (sync_listed kind_of now (d ∷ cs) rs))
            same
            (Shows-sync_listed_after cs (sync_to now (kind_of d.type) d rs) d none_later
              (Shows-sync_to_self now kind (kind_of d.type) d rs stands))
      | inr other ↦ absurd (ground (arith, none_later, other, h))
    ]
  ]

-- ===== src/Feedback/ClusterOrders/Conditions.antt =====
-- Which conditions the feedback controller of orders (internal/controller/feedback_controller.go)
-- writes to a record.
use cloudkit_operator.Prelude.{ℕ, String, ◌≡◌, refl, ◌==◌, false, none, List, [], ◌∷◌, arith}
use cloudkit_operator.Api.Condition.{Condition}
use cloudkit_operator.Feedback.{RecordCondition, sync_listed}
use cloudkit_operator.Feedback.Laws.{find_condition}
use cloudkit_operator.Feedback.Listed.{is_kind, last_condition, find-sync_listed}
use cloudkit_operator.Feedback.ClusterOrders.{kind_of}

kind_of-progressing :
    (kind type : String) → ("PROGRESSING" == kind) ≡ false → is_kind kind (kind_of type) ≡ false
unfolding kind_of
kind_of-progressing kind type h = ground arith

last_condition-none :
    (kind : String) (cs : List Condition)
    → ("PROGRESSING" == kind) ≡ false
    → last_condition kind_of kind cs ≡ none
unfolding last_condition
last_condition-none kind [] h = refl
last_condition-none kind (c ∷ cs) h =
    rw (last_condition-none kind cs h, kind_of-progressing kind c.type h) refl

-- The conditions of an order change no condition of its record but the one of the type PROGRESSING,
-- whatever the order says about its control plane and its availability.
pub sync_listed-progressing :
    (now : ℕ) (cs : List Condition) (rs : List RecordCondition) (kind : String)
    → ("PROGRESSING" == kind) ≡ false
    → find_condition kind (sync_listed kind_of now cs rs) ≡ find_condition kind rs
sync_listed-progressing now cs rs kind h =
    find-sync_listed kind_of now kind cs rs (last_condition-none kind cs h)

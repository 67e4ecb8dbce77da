-- ===== src/Api/Kube.antt =====
-- What the program calls of Kubernetes' libraries (apimachinery's api/meta, controller-runtime's
-- controllerutil), with the documented behaviour that the proofs use.
use cloudkit_operator.Prelude.{String, ◌≡◌, Bool, true, false, not, Option, none, some, List, ◌==◌}
use cloudkit_operator.Api.Condition.{
  condition_true, condition_false, Condition, get_condition, has_status,
}

-- the fields that a caller of SetStatusCondition sets
abbrev pub Agrees : Condition → Option Condition → Type 0
Agrees c none = ⊥
Agrees c (some d) =
    (d.type ≡ c.type) × (d.status ≡ c.status) × (d.reason ≡ c.reason) × (d.message ≡ c.message)

pub record Kube : Type 0 where
  -- the functions of meta on conditions that have these names
  pub set_status_condition : List Condition → Condition → List Condition
  pub remove_status_condition : List Condition → String → List Condition × Bool
  pub is_status_condition_true : List Condition → String → Bool
  pub is_status_condition_false : List Condition → String → Bool
  pub find_status_condition : List Condition → String → Option Condition
  -- controllerutil.ContainsFinalizer, AddFinalizer, RemoveFinalizer, on the list of finalizers
  pub contains_finalizer : List String → String → Bool
  pub add_finalizer : List String → String → List String × Bool
  pub remove_finalizer : List String → String → List String × Bool
  pub get-set_self :
      (cs : List Condition) (c : Condition)
      → Agrees c (get_condition (set_status_condition cs c) c.type)
  pub get-set_ne :
      (cs : List Condition) (c : Condition) (t : String)
      → (c.type == t) ≡ false
      → get_condition (set_status_condition cs c) t ≡ get_condition cs t
  pub get-remove_self :
      (cs : List Condition) (t : String) → get_condition (remove_status_condition cs t).0 t ≡ none
  pub get-remove_ne :
      (cs : List Condition) (s t : String)
      → (s == t) ≡ false
      → get_condition (remove_status_condition cs s).0 t ≡ get_condition cs t
  pub is_true_lem :
      (cs : List Condition) (t : String)
      → is_status_condition_true cs t ≡ has_status condition_true (get_condition cs t)
  pub is_false_lem :
      (cs : List Condition) (t : String)
      → is_status_condition_false cs t ≡ has_status condition_false (get_condition cs t)
  pub find_lem :
      (cs : List Condition) (t : String) → find_status_condition cs t ≡ get_condition cs t
  pub contains-add_self :
      (fs : List String) (f : String) → contains_finalizer (add_finalizer fs f).0 f ≡ true
  pub add_reports :
      (fs : List String) (f : String) → (add_finalizer fs f).1 ≡ not (contains_finalizer fs f)
  pub contains-remove_self :
      (fs : List String) (f : String) → contains_finalizer (remove_finalizer fs f).0 f ≡ false
  pub remove_reports :
      (fs : List String) (f : String) → (remove_finalizer fs f).1 ≡ contains_finalizer fs f

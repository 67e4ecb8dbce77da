-- ===== src/Examples/Kubernetes.antt =====
-- A concrete instance of the operations of Kubernetes' libraries, which satisfies their laws.
use cloudkit_operator.Prelude.{
  String, ◌==◌, ◌≡◌, refl, Bool, true, false, not, none, List, [], ◌∷◌, if◌then◌else◌, arith,
  eq_iff, Bool-cases, inl, inr,
}
use cloudkit_operator.Api.Condition.{
  Condition, condition_true, condition_false, get_condition, has_status,
}
use cloudkit_operator.Api.Kube.{Kube, Agrees}

abbrev pub set : List Condition → Condition → List Condition
set [] c = c ∷ []
set (d ∷ ds) c = let rest = set ds c in if d.type == c.type then c ∷ ds else d ∷ rest

abbrev pub remove : List Condition → String → List Condition
remove [] t = []
remove (d ∷ ds) t = let rest = remove ds t in if d.type == t then rest else d ∷ rest

abbrev pub contains : List String → String → Bool
contains [] f = false
contains (g ∷ gs) f = let rest = contains gs f in if g == f then true else rest

abbrev pub add : List String → String → List String
add [] f = f ∷ []
add (g ∷ gs) f = let rest = add gs f in if g == f then g ∷ gs else g ∷ rest

abbrev pub without : List String → String → List String
without [] f = []
without (g ∷ gs) f = let rest = without gs f in if g == f then rest else g ∷ rest

pub get-set_self :
    (cs : List Condition) (c : Condition) → Agrees c (get_condition (set cs c) c.type)
unfolding get_condition
get-set_self [] c = rw ((eq_iff c.type c.type).1 refl) (refl, refl, refl, refl)
get-set_self (d ∷ ds) c = elim (Bool-cases (d.type == c.type)) [
  | inl same ↦ rw (same, (eq_iff c.type c.type).1 refl) (refl, refl, refl, refl)
  | inr other ↦ rw (other, other) (get-set_self ds c)
]

pub get-set_ne :
    (cs : List Condition) (c : Condition) (t : String)
    → (c.type == t) ≡ false
    → get_condition (set cs c) t ≡ get_condition cs t
unfolding get_condition
get-set_ne [] c t h = rw h refl
get-set_ne (d ∷ ds) c t h =
    ground (arith, get-set_ne ds c t h, eq_iff d.type c.type, eq_iff d.type t, eq_iff c.type t)

pub get-remove_self : (cs : List Condition) (t : String) → get_condition (remove cs t) t ≡ none
unfolding get_condition
get-remove_self [] t = refl
get-remove_self (d ∷ ds) t = ground (arith, get-remove_self ds t)

pub get-remove_ne :
    (cs : List Condition) (s t : String)
    → (s == t) ≡ false
    → get_condition (remove cs s) t ≡ get_condition cs t
unfolding get_condition
get-remove_ne [] s t h = refl
get-remove_ne (d ∷ ds) s t h =
    ground (arith, get-remove_ne ds s t h, eq_iff d.type s, eq_iff d.type t, eq_iff s t)

pub contains-add : (fs : List String) (f : String) → contains (add fs f) f ≡ true
contains-add [] f = rw ((eq_iff f f).1 refl) refl
contains-add (g ∷ gs) f = ground (arith, contains-add gs f)

pub contains-without : (fs : List String) (f : String) → contains (without fs f) f ≡ false
contains-without [] f = refl
contains-without (g ∷ gs) f = ground (arith, contains-without gs f)

abbrev pub kube : Kube
kube = record {
  set_status_condition = set;
  remove_status_condition = λ cs t. (remove cs t, true);
  is_status_condition_true = λ cs t. has_status condition_true (get_condition cs t);
  is_status_condition_false = λ cs t. has_status condition_false (get_condition cs t);
  find_status_condition = get_condition;
  contains_finalizer = contains;
  add_finalizer = λ fs f. (add fs f, not (contains fs f));
  remove_finalizer = λ fs f. (without fs f, contains fs f);
  get-set_self = get-set_self;
  get-set_ne = get-set_ne;
  get-remove_self = get-remove_self;
  get-remove_ne = get-remove_ne;
  is_true_lem = λ cs t. refl;
  is_false_lem = λ cs t. refl;
  find_lem = λ cs t. refl;
  contains-add_self = contains-add;
  add_reports = λ fs f. refl;
  contains-remove_self = contains-without;
  remove_reports = λ fs f. refl;
}

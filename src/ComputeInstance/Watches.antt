-- ===== src/ComputeInstance/Watches.antt =====
-- mapObjectToComputeInstance and ComputeInstanceNamespacePredicate of
-- internal/controller/computeinstance_controller.go.
use cloudkit_operator.Prelude.{
  String, Bool, Option, none, some, List, [], ◌∷◌, ◌==◌, lookup, Dictionary, Result, ok, err,
}
use cloudkit_operator.Api.ComputeInstance.{ComputeInstance}
use cloudkit_operator.ComputeInstance.Run.{Reconciler}

unfoldable pub namespace_predicate : String → String → Bool
namespace_predicate namespace object_namespace = object_namespace == namespace

-- the client's Get, by namespace and name
abbrev pub Lookup : Type 0
Lookup = String → String → Result ComputeInstance

module _ {S : Type 0} (r : Reconciler S) (get : Lookup) where
  -- the instance whose name is looked up is there or not
  requests : String → Result ComputeInstance → List (String × String)
  requests name (ok ci) = (r.compute_instance_namespace, name) ∷ []
  requests name (err e) = []

  labelled : Option String → List (String × String)
  unfolding requests
  labelled none = []
  labelled (some name) = requests name (get r.compute_instance_namespace name)

  unfoldable pub map_object_to_compute_instance : Dictionary → List (String × String)
  unfolding labelled lookup
  map_object_to_compute_instance labels =
      labelled (lookup "cloudkit.openshift.io/computeinstance" labels)

-- ===== src/ComputeInstance/Update/Tenancy.antt =====
-- What handleUpdate (internal/controller/computeinstance_controller.go) does before its tenant is
-- ready.
use cloudkit_operator.Prelude.{◌≡◌, All}
use cloudkit_operator.Api.Kube.{Kube}
use cloudkit_operator.Api.Tenant.{Tenant}
use cloudkit_operator.Api.ComputeInstance.{ComputeInstance}
use cloudkit_operator.ComputeInstance.Run.{Run, Call, called_update, called_create_tenant}

-- a call that concerns the instance itself or its tenant
abbrev pub IsQuiet : Call → Type 0
IsQuiet called_update = Unit
IsQuiet (called_create_tenant tenant) = Unit
IsQuiet _ = ⊥

module _ {S : Type 0} where
  -- The provider's state is the given one, and every call was a quiet one.
  abbrev pub IsIdle : S → Run S → Type 0
  IsIdle backend run = (run.backend ≡ backend) × All IsQuiet run.calls

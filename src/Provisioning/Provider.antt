-- ===== src/Provisioning/Provider.antt =====
-- internal/provisioning/provider.go: the interface between the ComputeInstance controller and the
-- two providers. `S` is the state that a provider keeps or reaches.
use cloudkit_operator.Prelude.{ℕ, String, Bool, Option, Handler}
use cloudkit_operator.Api.Job.{JobState}
use cloudkit_operator.Api.ComputeInstance.{ComputeInstance}

pub record ProvisionResult : Type 0 where
  pub job_id : String
  pub initial_state : JobState
  pub message : String

pub data DeprovisionAction : Type 0 where
  deprovision_triggered deprovision_waiting deprovision_skipped : DeprovisionAction

pub record ProvisionStatus : Type 0 where
  pub job_id : String
  pub state : JobState
  pub message : String
  pub progress : ℕ
  pub start_time : ℕ
  pub end_time : ℕ
  pub reconciled_version : String
  pub error_details : String

pub record DeprovisionResult : Type 0 where
  pub action : DeprovisionAction
  pub job_id : String
  pub block_deletion_on_failure : Bool
  pub provision_job_status : Option ProvisionStatus

pub record ProvisioningProvider (S : Type 0) : Type 0 where
  pub trigger_provision : ComputeInstance → Handler S ProvisionResult
  pub get_provision_status : ComputeInstance → String → Handler S ProvisionStatus
  pub trigger_deprovision : ComputeInstance → Handler S DeprovisionResult
  pub get_deprovision_status : ComputeInstance → String → Handler S ProvisionStatus
  pub name : String

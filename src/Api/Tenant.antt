-- ===== src/Api/Tenant.antt =====
-- api/v1alpha1/tenant_types.go
use cloudkit_operator.Prelude.{ℕ, String, Option, List, Dictionary}

pub data TenantPhase : Type 0 where
  unset progressing ready deleting failed : TenantPhase

pub record TenantStatus : Type 0 where
  pub phase : TenantPhase
  pub namespace : String

pub record Tenant : Type 0 where
  pub name : String
  pub namespace : String
  pub labels : Dictionary
  pub finalizers : List String
  pub deletion_timestamp : Option ℕ
  pub spec_name : String
  pub status : TenantStatus

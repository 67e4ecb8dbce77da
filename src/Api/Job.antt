-- ===== src/Api/Job.antt =====
-- api/v1alpha1/job_types.go. A metav1.Time is a number, and After is `<`.
pub mod Latest
use cloudkit_operator.Prelude.{
  ℕ, String, Bool, true, false, Option, none, some, List, [], ◌∷◌, ltb, if◌then◌else◌,
}

pub data JobType : Type 0 where
  provision deprovision : JobType

pub data JobState : Type 0 where
  pending waiting running succeeded failed canceled unknown : JobState

unfoldable pub is_terminal : JobState → Bool
is_terminal succeeded = true
is_terminal failed = true
is_terminal canceled = true
is_terminal _ = false

unfoldable pub is_successful : JobState → Bool
is_successful succeeded = true
is_successful _ = false

pub record JobStatus : Type 0 where
  pub job_id : String
  pub type : JobType
  pub timestamp : ℕ
  pub state : JobState
  pub message : String
  pub block_deletion_on_failure : Bool

abbrev pub same_type : JobType → JobType → Bool
same_type provision provision = true
same_type deprovision deprovision = true
same_type _ _ = false

-- the test of the loop's body: latest == nil || job.Timestamp.After(latest.Timestamp)
is_later : JobStatus → Option JobStatus → Bool
is_later job none = true
is_later job (some latest) = ltb latest.timestamp job.timestamp

-- one round of the loop
unfoldable pub newer : JobType → Option JobStatus → JobStatus → Option JobStatus
unfolding is_later
newer job_type latest job =
    if same_type job.type job_type
    then (if is_later job latest then some job else latest)
    else latest

unfoldable pub latest_from : JobType → Option JobStatus → List JobStatus → Option JobStatus
latest_from job_type latest [] = latest
latest_from job_type latest (job ∷ jobs) = latest_from job_type (newer job_type latest job) jobs

-- The result is a copy of the element that the source returns a pointer to.
unfoldable pub find_latest_job_by_type : List JobStatus → JobType → Option JobStatus
find_latest_job_by_type jobs job_type = latest_from job_type none jobs

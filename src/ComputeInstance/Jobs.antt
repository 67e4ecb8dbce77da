-- ===== src/ComputeInstance/Jobs.antt =====
-- The job history in status.jobs: findJobByID, appendJob and updateJob of
-- internal/controller/computeinstance_controller.go.
pub mod History
use cloudkit_operator.Prelude.{
  ℕ, ◌-◌, String, Bool, true, false, Option, none, some, List, [], ◌∷◌, ◌++◌, ltb, ◌==◌,
  if◌then◌else◌, length, drop,
}
use cloudkit_operator.Api.Job.{JobStatus}

-- The result is a copy of the element that the source returns a pointer to.
unfoldable pub find_job_by_id : List JobStatus → String → Option JobStatus
find_job_by_id [] job_id = none
find_job_by_id (job ∷ jobs) job_id =
    if job.job_id == job_id then some job else find_job_by_id jobs job_id

trim : ℕ → List JobStatus → List JobStatus
trim max_history jobs =
    if ltb max_history (length jobs) then drop (length jobs - max_history) jobs else jobs

unfoldable pub append_job : ℕ → List JobStatus → JobStatus → List JobStatus
unfolding trim
append_job max_history jobs new_job = trim max_history (jobs ++ new_job ∷ [])

-- The write through the pointer that findJobByID returns: the first job with the id is replaced.
replace_job : List JobStatus → JobStatus → List JobStatus
replace_job [] updated = []
replace_job (job ∷ jobs) updated =
    let rest = replace_job jobs updated in
    if job.job_id == updated.job_id then updated ∷ jobs else job ∷ rest

abbrev is_found : Option JobStatus → Bool
is_found none = false
is_found (some job) = true

unfoldable pub update_job : List JobStatus → JobStatus → List JobStatus × Bool
unfolding replace_job find_job_by_id
update_job jobs updated = (replace_job jobs updated, is_found (find_job_by_id jobs updated.job_id))

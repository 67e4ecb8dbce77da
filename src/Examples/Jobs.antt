-- ===== src/Examples/Jobs.antt =====
-- The job history and the job lookup.
use cloudkit_operator.Prelude.{◌≢◌, ◌≡◌, refl, arith, some, [], ◌∷◌, All}
use cloudkit_operator.Api.Job.{
  JobStatus, provision, deprovision, same_type, find_latest_job_by_type,
}
use cloudkit_operator.Api.Job.Latest.{IsLatest, find_latest_job_by_type-IsLatest}
use cloudkit_operator.ComputeInstance.Jobs.{append_job}
use cloudkit_operator.ComputeInstance.Jobs.History.{append_job-latest}
use cloudkit_operator.Provisioning.Eda.{generate_eda_job_id, is_eda_job_id}
use cloudkit_operator.Provisioning.Eda.Fresh.{generate_eda_job_id-fresh}
use cloudkit_operator.Examples.Samples.{old_job, new_job, removal, history}

newest_found : find_latest_job_by_type history provision ≡ some new_job
unfolding find_latest_job_by_type cloudkit_operator.Api.Job.latest_from
    cloudkit_operator.Api.Job.newer
newest_found = refl

find_latest_job_by_type-IsLatest_example : IsLatest provision history new_job
unfolding find_latest_job_by_type cloudkit_operator.Api.Job.latest_from
    cloudkit_operator.Api.Job.newer
find_latest_job_by_type-IsLatest_example =
    find_latest_job_by_type-IsLatest history provision new_job refl

append_job-latest_example :
    find_latest_job_by_type (append_job 2 (old_job ∷ new_job ∷ []) removal) deprovision
    ≡ some removal
append_job-latest_example =
    append_job-latest 2 (old_job ∷ new_job ∷ []) removal (omega arith)
      (omega arith, (omega arith, tt))

next_id : generate_eda_job_id history ≡ "eda-webhook-8"
unfolding generate_eda_job_id cloudkit_operator.Provisioning.Eda.count_job is_eda_job_id
    cloudkit_operator.Strconv.has_prefix cloudkit_operator.Strconv.atoi
    cloudkit_operator.Strconv.trim_prefix cloudkit_operator.Strconv.itoa
next_id = refl

generate_eda_job_id-fresh_example : All (λ job. job.job_id ≢ generate_eda_job_id history) history
unfolding generate_eda_job_id cloudkit_operator.Provisioning.Eda.count_job is_eda_job_id
    cloudkit_operator.Strconv.has_prefix cloudkit_operator.Strconv.atoi
    cloudkit_operator.Strconv.trim_prefix
generate_eda_job_id-fresh_example = generate_eda_job_id-fresh history (omega arith)

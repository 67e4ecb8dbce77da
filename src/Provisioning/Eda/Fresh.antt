-- ===== src/Provisioning/Eda/Fresh.antt =====
-- The job ids that generateEDAJobID (internal/provisioning/eda_provider.go) makes are new.
use cloudkit_operator.Prelude.{
  ℕ, ◌+◌, ◌≤◌, ◌<◌, ◌≡◌, ◌≢◌, true, List, [], ◌∷◌, arith, All, join_text, lt→ltb,
}
use cloudkit_operator.Strconv.{max_int, itoa}
use cloudkit_operator.Strconv.Laws.{atoi-itoa, has_prefix-join, trim_prefix-join}
use cloudkit_operator.Api.Job.{JobStatus}
use cloudkit_operator.Provisioning.Eda.{
  eda_job_id_prefix, is_eda_job_id, count_job, max_counter_from, generate_eda_job_id,
}

count_job-le : (m : ℕ) (job : JobStatus) → m ≤ count_job m job
unfolding count_job
count_job-le m job = ground arith

max_counter_from-le : (m : ℕ) (jobs : List JobStatus) → m ≤ max_counter_from m jobs
unfolding max_counter_from
max_counter_from-le m [] = omega arith
max_counter_from-le m (job ∷ jobs) =
    omega (arith, count_job-le m job, max_counter_from-le (count_job m job) jobs)

-- a job that has the id with counter n raises the counter to n at least
count_job-id :
    (m n : ℕ) (job : JobStatus)
    → n ≤ max_int
    → job.job_id ≡ join_text eda_job_id_prefix (itoa n)
    → n ≤ count_job m job
unfolding count_job is_eda_job_id
count_job-id m n job h e =
    rw (e, has_prefix-join eda_job_id_prefix (itoa n), trim_prefix-join, atoi-itoa n h)
      (ground arith)

fresh_from :
    (m n : ℕ) (jobs : List JobStatus)
    → n ≤ max_int
    → max_counter_from m jobs < n
    → All (λ job. job.job_id ≢ join_text eda_job_id_prefix (itoa n)) jobs
unfolding max_counter_from
fresh_from m n [] h lt = tt
fresh_from m n (job ∷ jobs) h lt = (
  λ e. absurd (omega (arith, count_job-id m n job h e, max_counter_from-le (count_job m job) jobs)),
  fresh_from (count_job m job) n jobs h lt,
)

abbrev pub BelowMax : List JobStatus → Type 0
BelowMax jobs = max_counter_from 0 jobs < max_int

-- While the largest counter is below the largest int, the generated id differs from the id of every
-- job in the list.
pub generate_eda_job_id-fresh :
    (jobs : List JobStatus)
    → BelowMax jobs
    → All (λ job. job.job_id ≢ generate_eda_job_id jobs) jobs
unfolding generate_eda_job_id
generate_eda_job_id-fresh jobs h =
    rw (lt→ltb _ _ h) (fresh_from 0 (max_counter_from 0 jobs + 1) jobs (omega arith) (omega arith))

-- A generated id is an EDA id.
pub is_eda-generate : (jobs : List JobStatus) → is_eda_job_id (generate_eda_job_id jobs) ≡ true
unfolding is_eda_job_id generate_eda_job_id
is_eda-generate jobs = has_prefix-join eda_job_id_prefix _

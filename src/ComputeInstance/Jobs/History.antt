-- ===== src/ComputeInstance/Jobs/History.antt =====
-- What the job history (internal/controller/computeinstance_controller.go) keeps.
use cloudkit_operator.Prelude.{
  ℕ, ◌+◌, ◌-◌, ◌≤◌, ◌<◌, String, ◌≡◌, refl, inl, inr, ap, true, false, some, List, [], ◌∷◌, ◌++◌,
  ltb, ltb→lt, ltb→le, sym, ◌==◌, arith, length, drop, length-append, length-drop, drop-append, All,
  All-drop, Bool-cases, Option-cases, if◌then◌else◌, eq_iff,
}
use cloudkit_operator.Api.Job.{JobStatus, find_latest_job_by_type}
use cloudkit_operator.Api.Job.Latest.{find_latest-append_newest}
use cloudkit_operator.ComputeInstance.Jobs.{
  find_job_by_id, append_job, update_job, trim, replace_job,
}

length_grown :
    (jobs : List JobStatus) (job : JobStatus) → length (jobs ++ job ∷ []) ≡ length jobs + 1
length_grown jobs job = length-append jobs (job ∷ [])

-- The history is never longer than the configured maximum, whatever its length was.
pub append_job-bounded :
    (max : ℕ) (jobs : List JobStatus) (job : JobStatus) → length (append_job max jobs job) ≤ max
unfolding append_job
append_job-bounded max jobs job =
    ground (arith, length-drop (length (jobs ++ job ∷ []) - max) (jobs ++ job ∷ []))

drop_none : {n : ℕ} (jobs : List JobStatus) → n ≡ 0 → drop n jobs ≡ jobs
drop_none jobs e = rw e

-- With room for one job, the history that appendJob returns is a back part of the old jobs, and
-- behind it the new job; nothing is dropped while there is room.
pub append_job-keeps_newest :
    (max : ℕ) (jobs : List JobStatus) (job : JobStatus)
    → 0 < max
    → append_job max jobs job ≡ drop (length jobs + 1 - max) jobs ++ job ∷ []
unfolding append_job
append_job-keeps_newest max jobs job room =
    rw (trim, length_grown jobs job)
      (elim (Bool-cases (ltb max (length jobs + 1))) [
        | inl full ↦
            rw full (
              drop-append (length jobs + 1 - max) jobs (job ∷ [])
                (omega (arith, ltb→lt max _ full)))
        | inr free ↦ rw free (
            sym (ap (λ kept. kept ++ job ∷ []) (drop_none jobs (omega (arith, ltb→le max _ free)))))
      ])

-- With room for one job, a new job that is newer than all others is the latest of its type.
pub append_job-latest :
    (max : ℕ) (jobs : List JobStatus) (job : JobStatus)
    → 0 < max
    → All (λ old. old.timestamp < job.timestamp) jobs
    → find_latest_job_by_type (append_job max jobs job) job.type ≡ some job
append_job-latest max jobs job room older = rw (append_job-keeps_newest max jobs job room) (
    find_latest-append_newest (drop (length jobs + 1 - max) jobs) job
      (All-drop (λ old. old.timestamp < job.timestamp) (length jobs + 1 - max) jobs older))

length-replace_job :
    (jobs : List JobStatus) (job : JobStatus) → length (replace_job jobs job) ≡ length jobs
unfolding replace_job
length-replace_job [] job = refl
length-replace_job (old ∷ jobs) job = ground (arith, length-replace_job jobs job)

find-replace_self :
    (jobs : List JobStatus) (job old : JobStatus)
    → find_job_by_id jobs job.job_id ≡ some old
    → find_job_by_id (replace_job jobs job) job.job_id ≡ some job
unfolding replace_job find_job_by_id
find-replace_self [] job old h = cc
find-replace_self (first ∷ jobs) job old h = ground (
  arith,
  find-replace_self jobs job old,
  eq_iff first.job_id job.job_id,
  eq_iff job.job_id job.job_id,
)

find-replace_ne :
    (jobs : List JobStatus) (job : JobStatus) (job_id : String)
    → (job.job_id == job_id) ≡ false
    → find_job_by_id (replace_job jobs job) job_id ≡ find_job_by_id jobs job_id
unfolding replace_job find_job_by_id
find-replace_ne [] job job_id h = refl
find-replace_ne (first ∷ jobs) job job_id h = ground (
  arith,
  find-replace_ne jobs job job_id,
  eq_iff first.job_id job_id,
  eq_iff job.job_id job_id,
  eq_iff first.job_id job.job_id,
)

-- updateJob keeps the length of the history.
pub update_job-length :
    (jobs : List JobStatus) (job : JobStatus) → length (update_job jobs job).0 ≡ length jobs
unfolding update_job
update_job-length jobs job = length-replace_job jobs job

-- When updateJob reports that it found the job's id, that id leads to the new job, and every other
-- id leads to what it led to before.
pub find-update_job :
    (jobs : List JobStatus) (job : JobStatus) (job_id : String)
    → (update_job jobs job).1 ≡ true
    → find_job_by_id (update_job jobs job).0 job_id
      ≡ (if job.job_id == job_id then some job else find_job_by_id jobs job_id)
unfolding update_job
find-update_job jobs job job_id found = elim (Option-cases (find_job_by_id jobs job.job_id)) [
  | inl missing ↦ absurd (ground arith)
  | inr (old, e) ↦ elim (Bool-cases (job.job_id == job_id)) [
    | inl same ↦ rw (same, ← (eq_iff job.job_id job_id).0 same) (find-replace_self jobs job old e)
    | inr other ↦ rw other (find-replace_ne jobs job job_id other)
  ]
]

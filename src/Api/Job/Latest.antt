-- ===== src/Api/Job/Latest.antt =====
-- FindLatestJobByType (api/v1alpha1/job_types.go) finds a newest job of its type.
use cloudkit_operator.Prelude.{
  ◌≤◌, ◌<◌, ◌≡◌, ◌≢◌, refl, sym, ◌∙◌, ◌⊎◌, inl, inr, true, false, Option, none, some, List, [], ◌∷◌,
  ◌++◌, Memᴰ, arith, All, All-mem, Bool-cases,
}
use mathlib.Core.Path.{subst}
use cloudkit_operator.Api.Job.{
  JobType, provision, deprovision, JobStatus, same_type, newer, latest_from,
  find_latest_job_by_type,
}

-- a job of the type is not newer than `latest`
abbrev pub NotNewer : JobType → JobStatus → JobStatus → Type 0
NotNewer job_type latest job = same_type job.type job_type ≡ true → job.timestamp ≤ latest.timestamp

abbrev Above : Option JobStatus → JobStatus → Type 0
Above none latest = Unit
Above (some best) latest = best.timestamp ≤ latest.timestamp

-- `latest` is a job of the list, of the type, and no other one of the type is newer
pub record IsLatest (job_type : JobType) (jobs : List JobStatus) (latest : JobStatus) : Type 0 where
  pub of_type : same_type latest.type job_type ≡ true
  pub mem : Memᴰ latest jobs
  pub newest : All (NotNewer job_type latest) jobs

same_type_refl : (job_type : JobType) → same_type job_type job_type ≡ true
same_type_refl provision = refl
same_type_refl deprovision = refl

module _ (job_type : JobType) where
  newer-cases :
      (best : Option JobStatus) (job : JobStatus)
      → (newer job_type best job ≡ best)
        ⊎ (newer job_type best job ≡ some job) × (same_type job.type job_type ≡ true)
  unfolding newer
  newer-cases none job = ground arith
  newer-cases (some best) job = ground arith

  newer-Above :
      (best : Option JobStatus) (job latest : JobStatus)
      → Above (newer job_type best job) latest
      → Above best latest × NotNewer job_type latest job
  unfolding newer
  newer-Above none job latest h = ground arith
  newer-Above (some best) job latest h = ground arith

  latest_from-Above :
      (best : Option JobStatus) (jobs : List JobStatus) (latest : JobStatus)
      → latest_from job_type best jobs ≡ some latest
      → Above best latest × All (NotNewer job_type latest) jobs
  unfolding latest_from
  latest_from-Above none [] latest h = (tt, tt)
  latest_from-Above (some best) [] latest h = (ground arith, tt)
  latest_from-Above best (job ∷ jobs) latest h =
      let (above, rest) = latest_from-Above (newer job_type best job) jobs latest h in
      let (above_best, not_newer) = newer-Above best job latest above in
      (above_best, (not_newer, rest))

  latest_from-mem :
      (best : Option JobStatus) (jobs : List JobStatus) (latest : JobStatus)
      → latest_from job_type best jobs ≡ some latest
      → (best ≡ some latest) ⊎ (same_type latest.type job_type ≡ true) × Memᴰ latest jobs
  unfolding latest_from
  latest_from-mem best [] latest h = inl h
  latest_from-mem best (job ∷ jobs) latest h =
      elim (latest_from-mem (newer job_type best job) jobs latest h) [
        | inr (same, later) ↦ inr (same, Memᴰ.tail later)
        | inl e ↦ elim (newer-cases best job) [
          | inl old ↦ inl (sym old ∙ e)
          | inr (new, same) ↦
              let same_job : job ≡ latest = cc (sym new ∙ e) in
              inr (
                subst (λ j. same_type j.type job_type ≡ true) same_job same,
                Memᴰ.head (sym same_job),
              )
        ]
      ]

  latest_from-some-ne-none :
      (best : JobStatus) (jobs : List JobStatus) → latest_from job_type (some best) jobs ≢ none
  unfolding latest_from newer
  latest_from-some-ne-none best [] h = cc
  latest_from-some-ne-none best (job ∷ jobs) h =
      ground (arith, latest_from-some-ne-none best jobs, latest_from-some-ne-none job jobs)

  latest_from-none :
      (jobs : List JobStatus)
      → latest_from job_type none jobs ≡ none
      → All (λ job. same_type job.type job_type ≡ false) jobs
  unfolding latest_from newer
  latest_from-none [] h = tt
  latest_from-none (job ∷ jobs) h = elim (Bool-cases (same_type job.type job_type)) [
    | inl same ↦ absurd (ground (arith, latest_from-some-ne-none job jobs))
    | inr other ↦ (other, latest_from-none jobs (ground arith))
  ]

-- What FindLatestJobByType returns is a job of the list and of the asked type, and no job of that
-- type in the list has a later timestamp, whatever the order of the list.
pub find_latest_job_by_type-IsLatest :
    (jobs : List JobStatus) (job_type : JobType) (latest : JobStatus)
    → find_latest_job_by_type jobs job_type ≡ some latest
    → IsLatest job_type jobs latest
unfolding find_latest_job_by_type
find_latest_job_by_type-IsLatest jobs job_type latest h =
    elim (latest_from-mem job_type none jobs latest h) [
      | inl e ↦ absurd (cc)
      | inr (same, member) ↦ record {
        of_type = same;
        mem = member;
        newest = (latest_from-Above job_type none jobs latest h).1;
      }
    ]

-- FindLatestJobByType returns nil only if the list has no job of the type.
pub find_latest_job_by_type-none :
    (jobs : List JobStatus) (job_type : JobType)
    → find_latest_job_by_type jobs job_type ≡ none
    → All (λ job. same_type job.type job_type ≡ false) jobs
unfolding find_latest_job_by_type
find_latest_job_by_type-none jobs job_type h = latest_from-none job_type jobs h

latest_from-append :
    (job_type : JobType) (best : Option JobStatus) (xs ys : List JobStatus)
    → latest_from job_type best (xs ++ ys) ≡ latest_from job_type (latest_from job_type best xs) ys
unfolding latest_from
latest_from-append job_type best [] ys = refl
latest_from-append job_type best (job ∷ xs) ys =
    latest_from-append job_type (newer job_type best job) xs ys

latest_from_newest :
    (best : Option JobStatus) (job : JobStatus)
    → ((b : JobStatus) → best ≡ some b → b.timestamp < job.timestamp)
    → latest_from job.type best (job ∷ []) ≡ some job
unfolding latest_from newer
latest_from_newest none job older = simp same_type_refl
latest_from_newest (some b) job older = rw same_type_refl (ground (arith, older b refl))

-- a job that is newer than every job before it is the latest one
pub find_latest-append_newest :
    (jobs : List JobStatus) (job : JobStatus)
    → All (λ old. old.timestamp < job.timestamp) jobs
    → find_latest_job_by_type (jobs ++ job ∷ []) job.type ≡ some job
unfolding find_latest_job_by_type
find_latest-append_newest jobs job older = rw latest_from-append (
    latest_from_newest (latest_from job.type none jobs) job λ b found.
      All-mem (λ old. old.timestamp < job.timestamp)
        (find_latest_job_by_type-IsLatest jobs job.type b found).mem older)

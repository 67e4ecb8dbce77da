-- ===== src/ComputeInstance/Update/Settled.antt =====
-- The tail of handleUpdate (internal/controller/computeinstance_controller.go), which compares the
-- configuration versions.
use cloudkit_operator.Prelude.{
  ◌==◌, ◌≡◌, refl, true, false, eq_iff, Option, none, some, List, [], ◌++◌, arith, Bool-cases,
  Option-cases, inl, inr, if◌then◌else◌, is_present, sym, ◌∙◌, ap,
}
use mathlib.Core.List.{append-nil}
use cloudkit_operator.Api.Kube.{Kube}
use cloudkit_operator.Api.Job.{JobStatus, is_terminal, provision, find_latest_job_by_type}
use cloudkit_operator.Api.ComputeInstance.{ComputeInstance, set_status_condition}
use cloudkit_operator.Provisioning.Provider.{ProvisioningProvider}
use cloudkit_operator.ComputeInstance.Run.{Reconciler, Cluster, Run, Call, has_management_state}
use cloudkit_operator.ComputeInstance.Provisioning.{handle_provisioning}
use cloudkit_operator.ComputeInstance.Provisioning.Triggers.{calls_for, handle_provisioning-calls}
use cloudkit_operator.ComputeInstance.Update.{apply_config, is_unfinished}

abbrev pub provisioning_calls :
    {S : Type 0} → Option (ProvisioningProvider S) → ComputeInstance → List Call
provisioning_calls provider ci =
    if has_management_state "manual" ci then [] else calls_for provider ci

is_present-eq : {A : Type 0} {o p : Option A} → o ≡ p → is_present o ≡ is_present p
is_present-eq e = ap is_present e

provisioning_calls-same :
    {S : Type 0} (provider : Option (ProvisioningProvider S)) (a b : ComputeInstance)
    → a.annotations ≡ b.annotations
    → a.status.jobs ≡ b.status.jobs
    → provisioning_calls provider a ≡ provisioning_calls provider b
unfolding has_management_state
provisioning_calls-same none a b notes jobs = ground (arith)
provisioning_calls-same (some provider) a b notes jobs = ground (arith)

append_none :
    {S : Type 0} (calls : List Call) (provider : Option (ProvisioningProvider S))
    (ci : ComputeInstance)
    → provider ≡ none
    → calls ++ provisioning_calls provider ci ≡ calls
append_none calls provider ci e = ground (arith, append-nil calls)

module _ {S : Type 0} (r : Reconciler S) (cluster : Cluster) where
  then_provisioning :
      (ci : ComputeInstance) (run : Run S)
      → ci.annotations ≡ run.instance.annotations
      → ci.status.jobs ≡ run.instance.status.jobs
      → (handle_provisioning r cluster (record run { instance = ci })).1.calls
        ≡ run.calls ++ provisioning_calls r.provisioning_provider run.instance
  then_provisioning ci run notes jobs =
      handle_provisioning-calls r cluster (record run { instance = ci })
      ∙ ap (λ calls. run.calls ++ calls)
          (provisioning_calls-same r.provisioning_provider ci run.instance notes jobs)

-- the desired configuration is in place
abbrev pub IsInPlace : ComputeInstance → Type 0
IsInPlace ci = ci.status.desired_config_version ≡ ci.status.reconciled_config_version

-- What a run of the tail of handleUpdate calls, by the versions and the latest provision job.
pub data ConfigCalls {S : Type 0} (r : Reconciler S) (run : Run S) (calls : List Call)
    : Type 0 where
  never_provisioned :
      IsInPlace run.instance
      → find_latest_job_by_type run.instance.status.jobs provision ≡ none
      → calls ≡ run.calls
      → ConfigCalls r run calls
  over :
      (job : JobStatus)
      → IsInPlace run.instance
      → find_latest_job_by_type run.instance.status.jobs provision ≡ some job
      → is_terminal job.state ≡ true
      → calls ≡ run.calls
      → ConfigCalls r run calls
  still_running :
      (job : JobStatus)
      → IsInPlace run.instance
      → find_latest_job_by_type run.instance.status.jobs provision ≡ some job
      → is_terminal job.state ≡ false
      → calls ≡ run.calls ++ provisioning_calls r.provisioning_provider run.instance
      → ConfigCalls r run calls
  behind :
      ¬ IsInPlace run.instance
      → calls ≡ run.calls ++ provisioning_calls r.provisioning_provider run.instance
      → ConfigCalls r run calls

module _ {S : Type 0} (kube : Kube) (r : Reconciler S) (cluster : Cluster) where
  apply_config-finished :
      (run : Run S)
      → IsInPlace run.instance
      → is_unfinished (find_latest_job_by_type run.instance.status.jobs provision) ≡ false
      → (apply_config kube r cluster run).1.calls ≡ run.calls
  unfolding apply_config
  apply_config-finished run same finished =
      let there = (eq_iff _ _).1 same in
      elim (Bool-cases (is_present r.provisioning_provider)) [
        | inl provider ↦ rw (there, finished, provider) refl
        | inr missing ↦ rw (there, finished, missing) refl
      ]

  apply_config-unfinished :
      (run : Run S)
      → IsInPlace run.instance
      → is_unfinished (find_latest_job_by_type run.instance.status.jobs provision) ≡ true
      → (apply_config kube r cluster run).1.calls
        ≡ run.calls ++ provisioning_calls r.provisioning_provider run.instance
  unfolding apply_config set_status_condition
  apply_config-unfinished run same unfinished =
      let there = (eq_iff _ _).1 same in
      elim (Option-cases r.provisioning_provider) [
        | inl missing ↦
            rw (there, unfinished, is_present-eq missing)
              (sym (append_none run.calls r.provisioning_provider run.instance missing))
        | inr (provider, present) ↦
            rw (there, unfinished, is_present-eq present)
              (then_provisioning r cluster _ run refl refl)
      ]

  -- With the desired configuration in place, the tail of handleUpdate calls nothing if there is no
  -- provision job or the latest one has ended. If that job has not ended, or the configuration
  -- differs from the desired one, it makes the calls of handleProvisioning: none without a provider
  -- or under manual management, and else a trigger if the latest provision job is missing or has no
  -- id, or a status query for it.
  pub apply_config-calls :
      (run : Run S) → ConfigCalls r run (apply_config kube r cluster run).1.calls
  unfolding apply_config set_status_condition is_unfinished
  apply_config-calls run =
      elim (Bool-cases (
        run.instance.status.desired_config_version
        == run.instance.status.reconciled_config_version)) [
          | inr differ ↦
              behind (λ same. absurd (ground (arith, (eq_iff _ _).1 same, differ)))
                (rw differ (then_provisioning r cluster _ run refl refl))
          | inl there ↦
              let same = (eq_iff _ _).0 there in
              elim (Option-cases (find_latest_job_by_type run.instance.status.jobs provision)) [
                | inl missing ↦
                    never_provisioned same missing
                      (apply_config-finished run same (ap is_unfinished missing))
                | inr (job, found) ↦ elim (Bool-cases (is_terminal job.state)) [
                  | inl ended ↦
                      over job same found ended
                        (apply_config-finished run same (ap is_unfinished found ∙ rw ended refl))
                  | inr running ↦
                      still_running job same found running (
                        apply_config-unfinished run same (ap is_unfinished found ∙ rw running refl))
                ]
              ]
        ]

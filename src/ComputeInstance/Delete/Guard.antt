-- ===== src/ComputeInstance/Delete/Guard.antt =====
-- When handleDelete (internal/controller/computeinstance_controller.go) takes the base finalizer off
-- an instance.
use cloudkit_operator.Prelude.{
  ◌≤◌, ◌<◌, ◌≡◌, refl, ◌⊎◌, some, arith, length, Bool-cases, Outcome-cases, inl, inr, ltb, ltb→le,
}
use cloudkit_operator.Api.Kube.{Kube}
use cloudkit_operator.Api.ComputeInstance.{ComputeInstancePhase}
use cloudkit_operator.Provisioning.Provider.{ProvisioningProvider}
use cloudkit_operator.ComputeInstance.Run.{Reconciler, Cluster, Run, finalizer}
use cloudkit_operator.ComputeInstance.Provisioning.{set_phase}
use cloudkit_operator.ComputeInstance.Deprovisioning.{handle_deprovisioning}
use cloudkit_operator.ComputeInstance.Deprovisioning.Release.{
  Released, Waits, handle_deprovisioning-Released,
}
use cloudkit_operator.ComputeInstance.Deprovisioning.Effects.{handle_deprovisioning-Keeps}
use cloudkit_operator.ComputeInstance.Delete.{handle_delete}

abbrev pub marked : {S : Type 0} → Run S → Run S
marked run = record run { instance = set_phase ComputeInstancePhase.deleting run.instance }

module _ {S : Type 0} (kube : Kube) (r : Reconciler S) (cluster : Cluster)
    (polls : 0 < r.status_poll_interval) where
  -- If the poll interval is positive, every rate limit that the provider's TriggerDeprovision reports
  -- names a positive time to wait, and the job history is within its bound, then a run of
  -- handleDelete either leaves the finalizers as they were or was released: by manual management, by a
  -- provider that skips the deprovisioning, or by a latest deprovision job that the provider reports
  -- as successful, or as ended if it does not block deletion.
  pub handle_delete-Released :
      (run : Run S)
      → ((provider : ProvisioningProvider S)
          → r.provisioning_provider ≡ some provider
          → Waits provider)
      → length run.instance.status.jobs ≤ r.max_job_history
      → ((handle_delete kube r cluster run).1.instance.finalizers ≡ run.instance.finalizers)
        ⊎ Released r (marked run)
  unfolding handle_delete
  handle_delete-Released run waits bounded =
      let kept =
        handle_deprovisioning-Keeps r cluster run.instance.finalizers (marked run)
          (record { finalizers = refl; bounded = bounded }) in
      elim (Bool-cases (kube.contains_finalizer run.instance.finalizers finalizer)) [
        | inr absent ↦ inl (rw absent)
        | inl present ↦ elim (Outcome-cases (handle_deprovisioning r cluster (marked run)).0) [
          | inl (c, e) ↦ elim (Bool-cases (ltb 0 c.requeue_after)) [
            | inl later ↦ inl (rw (present, e, later) kept.finalizers)
            | inr now ↦ inr (
                handle_deprovisioning-Released r cluster polls (marked run) c waits e
                  (omega (arith, ltb→le 0 c.requeue_after now)))
          ]
          | inr (inl (x, e)) ↦ inl (rw (present, e) kept.finalizers)
          | inr (inr e) ↦ inl (rw (present, e) kept.finalizers)
        ]
      ]

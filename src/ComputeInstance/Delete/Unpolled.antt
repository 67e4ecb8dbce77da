-- ===== src/ComputeInstance/Delete/Unpolled.antt =====
-- handleDelete (internal/controller/computeinstance_controller.go) with a negative poll interval, which
-- parsePollInterval of cmd/main.go accepts and NewComputeInstanceReconciler keeps.
use cloudkit_operator.Prelude.{
  ℕ, String, ◌≡◌, ◌≢◌, refl, true, false, some, ok, done, panicked, inl, inr, ◌==◌, Bool-cases,
}
use cloudkit_operator.Strconv.{ℤ, negsuc}
use cloudkit_operator.Api.Kube.{Kube}
use cloudkit_operator.Api.Job.{JobStatus, deprovision, find_latest_job_by_type}
use cloudkit_operator.Api.ComputeInstance.{ComputeInstance}
use cloudkit_operator.Provisioning.Provider.{ProvisioningProvider}
use cloudkit_operator.ComputeInstance.Run.{
  Reconciler, Cluster, Run, has_management_state, finalizer, no_requeue,
  new_compute_instance_reconciler, update_instance,
}
use cloudkit_operator.ComputeInstance.Deprovisioning.{handle_deprovisioning}
use cloudkit_operator.ComputeInstance.Deprovisioning.Unpolled.{handle_deprovisioning-no_wait}
use cloudkit_operator.ComputeInstance.Delete.{handle_delete, remove_base_finalizer}
use cloudkit_operator.ComputeInstance.Delete.Guard.{marked}

module _ {S : Type 0} (kube : Kube) (r : Reconciler S) (cluster : Cluster) where
  remove_base_finalizer-free :
      (run : Run S)
      → ((ci : ComputeInstance) → cluster.update ci ≡ ok ci)
      → ((remove_base_finalizer kube r cluster run).0 ≡ done no_requeue)
        × (kube.contains_finalizer
              (remove_base_finalizer kube r cluster run).1.instance.finalizers
              finalizer
            ≡ false)
  unfolding remove_base_finalizer update_instance
  remove_base_finalizer-free run stores =
      let gone = kube.contains-remove_self run.instance.finalizers finalizer in
      elim (Bool-cases (kube.remove_finalizer run.instance.finalizers finalizer).1) [
        | inl held ↦ rw (held, stores) (refl, gone)
        | inr free ↦ rw free (refl, gone)
      ]

  remove_base_finalizer-released :
      (run : Run S)
      → kube.contains_finalizer run.instance.finalizers finalizer ≡ true
      → (handle_deprovisioning r cluster (marked run)).0 ≡ done no_requeue
      → handle_delete kube r cluster run
        ≡ remove_base_finalizer kube r cluster (handle_deprovisioning r cluster (marked run)).1
  unfolding handle_delete
  remove_base_finalizer-released run present over = rw (present, over) refl

module _ {S : Type 0} (kube : Kube) (cluster : Cluster) (namespace : String) (magnitude : ℕ)
    (history : ℤ) (provider : ProvisioningProvider S) where
  -- the reconciler that NewComputeInstanceReconciler makes of a negative interval
  abbrev pub impatient : Reconciler S
  unfolding new_compute_instance_reconciler
  impatient = new_compute_instance_reconciler namespace (some provider) (negsuc magnitude) history

  -- With a reconciler that was made with a negative poll interval, a run of handleDelete on an
  -- instance that has the base finalizer, is not managed by hand, and has a deprovision job with an id
  -- as its latest one, takes the finalizer off and asks for no requeue, whatever the provider reports
  -- of the job, also that it still runs or an error; only that the provider does not panic is asked,
  -- and that the cluster accepts an update and answers with the object that it was given.
  pub handle_delete-never_waits :
      (job : JobStatus) (run : Run S)
      → kube.contains_finalizer run.instance.finalizers finalizer ≡ true
      → has_management_state "manual" run.instance ≡ false
      → find_latest_job_by_type run.instance.status.jobs deprovision ≡ some job
      → (job.job_id == "") ≡ false
      → (provider.get_deprovision_status (marked run).instance job.job_id run.backend).0 ≢ panicked
      → ((ci : ComputeInstance) → cluster.update ci ≡ ok ci)
      → let after = handle_delete kube impatient cluster run in
        (after.0 ≡ done no_requeue)
        × (kube.contains_finalizer after.1.instance.finalizers finalizer ≡ false)
  unfolding new_compute_instance_reconciler has_management_state
  handle_delete-never_waits job run present managed latest id answers stores =
      let over =
        handle_deprovisioning-no_wait impatient cluster refl provider job (marked run) refl managed
          latest id answers in
      rw (remove_base_finalizer-released kube impatient cluster run present over) (
        remove_base_finalizer-free kube impatient cluster
          (handle_deprovisioning impatient cluster (marked run)).1 stores)

-- ===== src/ComputeInstance/Delete.antt =====
-- handleDelete of internal/controller/computeinstance_controller.go.
pub mod Guard
pub mod WithEda
pub mod WithAap
pub mod Unpolled
use cloudkit_operator.Prelude.{
  ℕ, String, List, Bool, not, Option, Result, ok, err, Handler, pure, ltb, if◌then◌else◌, ◌>>=◌,
  ◌>>◌,
}
use cloudkit_operator.Api.Kube.{Kube}
use cloudkit_operator.Api.ComputeInstance.{ComputeInstance, ComputeInstancePhase}
use cloudkit_operator.ComputeInstance.Run.{
  CtrlResult, no_requeue, Reconciler, Cluster, Run, current, modify, update_instance, finalizer,
}
use cloudkit_operator.ComputeInstance.Provisioning.{set_phase}
use cloudkit_operator.ComputeInstance.Deprovisioning.{handle_deprovisioning}

abbrev pub set_finalizers : List String → ComputeInstance → ComputeInstance
set_finalizers fs ci = record ci { finalizers = fs }

module _ {S : Type 0} (kube : Kube) (r : Reconciler S) (cluster : Cluster) where
  remove_base_finalizer : Handler (Run S) CtrlResult
  unfolding update_instance current modify pure
  remove_base_finalizer = do
    ci ← current
    let removed = kube.remove_finalizer ci.finalizers finalizer
    modify (set_finalizers removed.0)
    if removed.1 then update_instance cluster else pure tt
    pure no_requeue

  unfoldable pub handle_delete : Handler (Run S) CtrlResult
  unfolding remove_base_finalizer current modify pure
  handle_delete = do
    modify (set_phase ComputeInstancePhase.deleting)
    ci ← current
    if not (kube.contains_finalizer ci.finalizers finalizer) then pure no_requeue else do
      result ← handle_deprovisioning r cluster
      if ltb 0 result.requeue_after then pure result else remove_base_finalizer

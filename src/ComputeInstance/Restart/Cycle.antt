-- ===== src/ComputeInstance/Restart/Cycle.antt =====
-- The restart of a virtual machine (internal/controller/computeinstance_restart.go), from the request
-- to its completion.
use cloudkit_operator.Prelude.{
  ltb, join_text, lt→ltb, le→ltb, ap, ◌∙◌, ℕ, ◌<◌, ◌≡◌, refl, true, false, Option, none, some, List,
  [], ◌∷◌, ◌++◌, arith, ok, done,
}
use cloudkit_operator.Api.Kube.{Kube, Agrees}
use cloudkit_operator.Api.Condition.{Condition, get_condition, has_status, condition_true}
use cloudkit_operator.Api.ComputeInstance.{
  VirtualMachineReference, restart_in_progress, restart_failed,
}
use cloudkit_operator.ComputeInstance.Run.{
  Cluster, Run, called_delete_vmi, VirtualMachineInstance, no_requeue,
}
use cloudkit_operator.ComputeInstance.Restart.{
  restart_condition, is_processed, handle_restart_request,
}

is_processed-new :
    (requested_at : ℕ) (last : Option ℕ)
    → ((t : ℕ) → last ≡ some t → t < requested_at)
    → is_processed requested_at last ≡ false
unfolding is_processed
is_processed-new requested_at none older = refl
is_processed-new requested_at (some t) older = rw (lt→ltb t requested_at (older t refl)) refl

ltb_self : (n : ℕ) → ltb n n ≡ false
ltb_self n = le→ltb n n (omega arith)

Agrees-has_status :
    (c : Condition) (found : Option Condition)
    → c.status ≡ condition_true
    → Agrees c found
    → has_status condition_true found ≡ true
Agrees-has_status c none is_true agrees = absurd agrees
Agrees-has_status c (some d) is_true (_, same, _, _) = rw (same, is_true) refl

module _ (kube : Kube) where
  marked_true :
      (cs : List Condition) (c : Condition)
      → c.status ≡ condition_true
      → has_status condition_true (get_condition (kube.set_status_condition cs c) c.type) ≡ true
  marked_true cs c is_true = Agrees-has_status c _ is_true (kube.get-set_self cs c)

  cleared_idle :
      (cs : List Condition)
      → kube.is_status_condition_true
          (kube.remove_status_condition
            (kube.remove_status_condition cs restart_in_progress).0
            restart_failed).0
          restart_in_progress
        ≡ false
  cleared_idle cs =
      kube.is_true_lem _ _
      ∙ ap (has_status condition_true) (
          kube.get-remove_ne _ restart_failed restart_in_progress refl
          ∙ kube.get-remove_self cs restart_in_progress)

module _ {S : Type 0} (kube : Kube) (cluster : Cluster) where
  -- A restart was requested that is not processed yet, and no restart is in progress.
  pub record IsNewRequest (run : Run S) (requested_at : ℕ) : Type 0 where
    pub requested : run.instance.spec.restart_requested_at ≡ some requested_at
    pub idle :
        kube.is_status_condition_true run.instance.status.conditions restart_in_progress ≡ false
    pub unprocessed :
        (last : ℕ) → run.instance.status.last_restarted_at ≡ some last → last < requested_at

  -- If a restart was requested later than the last one that is recorded and none is in progress, the
  -- reference to the virtual machine is set, its virtual machine instance is found and deleting that
  -- one succeeds, then handling the request deletes the instance once, marks the restart as in
  -- progress and not failed, and does not yet record it as done.
  pub handle_restart_request-starts :
      (run : Run S) (requested_at : ℕ) (ref : VirtualMachineReference)
      (vmi : VirtualMachineInstance)
      → IsNewRequest run requested_at
      → run.instance.status.virtual_machine_reference ≡ some ref
      → cluster.get_vmi ref.namespace ref.kube_virt_virtual_machine_name ≡ ok vmi
      → cluster.delete_vmi ref.namespace ref.kube_virt_virtual_machine_name ≡ ok tt
      → let run' = (handle_restart_request kube cluster run).1 in
        (run'.calls
          ≡ run.calls ++ called_delete_vmi ref.namespace ref.kube_virt_virtual_machine_name ∷ [])
        × (run'.instance.status.last_restarted_at ≡ run.instance.status.last_restarted_at)
        × (has_status condition_true
              (get_condition run'.instance.status.conditions restart_in_progress)
            ≡ true)
        × (get_condition run'.instance.status.conditions restart_failed ≡ none)
  unfolding handle_restart_request
  handle_restart_request-starts run requested_at ref vmi new has_ref there gone =
      let fresh =
        is_processed-new requested_at run.instance.status.last_restarted_at new.unprocessed in
      (
        rw (new.requested, new.idle, fresh, has_ref, there, gone) refl,
        rw (new.requested, new.idle, fresh, has_ref, there, gone) refl,
        rw (new.requested, new.idle, fresh, has_ref, there, gone)
            (ap (has_status condition_true)
                (kube.get-remove_ne _ restart_failed restart_in_progress refl)
              ∙ marked_true kube run.instance.status.conditions
                  (restart_condition run.instance restart_in_progress "RestartInProgress"
                    (join_text "Restart initiated at " (cluster.format_time requested_at)))
                  refl),
        rw (new.requested, new.idle, fresh, has_ref, there, gone) (kube.get-remove_self _ _),
      )

  -- Once the instance was created after the request, handling the request in progress records it as
  -- done, takes off both conditions and calls for nothing; and then handling it again does nothing.
  pub handle_restart_request-completes :
      (run : Run S) (requested_at : ℕ) (ref : VirtualMachineReference)
      (vmi : VirtualMachineInstance)
      → run.instance.spec.restart_requested_at ≡ some requested_at
      → kube.is_status_condition_true run.instance.status.conditions restart_in_progress ≡ true
      → run.instance.status.virtual_machine_reference ≡ some ref
      → cluster.get_vmi ref.namespace ref.kube_virt_virtual_machine_name ≡ ok vmi
      → requested_at < vmi.creation_timestamp
      → let run' = (handle_restart_request kube cluster run).1 in
        (run'.calls ≡ run.calls)
        × (run'.instance.status.last_restarted_at ≡ some requested_at)
        × (get_condition run'.instance.status.conditions restart_in_progress ≡ none)
        × (get_condition run'.instance.status.conditions restart_failed ≡ none)
        × (handle_restart_request kube cluster run' ≡ (done no_requeue, run'))
  unfolding handle_restart_request
  handle_restart_request-completes run requested_at ref vmi requested busy has_ref there newer =
      let created = lt→ltb requested_at vmi.creation_timestamp newer in
      (
        rw (requested, busy, has_ref, there, created) refl,
        rw (requested, busy, has_ref, there, created) refl,
        rw (requested, busy, has_ref, there, created)
            (kube.get-remove_ne _ restart_failed restart_in_progress refl
              ∙ kube.get-remove_self _ _),
        rw (requested, busy, has_ref, there, created) (kube.get-remove_self _ _),
        rw (requested, busy, has_ref, there, created)
            (rw (cleared_idle kube run.instance.status.conditions, ltb_self requested_at) refl),
      )

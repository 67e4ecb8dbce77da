-- ===== src/Feedback/ComputeInstances/Quiet.antt =====
-- When the feedback controller of instances
-- (internal/controller/computeinstance_feedback_controller.go) has nothing more to say.
use cloudkit_operator.Prelude.{
  ℕ, String, ◌≡◌, refl, ap, ◌∙◌, not, true, some, none, done, pure, go_on,
}
use cloudkit_operator.Api.Kube.{Kube}
use cloudkit_operator.Controller.{current, asking, modify}
use cloudkit_operator.Feedback.ComputeInstances.{
  FeedbackApi, FeedbackScope, Record, RecordStatus, feedback_finalizer, fetch_compute_instance,
  save_compute_instance, handle, handle_update, release, is_releasable, reconcile_labelled,
  sync_state, set_finalizers,
}
use cloudkit_operator.Feedback.ComputeInstances.Sync.{sync_state-idle}

module _ {W R : Type 0} (kube : Kube) (api : FeedbackApi W R)
    (equal_refl : (ci : Record R) → api.equal ci ci ≡ true) where
  save_compute_instance-same :
      (before after : Record R) (s : FeedbackScope W R)
      → after ≡ before
      → save_compute_instance kube api before after s ≡ (done tt, s)
  unfolding save_compute_instance pure
  save_compute_instance-same before after s same =
      rw (ap (λ r. api.equal r before) same ∙ equal_refl before) refl

  -- A reconcile asks for nothing when the record of the service already holds what an earlier sync of
  -- the same object has written, the object has the controller's finalizer and is not being deleted,
  -- and proto.Equal holds of a record and itself.
  pub reconcile_labelled-quiet :
      (id : String) (s : FeedbackScope W R) (earlier : ℕ) (rest : R) (old : RecordStatus)
      → s.instance.deletion_timestamp ≡ none
      → kube.contains_finalizer s.instance.finalizers feedback_finalizer ≡ true
      → (api.fetch id s.world).0
        ≡ done (record { rest = rest; status = some (sync_state earlier s.instance old) })
      → (reconcile_labelled kube api (some id) s).1.calls ≡ s.calls
  unfolding reconcile_labelled current fetch_compute_instance asking handle handle_update modify
      pure release is_releasable sync_state
  reconcile_labelled-quiet id s earlier rest old live present fetched =
      let ci : Record R = record {
        rest = api.with_spec rest;
        status = sync_state earlier s.instance old;
      } in
      let synced : Record R = record ci { status = sync_state api.now s.instance ci.status } in
      let reported = kube.add_reports s.instance.finalizers feedback_finalizer ∙ ap not present in
      let added = kube.add_finalizer s.instance.finalizers feedback_finalizer in
      let t : FeedbackScope W R = record s {
        instance = set_finalizers added.0 (record s.instance { deletion_timestamp = none });
        world = (api.fetch id s.world).1;
      } in
      let saved = save_compute_instance-same ci synced t (
        ap (λ status. record ci { status = status })
          (sync_state-idle earlier api.now s.instance old)) in
      rw (fetched, live, reported)
        (ap (λ p. (go_on p.0 (λ done_saving. release kube api id) p.1).1.calls) saved)

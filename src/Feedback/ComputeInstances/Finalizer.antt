-- ===== src/Feedback/ComputeInstances/Finalizer.antt =====
-- When the feedback controller of instances
-- (internal/controller/computeinstance_feedback_controller.go) takes its finalizer off an object.
use mathlib.Core.Path.{subst}
use cloudkit_operator.Prelude.{
  ℕ, String, ◌≡◌, refl, ap, sym, ◌∙◌, ◌⊎◌, true, Bool-cases, Outcome-cases, Option, some, done, inl,
  inr, Handler, ◌>>=◌, ◌>>◌, is_present, pure,
}
use cloudkit_operator.Api.Kube.{Kube}
use cloudkit_operator.Api.ComputeInstance.{ComputeInstance}
use cloudkit_operator.Controller.{current, asking, telling}
use cloudkit_operator.Feedback.ComputeInstances.{
  FeedbackApi, FeedbackScope, Fetched, status_or_empty, Record, feedback_finalizer,
  fetch_compute_instance, save_compute_instance, handle, handle_delete, release, is_single,
  is_releasable, reconcile_labelled, sync_state,
}

module _ {W R : Type 0} (kube : Kube) (api : FeedbackApi W R) where
  -- the record that is saved for an object that is being deleted
  abbrev pub deleting_record : ComputeInstance → Record R → Record R
  unfolding sync_state
  deleting_record o ci = record ci { status = sync_state api.now o ci.status }

  -- the record of an answer of the service
  abbrev pub record_of : Fetched R → Record R
  record_of fetched = record {
    rest = api.with_spec fetched.rest;
    status = status_or_empty fetched.status;
  }

  -- The service has the record: there was nothing to save, or saving it succeeded.
  abbrev pub IsStored : Record R → Record R → W → Type 0
  IsStored before after world =
      (api.equal after before ≡ true) ⊎ ((api.save after world).0 ≡ done tt)

  -- The finalizers are as before, or there was only one, it was the controller's own, and the service
  -- had answered with the record and has its synced state.
  pub data Removed (id : String) (s t : FeedbackScope W R) : Type 0 where
    kept : t.instance.finalizers ≡ s.instance.finalizers → Removed id s t
    removed :
        (fetched : Fetched R)
        → (api.fetch id s.world).0 ≡ done fetched
        → IsStored
            (record_of fetched)
            (deleting_record s.instance (record_of fetched))
            (api.fetch id s.world).1
        → is_single kube api s.instance.finalizers ≡ true
        → kube.contains_finalizer s.instance.finalizers feedback_finalizer ≡ true
        → Removed id s t

  save-IsStored :
      (before after : Record R) (s : FeedbackScope W R)
      → (save_compute_instance kube api before after s).0 ≡ done tt
      → IsStored before after s.world
  unfolding save_compute_instance pure telling
  save-IsStored before after s h = elim (Bool-cases (api.equal after before)) [
    | inl same ↦ inl same
    | inr other ↦ inr (rw other at h)
  ]

  save-instance :
      (before after : Record R) (s : FeedbackScope W R)
      → (save_compute_instance kube api before after s).1.instance ≡ s.instance
  unfolding save_compute_instance
  save-instance before after s = elim (Bool-cases (api.equal after before)) [
    | inl same ↦ rw same refl
    | inr other ↦ rw other refl
  ]

  release-finalizers :
      (id : String) (s : FeedbackScope W R)
      → ((release kube api id s).1.instance.finalizers ≡ s.instance.finalizers)
        ⊎ (is_single kube api s.instance.finalizers ≡ true)
          × (kube.contains_finalizer s.instance.finalizers feedback_finalizer ≡ true)
  unfolding release is_releasable current pure
  release-finalizers id s = elim (Bool-cases (is_present s.instance.deletion_timestamp)) [
    | inr live ↦ inl (rw live refl)
    | inl deleting ↦
        elim (Bool-cases (kube.contains_finalizer s.instance.finalizers feedback_finalizer)) [
          | inr absent ↦ inl (rw (deleting, absent) refl)
          | inl present ↦ elim (Bool-cases (is_single kube api s.instance.finalizers)) [
            | inr several ↦ inl (rw (deleting, present, several) refl)
            | inl single ↦ inr (single, present)
          ]
        ]
  ]

  -- what follows the fetch
  abbrev after_fetch : String → Record R → Option ℕ → Handler (FeedbackScope W R) (Unit {0})
  after_fetch id ci deletion_timestamp = handle kube api deletion_timestamp ci >>= λ after.
      save_compute_instance kube api ci after >> release kube api id

  abbrev IsLast : ComputeInstance → Type 0
  IsLast o =
      (is_single kube api o.finalizers ≡ true)
      × (kube.contains_finalizer o.finalizers feedback_finalizer ≡ true)

  saving :
      (id : String) (ci : Record R) (t : FeedbackScope W R) (d : ℕ)
      → ((after_fetch id ci (some d) t).1.instance.finalizers ≡ t.instance.finalizers)
        ⊎ ((save_compute_instance kube api ci (deleting_record t.instance ci) t).0 ≡ done tt)
          × IsLast t.instance
  unfolding handle handle_delete current pure
  saving id ci t d =
      let save = save_compute_instance kube api ci (deleting_record t.instance ci) in
      let same =
        ap (λ (o : ComputeInstance). o.finalizers)
          (save-instance ci (deleting_record t.instance ci) t) in
      elim (Outcome-cases (save t).0) [
        | inr (inl (x, e)) ↦ inl (rw e same)
        | inr (inr e) ↦ inl (rw e same)
        | inl (a, e) ↦ elim (release-finalizers id (save t).1) [
          | inl unchanged ↦ inl (rw e (unchanged ∙ same))
          | inr last ↦
              inr (e, subst IsLast (save-instance ci (deleting_record t.instance ci) t) last)
        ]
      ]

  -- During a deletion, the controller changes the finalizers of an object with an identifier only if
  -- its own is the only one left, the service has answered with the record, and the record with the
  -- object's last state is equal to the one in the answer or was saved with success.
  pub reconcile_labelled-Removed :
      (id : String) (s : FeedbackScope W R) (d : ℕ)
      → s.instance.deletion_timestamp ≡ some d
      → Removed id s (reconcile_labelled kube api (some id) s).1
  unfolding reconcile_labelled current fetch_compute_instance asking pure
  reconcile_labelled-Removed id s d deleting = elim (Outcome-cases (api.fetch id s.world).0) [
    | inr (inl (x, e)) ↦ kept (rw e refl)
    | inr (inr e) ↦ kept (rw e refl)
    | inl (fetched, e) ↦
        let t : FeedbackScope W R = record s { world = (api.fetch id s.world).1 } in
        let ci = record_of fetched in
        rw e (
          subst (λ at. Removed id s (after_fetch id ci at t).1) (sym deleting)
            (elim (saving id ci t d) [
              | inl unchanged ↦ kept unchanged
              | inr (saved, (single, present)) ↦
                  removed fetched e (save-IsStored ci (deleting_record s.instance ci) t saved)
                    single present
            ]))
  ]

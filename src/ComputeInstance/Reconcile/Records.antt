-- ===== src/ComputeInstance/Reconcile/Records.antt =====
-- What Reconcile (internal/controller/computeinstance_controller.go) writes and leaves alone.
use cloudkit_operator.Prelude.{
  ap, lift, raise, Handler, ◌>>◌, ◌≡◌, refl, true, false, [], ◌∷◌, ◌++◌, Result, ok, err,
  api_not_found, String, done, failed, panicked, Outcome, ◌≢◌, inl, inr, ◌⊎◌,
}
use cloudkit_operator.Api.Kube.{Kube}
use cloudkit_operator.Api.ComputeInstance.{ComputeInstance}
use cloudkit_operator.ComputeInstance.Run.{
  CtrlResult, Reconciler, Cluster, Run, called_update_status, has_management_state, no_requeue,
}
use cloudkit_operator.ComputeInstance.Reconcile.{
  update_status_with_retry, handle, reconcile_instance, reconcile, write_latest,
}

-- the outcome of Reconcile, from that of its handler and that of the write of the status
abbrev pub recorded : Outcome CtrlResult → Result (Unit {0}) → Outcome CtrlResult
recorded outcome (ok _) = outcome
recorded outcome (err e) = failed e

module _ {S : Type 0} where
  lifted-ends :
      (run : Run S) (outcome : Outcome CtrlResult) (k : Handler (Run S) CtrlResult)
      (w : Result (Unit {0}))
      → ((after : Run S) → k after ≡ (outcome, after))
      → (lift w >> k) run ≡ (recorded outcome w, run)
  unfolding lift
  lifted-ends run outcome k (ok _) ends = ends run
  lifted-ends run outcome k (err x) ends = refl

module _ {S : Type 0} (cluster : Cluster) where
  update_status-ends :
      (run : Run S) (outcome : Outcome CtrlResult) (k : Handler (Run S) CtrlResult)
      → ((after : Run S) → k after ≡ (outcome, after))
      → (update_status_with_retry cluster run.instance.status >> k) run ≡ (
        recorded outcome (
            cluster.retry_on_conflict
              (λ n. write_latest cluster run.instance.status n (cluster.get_latest n))),
        record run { calls = run.calls ++ called_update_status run.instance.status ∷ [] },
      )
  unfolding update_status_with_retry
  update_status-ends run outcome k ends = lifted-ends _ outcome k _ ends

module _ {S : Type 0} (kube : Kube) (r : Reconciler S) (cluster : Cluster) where
  -- A handler that ends with an error and one that does not are treated alike: a status that it
  -- changed is written, as the last call, and its outcome is returned if the write succeeds, the
  -- error of the write if not.
  pub reconcile_instance-records :
      (run : Run S) (outcome : Outcome CtrlResult) (handled : Run S)
      → has_management_state "unmanaged" run.instance ≡ false
      → handle kube r cluster run.instance.deletion_timestamp run ≡ (outcome, handled)
      → outcome ≢ panicked
      → cluster.deep_equal handled.instance.status run.instance.status ≡ false
      → ((reconcile_instance kube r cluster run).1 ≡ record handled {
        calls = handled.calls ++ called_update_status handled.instance.status ∷ [];
      })
        × ((reconcile_instance kube r cluster run).0
            ≡ recorded outcome (
                cluster.retry_on_conflict
                  (λ n. write_latest cluster handled.instance.status n (cluster.get_latest n))))
  unfolding reconcile_instance raise
  reconcile_instance-records run (done result) handled managed e returned changed =
      let end = update_status-ends cluster handled (done result) _ (λ after. refl) in
      rw (managed, e, changed) (ap (λ p. p.1) end, ap (λ p. p.0) end)
  reconcile_instance-records run (failed x) handled managed e returned changed =
      let end = update_status-ends cluster handled (failed x) _ (λ after. refl) in
      rw (managed, e, changed) (ap (λ p. p.1) end, ap (λ p. p.0) end)
  reconcile_instance-records run panicked handled managed e returned changed =
      absurd (returned refl)

  -- An instance that is gone, or that is marked as unmanaged, is reconciled without a call and
  -- without touching the provider.
  pub reconcile-ignores :
      (backend : S)
      → ((text : String) × (cluster.get ≡ err (api_not_found text)))
        ⊎ ((ci : ComputeInstance) × (cluster.get ≡ ok ci)
            × (has_management_state "unmanaged" ci ≡ true))
      → reconcile kube r cluster backend ≡ (done no_requeue, backend, [])
  unfolding reconcile
  reconcile-ignores backend (inl (text, e)) = rw e refl
  reconcile-ignores backend (inr (ci, e, unmanaged)) = rw (e, unmanaged) refl

-- ===== src/Tenant/Rounds.antt =====
-- How long the deletion of a tenant (handleDelete of internal/controller/tenant_controller.go) takes.
use mathlib.Core.Path.{subst}
use cloudkit_operator.Prelude.{
  ℕ, zero, suc, ◌<◌, ap, ◌≡◌, ◌∙◌, refl, sym, arith, ◌⊎◌, inl, inr, String, ◌==◌, true, false, Bool,
  Bool-cases, some, done, failed, Outcome, GoError, Handler, as_api_not_found, is_present,
  if◌then◌else◌, pure, ◌>>◌,
}
use cloudkit_operator.Controller.{Namespace, found, asking, current, modify}
use cloudkit_operator.Api.Kube.{Kube}
use cloudkit_operator.Api.Tenant.{Tenant, TenantPhase}
use cloudkit_operator.Tenant.Resources.{
  TenantApi, TenantScope, UserDefinedNetwork, delete_found_udn, delete_found_namespace,
  delete_tenant_udn, delete_tenant_namespace,
}
use cloudkit_operator.Tenant.Handlers.{
  tenant_finalizer, set_phase, set_finalizers, handle_delete, remove_finalizer, update,
}

module _ {W : Type 0} (api : TenantApi W) (tick : W → W) (rank : W → ℕ) where
  abbrev pub IsAbsent : {A : Type 0} → Handler W A → W → Type 0
  IsAbsent m w = (e : GoError) × (m w ≡ (failed e, w)) × (is_present (as_api_not_found e) ≡ true)

  abbrev pub IsDeleting : {A : Type 0} → Handler W A → Handler W (Unit {0}) → A → W → Type 0
  IsDeleting get delete a w =
      (get w ≡ (done a, w)) × ((delete w).0 ≡ done tt) × (rank (tick (delete w).1) < rank w)

  abbrev pub IsEnding : {A : Type 0} → Handler W A → A → W → Type 0
  IsEnding get a w = (get w ≡ (done a, w)) × (rank (tick w) < rank w)

  -- A cluster in which lookups change nothing, in which a deletion that is asked for is accepted, and
  -- in which what is being deleted comes nearer to its end from one reconcile to the next.
  pub record Settles : Type 0 where
    pub udn :
        (ns : String) (w : W)
        → IsAbsent (api.get_udn "udn" ns) w
          ⊎ ((u : UserDefinedNetwork) × IsDeleting (api.get_udn "udn" ns) (api.delete_udn u) u w)
    pub namespace :
        (ns : String) (w : W)
        → IsAbsent (api.get_namespace ns) w
          ⊎ ((n : Namespace) × (n.is_terminating ≡ true) × IsEnding (api.get_namespace ns) n w)
          ⊎ ((n : Namespace) × (n.is_terminating ≡ false)
              × IsDeleting (api.get_namespace ns) (api.delete_namespace n) n w)
    pub echoes : (t : Tenant) (w : W) → (api.update t w).0 ≡ done t

module _ {W : Type 0} (api : TenantApi W) (tick : W → W) (rank : W → ℕ)
    (settles : Settles api tick rank) where
  -- nothing is there, or it comes nearer to its end
  abbrev Advances : Handler (TenantScope W) Bool → TenantScope W → Type 0
  Advances m s =
      (m s ≡ (done false, s)) ⊎ ((m s).0 ≡ done true) × (rank (tick (m s).1.world) < rank s.world)

  delete_tenant_udn-Advances : (s : TenantScope W) → Advances (delete_tenant_udn api) s
  unfolding delete_tenant_udn delete_found_udn found asking current
  delete_tenant_udn-Advances s = elim (Bool-cases (s.instance.status.namespace == "")) [
    | inl no_name ↦ inl (rw no_name refl)
    | inr named ↦ elim (settles.udn s.instance.status.namespace s.world) [
      | inl (e, missing, gone) ↦ inl (rw (named, missing, gone) refl)
      | inr (u, (there, ok, nearer)) ↦
          inr (rw (named, there, ok) refl, rw (named, there, ok) nearer)
    ]
  ]

  delete_found_namespace-ending :
      (n : Namespace) (s : TenantScope W)
      → n.is_terminating ≡ true
      → ((delete_found_namespace api (some n) s).0 ≡ done true)
        × ((delete_found_namespace api (some n) s).1.world ≡ s.world)
  unfolding delete_found_namespace
  delete_found_namespace-ending n s ending = rw ending (refl, refl)

  delete_found_namespace-live :
      (n : Namespace) (s : TenantScope W)
      → n.is_terminating ≡ false
      → (api.delete_namespace n s.world).0 ≡ done tt
      → ((delete_found_namespace api (some n) s).0 ≡ done true)
        × ((delete_found_namespace api (some n) s).1.world ≡ (api.delete_namespace n s.world).1)
  unfolding delete_found_namespace asking pure
  delete_found_namespace-live n s live ok =
      subst
        (λ (p : Outcome Bool × TenantScope W).
          (p.0 ≡ done true) × (p.1.world ≡ (api.delete_namespace n s.world).1))
        (sym (
          ap (λ b. ((if b then pure tt else asking (api.delete_namespace n)) >> pure true) s) live))
        (rw ok (refl, refl))

  delete_tenant_namespace-Advances : (s : TenantScope W) → Advances (delete_tenant_namespace api) s
  unfolding delete_tenant_namespace found asking current
  delete_tenant_namespace-Advances s = elim (Bool-cases (s.instance.status.namespace == "")) [
    | inl no_name ↦ inl (rw no_name refl)
    | inr named ↦ elim (settles.namespace s.instance.status.namespace s.world) [
      | inl (e, missing, gone) ↦ inl (rw (named, missing, gone) refl)
      | inr (inl (n, ending, (there, nearer))) ↦
          let (still, world) = delete_found_namespace-ending n s ending in
          inr (
            rw (named, there) still,
            rw (named, there) (subst (λ w. rank (tick w) < rank s.world) (sym world) nearer),
          )
      | inr (inr (n, live, (there, ok, nearer))) ↦
          let (still, world) = delete_found_namespace-live n s live ok in
          inr (
            rw (named, there) still,
            rw (named, there) (subst (λ w. rank (tick w) < rank s.world) (sym world) nearer),
          )
    ]
  ]

  remove_finalizer-removes :
      (kube : Kube) (s : TenantScope W)
      → kube.contains_finalizer s.instance.finalizers tenant_finalizer ≡ true
      → kube.contains_finalizer (remove_finalizer kube api s).1.instance.finalizers tenant_finalizer
        ≡ false
  unfolding remove_finalizer update current modify asking
  remove_finalizer-removes kube s present =
      let fs = kube.remove_finalizer s.instance.finalizers tenant_finalizer in
      let reported = kube.remove_reports s.instance.finalizers tenant_finalizer ∙ present in
      let freed = set_finalizers fs.0 s.instance in
      rw (reported, settles.echoes freed s.world)
        (kube.contains-remove_self s.instance.finalizers tenant_finalizer)

module _ {W : Type 0} (kube : Kube) (api : TenantApi W) (tick : W → W) (rank : W → ℕ)
    (settles : Settles api tick rank) where
  abbrev pub has_finalizer : TenantScope W → Bool
  has_finalizer s = kube.contains_finalizer s.instance.finalizers tenant_finalizer

  -- a handleDelete, and the time until the next one
  abbrev pub round : TenantScope W → TenantScope W
  round s = let s' = (handle_delete kube api s).1 in record s' { world = tick s'.world }

  abbrev pub rounds : ℕ → TenantScope W → TenantScope W
  rounds zero s = s
  rounds (suc n) s = rounds n (round s)

  round-stays : (s : TenantScope W) → has_finalizer s ≡ false → has_finalizer (round s) ≡ false
  unfolding handle_delete current modify
  round-stays s free = rw free free

  round-advances :
      (s : TenantScope W) → (has_finalizer (round s) ≡ false) ⊎ rank (round s).world < rank s.world
  unfolding handle_delete current modify
  round-advances s = elim (Bool-cases (has_finalizer s)) [
    | inr free ↦ inl (round-stays s free)
    | inl present ↦
        let marked = record s { instance = set_phase TenantPhase.deleting s.instance } in
        elim (delete_tenant_udn-Advances api tick rank settles marked) [
          | inr (still, nearer) ↦ inr (rw (present, still) nearer)
          | inl no_udn ↦ elim (delete_tenant_namespace-Advances api tick rank settles marked) [
            | inr (still, nearer) ↦ inr (rw (present, no_udn, still) nearer)
            | inl no_namespace ↦ inl (
                rw (present, no_udn, no_namespace)
                  (remove_finalizer-removes api tick rank settles kube marked present))
          ]
        ]
  ]

  rounds-stays :
      (n : ℕ) (s : TenantScope W) → has_finalizer s ≡ false → has_finalizer (rounds n s) ≡ false
  rounds-stays zero s free = free
  rounds-stays (suc n) s free = rounds-stays n (round s) (round-stays s free)

  -- In a cluster that settles, the finalizer of a tenant that is being deleted is gone after more
  -- rounds of handleDelete than the rank of the cluster's state.
  pub rounds-ends :
      (n : ℕ) (s : TenantScope W) → rank s.world < n → has_finalizer (rounds n s) ≡ false
  rounds-ends zero s h = absurd (omega arith)
  rounds-ends (suc n) s h = elim (round-advances s) [
    | inl free ↦ rounds-stays n (round s) free
    | inr nearer ↦ rounds-ends n (round s) (omega arith)
  ]

-- ===== src/ClusterOrder/Reference/Seen.antt =====
-- What the ClusterOrder controller writes of a hosted cluster and of its node pools keeps the cluster
-- reference (handleHostedCluster of internal/controller/clusterorder_controller.go).
use cloudkit_operator.Prelude.{
  ℕ, ◌≡◌, refl, ap, sym, ◌∙◌, String, List, [], ◌∷◌, Option, none, some, Bool-cases, inl, inr,
}
use cloudkit_operator.Api.Kube.{Kube}
use cloudkit_operator.Api.Condition.{condition_true}
use cloudkit_operator.Api.ClusterOrder.{
  ClusterOrder, NodeRequest, ensure_cluster_reference, ensured, set_status_condition,
  set_cluster_reference_hosted_cluster_name,
}
use cloudkit_operator.ClusterOrder.Resources.{HostedCluster, NodePool}
use cloudkit_operator.ClusterOrder.Observed.{
  observe_hosted_cluster, mark_available, mark_ready, hosted_cluster_is_ready,
  hosted_cluster_control_plane_is_available, handle_node_pool, handle_node_pools, for_requests,
  written, as_expected,
}
use cloudkit_operator.ClusterOrder.Reference.{IsReferenced}

-- the reference is read from one field
pub IsReferenced-reference :
    (co co' : ClusterOrder)
    → co'.status.cluster_reference ≡ co.status.cluster_reference
    → IsReferenced co
    → IsReferenced co'
unfolding ensure_cluster_reference
IsReferenced-reference co co' e h = record {
  namespace = λ unnamed. h.namespace (ap (λ r. (ensured r).namespace) (sym e) ∙ unnamed);
  service_account = ap (λ r. (ensured r).service_account_name) e ∙ h.service_account;
  role_binding = ap (λ r. (ensured r).role_binding_name) e ∙ h.role_binding;
}

IsReferenced-hosted :
    (name : String) (co : ClusterOrder)
    → IsReferenced co
    → IsReferenced (set_cluster_reference_hosted_cluster_name name co)
unfolding set_cluster_reference_hosted_cluster_name ensure_cluster_reference ensured
IsReferenced-hosted name co h = record {
  namespace = h.namespace;
  service_account = h.service_account;
  role_binding = h.role_binding;
}

module _ (kube : Kube) where
  mark_ready-reference :
      (hc : HostedCluster) (co : ClusterOrder)
      → (mark_ready kube hc co).status.cluster_reference ≡ co.status.cluster_reference
  unfolding mark_ready set_status_condition
  mark_ready-reference hc co = elim (Bool-cases (hosted_cluster_is_ready kube hc)) [
    | inl ready ↦ rw ready refl
    | inr unready ↦ rw unready refl
  ]

  mark_available-reference :
      (hc : HostedCluster) (co : ClusterOrder)
      → (mark_available kube hc co).status.cluster_reference ≡ co.status.cluster_reference
  unfolding mark_available set_status_condition
  mark_available-reference hc co =
      elim (Bool-cases (hosted_cluster_control_plane_is_available kube hc)) [
        | inl available ↦ rw available (
            mark_ready-reference hc
              (set_status_condition kube co "ControlPlaneAvailable" condition_true "" as_expected))
        | inr unavailable ↦ rw unavailable refl
      ]

  pub observe_hosted_cluster-IsReferenced :
      (hc : HostedCluster) (co : ClusterOrder)
      → IsReferenced co
      → IsReferenced (observe_hosted_cluster kube hc co)
  unfolding observe_hosted_cluster set_status_condition
  observe_hosted_cluster-IsReferenced hc co h =
      let hosted = set_cluster_reference_hosted_cluster_name hc.name co in
      IsReferenced-reference hosted (observe_hosted_cluster kube hc co)
        (mark_available-reference hc
          (set_status_condition kube hosted "ControlPlaneCreated" condition_true "" as_expected))
        (IsReferenced-hosted hc.name co h)

written-reference :
    (co : ClusterOrder) (class : String) (n : ℕ) (o : Option (List NodeRequest))
    → (written co class n o).status.cluster_reference ≡ co.status.cluster_reference
unfolding written
written-reference co class n none = refl
written-reference co class n (some requests) = refl

for_requests-reference :
    (co : ClusterOrder) (pool : NodePool) (requests : List NodeRequest)
    → (for_requests co pool requests).status.cluster_reference ≡ co.status.cluster_reference
unfolding for_requests
for_requests-reference co pool [] = refl
for_requests-reference co pool (request ∷ []) = written-reference co _ _ _
for_requests-reference co pool (a ∷ b ∷ requests) = refl

pub handle_node_pools-reference :
    (pools : List NodePool) (co : ClusterOrder)
    → (handle_node_pools pools co).status.cluster_reference ≡ co.status.cluster_reference
unfolding handle_node_pools handle_node_pool
handle_node_pools-reference [] co = refl
handle_node_pools-reference (pool ∷ pools) co =
    handle_node_pools-reference pools (handle_node_pool pool co)
    ∙ for_requests-reference co pool co.spec.node_requests

-- ===== src/ClusterOrder/NodePools.antt =====
-- Where handleNodePool (internal/controller/clusterorder_controller.go) counts the nodes of a pool.
use cloudkit_operator.Prelude.{
  ℕ, ◌≡◌, refl, ap, ◌∙◌, String, List, [], ◌∷◌, ◌++◌, none, ◌==◌, false, All,
}
use cloudkit_operator.Api.ClusterOrder.{ClusterOrder, NodeRequest}
use cloudkit_operator.ClusterOrder.Resources.{NodePool}
use cloudkit_operator.ClusterOrder.Observed.{
  handle_node_pool, handle_node_pools, for_requests, written, write_last,
}

write_last-absent :
    (class : String) (n : ℕ) (requests : List NodeRequest)
    → All (λ request. (request.resource_class == class) ≡ false) requests
    → write_last class n requests ≡ none
unfolding write_last
write_last-absent class n [] h = refl
write_last-absent class n (request ∷ requests) (other, others) =
    rw (write_last-absent class n requests others, other) refl

-- with two requests in the spec, every pool is ignored
ignored :
    (pools : List NodePool) (co : ClusterOrder) (a b : NodeRequest)
    → co.spec.node_requests ≡ a ∷ b ∷ []
    → handle_node_pools pools co ≡ co
unfolding handle_node_pools handle_node_pool for_requests
ignored [] co a b h = refl
ignored (pool ∷ pools) co a b h =
    ap (handle_node_pools pools) (ap (for_requests co pool) h) ∙ ignored pools co a b h

-- When an order asks for one class of nodes and its status does not count that class yet, the node
-- pools leave the status as it is: the first pool's count is appended to the spec, and the other
-- pools are ignored.
pub handle_node_pools-misplaces :
    (pool : NodePool) (pools : List NodePool) (co : ClusterOrder) (request : NodeRequest)
    → co.spec.node_requests ≡ request ∷ []
    → All
        (λ counted. (counted.resource_class == request.resource_class) ≡ false)
        co.status.node_requests
    → handle_node_pools (pool ∷ pools) co ≡ record co {
      spec = record co.spec {
        node_requests =
            request
            ∷ record { resource_class = request.resource_class; number_of_nodes = pool.replicas }
            ∷ [];
      };
    }
unfolding handle_node_pools handle_node_pool for_requests written
handle_node_pools-misplaces pool pools co request h absent =
    let class = request.resource_class in
    let added : NodeRequest = record { resource_class = class; number_of_nodes = pool.replicas } in
    let counted = record co { spec = record co.spec { node_requests = request ∷ added ∷ [] } } in
    let uncounted = write_last-absent class pool.replicas co.status.node_requests absent in
    ap (handle_node_pools pools) (
      ap (for_requests co pool) h
      ∙ ap (written co class pool.replicas) uncounted
      ∙ ap
          (λ requests. record co {
            spec = record co.spec { node_requests = requests ++ added ∷ [] };
          })
          h)
    ∙ ignored pools counted request added refl

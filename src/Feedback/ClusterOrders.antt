-- ===== src/Feedback/ClusterOrders.antt =====
-- internal/controller/feedback_controller.go. A record of the fulfillment service is what the code
-- reads and writes of it: the rest, `R`, is not touched. The node sets of its spec are a list, in the
-- order in which Go iterates over the map; those of its status are an association list.
pub mod Conditions
use cloudkit_operator.Prelude.{
  ℕ, ◌-◌, ◌%◌, ◌^◌, String, Bool, true, false, ◌||◌, Option, none, some, List, [], ◌∷◌, ◌==◌,
  lookup, is_present, if◌then◌else◌, join_text, Result, ok, err, Handler, attempt, pure, raise,
  as_api_not_found, ltb, ◌>>=◌, ◌>>◌,
}
use cloudkit_operator.Strconv.{itoa, ℤ, pos, negsuc}
use cloudkit_operator.Api.ClusterOrder.{
  ClusterOrder, ClusterOrderPhase, ClusterReference, NodeRequest,
}
use cloudkit_operator.Feedback.{RecordCondition, sync_listed}

-- the states that the code sets, and the others
pub data ClusterState : Type 0 where
  unset progressing failed ready : ClusterState

-- The size is Go's int32.
pub record NodeSet : Type 0 where
  pub id : String
  pub host_class : String
  pub size : ℤ

pub record RecordStatus : Type 0 where
  pub conditions : List RecordCondition
  pub state : ClusterState
  pub api_url : String
  pub console_url : String
  pub node_sets : List NodeSet

pub record Fetched (R : Type 0) : Type 0 where
  pub rest : R
  pub spec_node_sets : List NodeSet
  pub status : Option RecordStatus

pub record Record (R : Type 0) : Type 0 where
  pub rest : R
  pub spec_node_sets : List NodeSet
  pub status : RecordStatus

-- the fields that are read of a HostedCluster
pub record HostedClusterView : Type 0 where
  pub name : String
  pub base_domain : String
  pub host : String
  pub port : ℕ

-- The hub's client and the service's, proto.Equal, SetSpec of an empty spec on a record without one,
-- and timestamppb.Now
pub record FeedbackApi (W R : Type 0) : Type 0 where
  pub get : Handler W ClusterOrder
  pub get_hosted_cluster : String → String → Handler W HostedClusterView
  pub fetch : String → Handler W (Fetched R)
  pub with_spec : R → R
  pub save : Record R → Handler W (Unit {0})
  pub equal : Record R → Record R → Bool
  pub now : ℕ

abbrev pub id_label : String
id_label = "cloudkit.openshift.io/clusterorder-uuid"

-- syncCondition: the type of the record's condition that a condition of the order is written to
unfoldable pub kind_of : String → Option String
kind_of type =
    if type == "Accepted"
    then some "PROGRESSING"
    else if type == "Progressing"
    then some "PROGRESSING"
    else if type == "ControlPlaneAvailable"
    then some "PROGRESSING"
    else if type == "Available"
    then some "PROGRESSING"
    else none

-- the first node set of the class
unfoldable pub find_node_set : String → List NodeSet → String
find_node_set class [] = ""
find_node_set class (set ∷ sets) =
    if set.host_class == class then set.id else find_node_set class sets

-- the node set under the key, or a new one, with the size
unfoldable pub put_node_set : String → String → ℤ → List NodeSet → List NodeSet
put_node_set id class size [] = record { id = id; host_class = class; size = size } ∷ []
put_node_set id class size (set ∷ sets) =
    let rest = put_node_set id class size sets in
    if set.id == id then record set { size = size } ∷ sets else set ∷ rest

-- int32 of a number: the lowest 32 bits, of which the highest is the sign
unfoldable pub to_int32 : ℕ → ℤ
to_int32 n =
    if ltb (n % 2 ^ 32) (2 ^ 31) then pos (n % 2 ^ 32) else negsuc (2 ^ 32 - 1 - n % 2 ^ 32)

unfoldable pub sync_node_request : List NodeSet → NodeRequest → List NodeSet → List NodeSet
unfolding find_node_set put_node_set to_int32
sync_node_request spec_sets request sets =
    let id = find_node_set request.resource_class spec_sets in
    if id == ""
    then sets
    else put_node_set id request.resource_class (to_int32 request.number_of_nodes) sets

unfoldable pub sync_node_requests : List NodeSet → List NodeRequest → List NodeSet → List NodeSet
unfolding sync_node_request
sync_node_requests spec_sets [] sets = sets
sync_node_requests spec_sets (request ∷ requests) sets =
    sync_node_requests spec_sets requests (sync_node_request spec_sets request sets)

unfoldable pub calculate_api_url : Option HostedClusterView → String
calculate_api_url none = ""
calculate_api_url (some hc) =
    if (hc.host == "") || (ltb hc.port 1)
    then ""
    else join_text "https://" (join_text hc.host (join_text ":" (itoa hc.port)))

unfoldable pub calculate_console_url : Option HostedClusterView → String
calculate_console_url none = ""
calculate_console_url (some hc) =
    join_text "https://console-openshift-console.apps."
      (join_text hc.name (join_text "." hc.base_domain))

abbrev pub unless_empty : String → String → String
unless_empty url old = if url == "" then old else url

unfoldable pub set_urls : Option HostedClusterView → RecordStatus → RecordStatus
unfolding calculate_api_url calculate_console_url
set_urls hc status = record status {
  api_url = unless_empty (calculate_api_url hc) status.api_url;
  console_url = unless_empty (calculate_console_url hc) status.console_url;
}

abbrev pub status_or_empty : Option RecordStatus → RecordStatus
status_or_empty none = record {
  conditions = [];
  state = ClusterState.unset;
  api_url = "";
  console_url = "";
  node_sets = [];
}
status_or_empty (some status) = status

module _ {W R : Type 0} (api : FeedbackApi W R) where
  hosted_cluster_answer : Result HostedClusterView → Handler W (Option HostedClusterView)
  unfolding pure raise as_api_not_found is_present
  hosted_cluster_answer (ok hc) = pure (some hc)
  hosted_cluster_answer (err e) = if is_present (as_api_not_found e) then pure none else raise e

  unfoldable pub fetch_hosted_cluster :
      Option ClusterReference → Handler W (Option HostedClusterView)
  unfolding pure hosted_cluster_answer
  fetch_hosted_cluster none = pure none
  fetch_hosted_cluster (some reference) =
      if (reference.namespace == "") || (reference.hosted_cluster_name == "") then pure none else do
        answer ← attempt (api.get_hosted_cluster reference.namespace reference.hosted_cluster_name)
        hosted_cluster_answer answer

  set_state : ClusterState → RecordStatus → RecordStatus
  set_state state status = record status { state = state }

  unfoldable pub sync_phase :
      ClusterOrder → ClusterOrderPhase → RecordStatus → Handler W RecordStatus
  unfolding pure fetch_hosted_cluster set_urls set_state
  sync_phase o ClusterOrderPhase.progressing status =
      pure (set_state ClusterState.progressing status)
  sync_phase o ClusterOrderPhase.failed status = pure (set_state ClusterState.failed status)
  sync_phase o ClusterOrderPhase.ready status = do
    hc ← fetch_hosted_cluster o.status.cluster_reference
    pure (set_urls hc (set_state ClusterState.ready status))
  sync_phase o ClusterOrderPhase.deleting status = pure status
  sync_phase o ClusterOrderPhase.unset status = pure status

  unfoldable pub handle_update : ClusterOrder → Record R → Handler W (Record R)
  unfolding pure sync_listed sync_phase sync_node_requests kind_of
  handle_update o cluster = do
    status ← sync_phase o o.status.phase (record cluster.status {
      conditions = sync_listed kind_of api.now o.status.conditions cluster.status.conditions;
    })
    pure (record cluster {
      status = record status {
        node_sets =
            sync_node_requests cluster.spec_node_sets o.status.node_requests status.node_sets;
      };
    })

  -- handleDelete does nothing
  unfoldable pub handle : ClusterOrder → Option ℕ → Record R → Handler W (Record R)
  unfolding pure handle_update
  handle o none cluster = handle_update o cluster
  handle o (some deleted_at) cluster = pure cluster

  unfoldable pub fetch_cluster : String → Handler W (Record R)
  unfolding pure
  fetch_cluster id = do
    fetched ← api.fetch id
    pure (record {
      rest = api.with_spec fetched.rest;
      spec_node_sets = fetched.spec_node_sets;
      status = status_or_empty fetched.status;
    })

  unfoldable pub save_cluster : Record R → Record R → Handler W (Unit {0})
  unfolding pure
  save_cluster before after = if api.equal after before then pure tt else api.save after

  unfoldable pub reconcile_labelled : ClusterOrder → Option String → Handler W (Unit {0})
  unfolding pure fetch_cluster save_cluster handle
  reconcile_labelled o none = pure tt
  reconcile_labelled o (some id) = do
    cluster ← fetch_cluster id
    after ← handle o o.deletion_timestamp cluster
    save_cluster cluster after

  unfoldable pub got : Result ClusterOrder → Handler W (Unit {0})
  unfolding reconcile_labelled as_api_not_found is_present pure raise lookup
  got (err e) = if is_present (as_api_not_found e) then pure tt else raise e
  got (ok o) = reconcile_labelled o (lookup id_label o.labels)

  unfoldable pub reconcile : Handler W (Unit {0})
  unfolding got
  reconcile = do answer ← attempt api.get; got answer

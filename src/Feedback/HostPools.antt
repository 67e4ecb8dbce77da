-- ===== src/Feedback/HostPools.antt =====
-- internal/controller/hostpool_feedback_controller.go. A record of the fulfillment service is what
-- the code reads and writes of it: the rest, `R`, is not touched.
use cloudkit_operator.Prelude.{
  ℕ, String, Bool, Option, none, some, List, [], ◌==◌, lookup, is_present, if◌then◌else◌, Result,
  ok, err, Handler, attempt, pure, raise, as_api_not_found, ◌>>=◌,
}
use cloudkit_operator.Api.HostPool.{
  HostPool, HostPoolPhase, host_pool_condition_accepted, host_pool_condition_progressing,
  host_pool_condition_available, host_pool_condition_deleting,
}
use cloudkit_operator.Feedback.{RecordCondition, sync_listed}

-- the states that the code sets, and the others
pub data HostPoolState : Type 0 where
  unset progressing failed ready : HostPoolState

pub record RecordStatus : Type 0 where
  pub conditions : List RecordCondition
  pub state : HostPoolState

pub record Fetched (R : Type 0) : Type 0 where
  pub rest : R
  pub status : Option RecordStatus

pub record Record (R : Type 0) : Type 0 where
  pub rest : R
  pub status : RecordStatus

-- The hub's client and the service's, proto.Equal, SetSpec of an empty spec on a record without one,
-- and timestamppb.Now
pub record FeedbackApi (W R : Type 0) : Type 0 where
  pub get : Handler W HostPool
  pub fetch : String → Handler W (Fetched R)
  pub with_spec : R → R
  pub save : Record R → Handler W (Unit {0})
  pub equal : Record R → Record R → Bool
  pub now : ℕ

abbrev pub id_label : String
id_label = "cloudkit.openshift.io/hostpool-uuid"

-- syncCondition: the type of the record's condition that a condition of the pool is written to
unfoldable pub kind_of : String → Option String
kind_of type =
    if type == host_pool_condition_accepted
    then some "PROGRESSING"
    else if type == host_pool_condition_progressing
    then some "PROGRESSING"
    else if type == host_pool_condition_available
    then some "READY"
    else if type == host_pool_condition_deleting
    then some "PROGRESSING"
    else none

unfoldable pub sync_phase : HostPoolPhase → HostPoolState → HostPoolState
sync_phase HostPoolPhase.progressing state = HostPoolState.progressing
sync_phase HostPoolPhase.failed state = HostPoolState.failed
sync_phase HostPoolPhase.ready state = HostPoolState.ready
sync_phase HostPoolPhase.deleting state = state
sync_phase HostPoolPhase.unset state = state

unfoldable pub handle_update : ℕ → HostPool → RecordStatus → RecordStatus
unfolding sync_listed sync_phase kind_of
handle_update now o status = record {
  conditions = sync_listed kind_of now o.status.conditions status.conditions;
  state = sync_phase o.status.phase status.state;
}

abbrev pub status_or_empty : Option RecordStatus → RecordStatus
status_or_empty none = record { conditions = []; state = HostPoolState.unset }
status_or_empty (some status) = status

module _ {W R : Type 0} (api : FeedbackApi W R) where
  unfoldable pub fetch_host_pool : String → Handler W (Record R)
  unfolding pure
  fetch_host_pool id = do
    fetched ← api.fetch id
    pure (record { rest = api.with_spec fetched.rest; status = status_or_empty fetched.status })

  unfoldable pub save_host_pool : Record R → Record R → Handler W (Unit {0})
  unfolding pure
  save_host_pool before after = if api.equal after before then pure tt else api.save after

  unfoldable pub reconcile_labelled : HostPool → Option String → Handler W (Unit {0})
  unfolding pure fetch_host_pool save_host_pool handle_update is_present
  reconcile_labelled o none = pure tt
  reconcile_labelled o (some id) = if is_present o.deletion_timestamp then pure tt else do
    host_pool ← fetch_host_pool id
    save_host_pool host_pool
        (record host_pool { status = handle_update api.now o host_pool.status })

  unfoldable pub got : Result HostPool → Handler W (Unit {0})
  unfolding reconcile_labelled as_api_not_found is_present pure raise lookup
  got (err e) = if is_present (as_api_not_found e) then pure tt else raise e
  got (ok o) = reconcile_labelled o (lookup id_label o.labels)

  unfoldable pub reconcile : Handler W (Unit {0})
  unfolding got
  reconcile = do answer ← attempt api.get; got answer

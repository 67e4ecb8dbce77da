-- ===== src/Feedback/ComputeInstances.antt =====
-- internal/controller/computeinstance_feedback_controller.go. A record of the fulfillment service is
-- what the code reads and writes of it: the rest, `R`, is not touched.
pub mod Sync
pub mod Finalizer
pub mod Quiet
use cloudkit_operator.Prelude.{
  ℕ, String, Bool, true, false, ◌&&◌, not, Option, none, some, List, [], ◌∷◌, ◌++◌, ◌==◌, length,
  lookup, is_present, if◌then◌else◌, Result, ok, err, Handler, attempt, pure, raise,
  as_api_not_found, ◌>>=◌, ◌>>◌,
}
use cloudkit_operator.Api.Kube.{Kube}
use cloudkit_operator.Api.Condition.{ConditionStatus, Condition, condition_true}
use cloudkit_operator.Api.ComputeInstance.{
  ComputeInstance, ComputeInstancePhase, accepted, progressing, available, restart_in_progress,
  restart_failed, get_status_condition, is_status_condition_true, is_status_condition_unknown,
}
use cloudkit_operator.Controller.{Scope, current, modify, asking, telling}
use cloudkit_operator.Feedback.{
  SharedStatus, unspecified, shared_false, RecordCondition, map_condition_status, sync_condition,
}

-- the states that the code sets, and the others
pub data ComputeInstanceState : Type 0 where
  unset starting running failed deleting : ComputeInstanceState

pub record RecordStatus : Type 0 where
  pub conditions : List RecordCondition
  pub state : ComputeInstanceState
  pub ip_address : String
  pub last_restarted_at : Option ℕ

-- a response of Get, whose spec and status may not be set
pub record Fetched (R : Type 0) : Type 0 where
  pub rest : R
  pub status : Option RecordStatus

pub record Record (R : Type 0) : Type 0 where
  pub rest : R
  pub status : RecordStatus

pub data FeedbackCall (R : Type 0) : Type 0 where
  called_update : FeedbackCall R
  called_save : Record R → FeedbackCall R
  called_signal : String → FeedbackCall R

-- The hub's client and the service's, proto.Equal, SetSpec of an empty spec on a record without one,
-- and timestamppb.Now
pub record FeedbackApi (W R : Type 0) : Type 0 where
  pub get : Handler W ComputeInstance
  pub update : ComputeInstance → Handler W ComputeInstance
  pub fetch : String → Handler W (Fetched R)
  pub with_spec : R → R
  pub save : Record R → Handler W (Unit {0})
  pub signal : String → Handler W (Unit {0})
  pub equal : Record R → Record R → Bool
  pub now : ℕ

abbrev pub feedback_finalizer : String
feedback_finalizer = "cloudkit.openshift.io/computeinstance-feedback"

abbrev pub id_label : String
id_label = "cloudkit.openshift.io/computeinstance-uuid"

abbrev pub floating_ip_annotation : String
floating_ip_annotation = "cloudkit.openshift.io/floating-ip-address"

-- what syncProgressing writes: a status and a message
abbrev pub written_of : Option Condition → SharedStatus × String
written_of none = (shared_false, "")
written_of (some c) = (map_condition_status c.status, c.message)

unfoldable pub progressing_of : ComputeInstance → SharedStatus × String
unfolding is_status_condition_unknown is_status_condition_true get_status_condition
    map_condition_status
progressing_of o =
    if is_status_condition_unknown o progressing && is_status_condition_unknown o accepted
    then (unspecified, "")
    else if is_status_condition_true o progressing
    then written_of (get_status_condition o progressing)
    else if is_status_condition_true o accepted
    then written_of (get_status_condition o accepted)
    else (shared_false, "")

unfoldable pub sync_progressing : ℕ → ComputeInstance → List RecordCondition → List RecordCondition
unfolding progressing_of sync_condition
sync_progressing now o = sync_condition now "PROGRESSING" (progressing_of o).0 (progressing_of o).1

-- syncAvailable, syncRestartInProgress and syncRestartFailed, with syncVMConditionFromCR
unfoldable pub sync_from_cr :
    ℕ → String → Option Condition → List RecordCondition → List RecordCondition
unfolding sync_condition map_condition_status
sync_from_cr now kind none cs = cs
sync_from_cr now kind (some c) cs =
    sync_condition now kind (map_condition_status c.status) c.message cs

unfoldable pub sync_conditions : ℕ → ComputeInstance → List RecordCondition → List RecordCondition
unfolding sync_progressing sync_from_cr get_status_condition
sync_conditions now o cs =
    sync_from_cr now "RESTART_FAILED" (get_status_condition o restart_failed) (
      sync_from_cr now "RESTART_IN_PROGRESS" (get_status_condition o restart_in_progress) (
        sync_from_cr now "AVAILABLE" (get_status_condition o available)
          (sync_progressing now o cs)))

unfoldable pub sync_phase : ComputeInstancePhase → ComputeInstanceState → ComputeInstanceState
sync_phase ComputeInstancePhase.starting state = ComputeInstanceState.starting
sync_phase ComputeInstancePhase.failed state = ComputeInstanceState.failed
sync_phase ComputeInstancePhase.running state = ComputeInstanceState.running
sync_phase ComputeInstancePhase.deleting state = ComputeInstanceState.deleting
sync_phase ComputeInstancePhase.unset state = state

unfoldable pub sync_ip_address : Option String → String → String
sync_ip_address none address = address
sync_ip_address (some annotated) address = if annotated == "" then address else annotated

unfoldable pub sync_last_restarted_at : Option ℕ → Option ℕ → Option ℕ
sync_last_restarted_at none time = time
sync_last_restarted_at (some restarted) time = some restarted

unfoldable pub sync_state : ℕ → ComputeInstance → RecordStatus → RecordStatus
unfolding sync_conditions sync_phase sync_ip_address sync_last_restarted_at lookup
sync_state now o status = record {
  conditions = sync_conditions now o status.conditions;
  state = sync_phase o.status.phase status.state;
  ip_address = sync_ip_address (lookup floating_ip_annotation o.annotations) status.ip_address;
  last_restarted_at = sync_last_restarted_at o.status.last_restarted_at status.last_restarted_at;
}

abbrev pub set_finalizers : List String → ComputeInstance → ComputeInstance
set_finalizers fs o = record o { finalizers = fs }

abbrev pub empty_status : RecordStatus
empty_status = record {
  conditions = [];
  state = ComputeInstanceState.unset;
  ip_address = "";
  last_restarted_at = none;
}

abbrev pub status_or_empty : Option RecordStatus → RecordStatus
status_or_empty none = empty_status
status_or_empty (some status) = status

abbrev pub FeedbackScope : Type 0 → Type 0 → Type 0
FeedbackScope W R = Scope ComputeInstance W (FeedbackCall R)

module _ {W R : Type 0} (kube : Kube) (api : FeedbackApi W R) where
  unfoldable pub update : Handler (FeedbackScope W R) (Unit {0})
  unfolding current modify telling
  update = do o ← current; answer ← telling called_update (api.update o); modify (λ old. answer)

  unfoldable pub fetch_compute_instance : String → Handler (FeedbackScope W R) (Record R)
  unfolding asking pure
  fetch_compute_instance id = do
    fetched ← asking (api.fetch id)
    pure (record { rest = api.with_spec fetched.rest; status = status_or_empty fetched.status })

  unfoldable pub save_compute_instance :
      Record R → Record R → Handler (FeedbackScope W R) (Unit {0})
  unfolding telling pure
  save_compute_instance before after =
      if api.equal after before then pure tt else telling (called_save after) (api.save after)

  -- handleUpdate. The state is synced from the object that the update has answered.
  unfoldable pub handle_update : Record R → Handler (FeedbackScope W R) (Record R)
  unfolding current modify update pure sync_state
  handle_update ci = do
    o ← current
    let added = kube.add_finalizer o.finalizers feedback_finalizer
    modify (set_finalizers added.0)
    if added.1 then update else pure tt
    object ← current
    pure (record ci { status = sync_state api.now object ci.status })

  unfoldable pub handle_delete : Record R → Handler (FeedbackScope W R) (Record R)
  unfolding current pure sync_state
  handle_delete ci = do
    object ← current
    pure (record ci { status = sync_state api.now object ci.status })

  unfoldable pub handle : Option ℕ → Record R → Handler (FeedbackScope W R) (Record R)
  unfolding handle_update handle_delete
  handle none ci = handle_update ci
  handle (some deleted_at) ci = handle_delete ci

  unfoldable pub remove_finalizer : Handler (FeedbackScope W R) (Unit {0})
  unfolding current modify update pure
  remove_finalizer = do
    o ← current
    let removed = kube.remove_finalizer o.finalizers feedback_finalizer
    modify (set_finalizers removed.0)
    if removed.1 then update else pure tt

  is_releasable : ComputeInstance → Bool
  unfolding is_present
  is_releasable o =
      is_present o.deletion_timestamp && kube.contains_finalizer o.finalizers feedback_finalizer

  abbrev pub is_single : List String → Bool
  is_single (f ∷ []) = true
  is_single _ = false

  -- the error of the signal is logged
  unfoldable pub release : String → Handler (FeedbackScope W R) (Unit {0})
  unfolding current pure telling remove_finalizer is_releasable
  release id = do
    o ← current
    if is_releasable o && is_single o.finalizers
        then (do
          remove_finalizer
          signalled ← attempt (telling (called_signal id) (api.signal id))
          pure tt)
        else pure tt

  unfoldable pub reconcile_labelled : Option String → Handler (FeedbackScope W R) (Unit {0})
  unfolding current pure fetch_compute_instance handle save_compute_instance release
      remove_finalizer is_releasable
  reconcile_labelled none = do o ← current; if is_releasable o then remove_finalizer else pure tt
  reconcile_labelled (some id) = do
    ci ← fetch_compute_instance id
    o ← current
    after ← handle o.deletion_timestamp ci
    save_compute_instance ci after
    release id

  unfoldable pub reconcile_instance : Handler (FeedbackScope W R) (Unit {0})
  unfolding current reconcile_labelled lookup
  reconcile_instance = do o ← current; reconcile_labelled (lookup id_label o.labels)

  unfoldable pub got : Result ComputeInstance → Handler W (Unit {0})
  unfolding reconcile_instance as_api_not_found is_present pure raise
  got (err e) w = (if is_present (as_api_not_found e) then pure tt else raise e) w
  got (ok o) w =
      let ended = reconcile_instance (record { instance = o; world = w; calls = [] }) in
      (ended.0, ended.1.world)

  unfoldable pub reconcile : Handler W (Unit {0})
  unfolding got
  reconcile = do answer ← attempt api.get; got answer

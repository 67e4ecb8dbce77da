-- ===== src/Feedback/ComputeInstances/Sync.antt =====
-- What syncState (internal/controller/computeinstance_feedback_controller.go) does a second time.
use cloudkit_operator.Prelude.{
  ℕ, String, ◌≡◌, refl, ap, ◌∙◌, ◌==◌, false, Bool-cases, Option, none, some, List, inl, inr,
  lookup,
}
use cloudkit_operator.Api.Condition.{Condition}
use cloudkit_operator.Api.ComputeInstance.{
  ComputeInstance, ComputeInstancePhase, available, restart_in_progress, restart_failed,
  get_status_condition,
}
use cloudkit_operator.Feedback.{RecordCondition, SharedStatus, map_condition_status, sync_condition}
use cloudkit_operator.Feedback.Laws.{Shows, Shows-sync_self, Shows-sync_other, sync_condition-idle}
use cloudkit_operator.Feedback.ComputeInstances.{
  ComputeInstanceState, RecordStatus, sync_progressing, sync_from_cr, sync_conditions, sync_phase,
  sync_ip_address, sync_last_restarted_at, sync_state, progressing_of, floating_ip_annotation,
}

-- the conditions that syncConditions writes, when the object has them
abbrev ShowsCondition : String → Option Condition → List RecordCondition → Type 0
ShowsCondition kind none cs = Unit
ShowsCondition kind (some c) cs = Shows kind (map_condition_status c.status) c.message cs

ShowsCondition-sync_self :
    (now : ℕ) (kind : String) (o : Option Condition) (cs : List RecordCondition)
    → ShowsCondition kind o (sync_from_cr now kind o cs)
unfolding sync_from_cr
ShowsCondition-sync_self now kind none cs = tt
ShowsCondition-sync_self now kind (some c) cs =
    Shows-sync_self now kind (map_condition_status c.status) c.message cs

Shows-sync_from_cr :
    (now : ℕ) (kind other : String) (status : SharedStatus) (message : String)
    (o : Option Condition) (cs : List RecordCondition)
    → (other == kind) ≡ false
    → Shows kind status message cs
    → Shows kind status message (sync_from_cr now other o cs)
unfolding sync_from_cr
Shows-sync_from_cr now kind other status message none cs h shows = shows
Shows-sync_from_cr now kind other status message (some c) cs h shows =
    Shows-sync_other now kind other status (map_condition_status c.status) message c.message cs h
      shows

ShowsCondition-sync_other :
    (now : ℕ) (kind other : String) (o p : Option Condition) (cs : List RecordCondition)
    → (other == kind) ≡ false
    → ShowsCondition kind o cs
    → ShowsCondition kind o (sync_from_cr now other p cs)
ShowsCondition-sync_other now kind other none p cs h shows = tt
ShowsCondition-sync_other now kind other (some c) p cs h shows =
    Shows-sync_from_cr now kind other (map_condition_status c.status) c.message p cs h shows

sync_from_cr-idle :
    (now : ℕ) (kind : String) (o : Option Condition) (cs : List RecordCondition)
    → ShowsCondition kind o cs
    → sync_from_cr now kind o cs ≡ cs
unfolding sync_from_cr
sync_from_cr-idle now kind none cs shows = refl
sync_from_cr-idle now kind (some c) cs shows =
    sync_condition-idle now kind (map_condition_status c.status) c.message cs shows

module _ (a r f : Option Condition) where
  -- four different types, one after the other
  chain-idle :
      (now later : ℕ) (status : SharedStatus) (message : String) (cs : List RecordCondition)
      → let c1 = sync_condition now "PROGRESSING" status message cs in
        let c2 = sync_from_cr now "AVAILABLE" a c1 in
        let c3 = sync_from_cr now "RESTART_IN_PROGRESS" r c2 in
        let c4 = sync_from_cr now "RESTART_FAILED" f c3 in
        sync_from_cr later "RESTART_FAILED" f (
          sync_from_cr later "RESTART_IN_PROGRESS" r (
            sync_from_cr later "AVAILABLE" a
              (sync_condition later "PROGRESSING" status message c4)))
        ≡ c4
  chain-idle now later status message cs =
      let c1 = sync_condition now "PROGRESSING" status message cs in
      let c2 = sync_from_cr now "AVAILABLE" a c1 in
      let c3 = sync_from_cr now "RESTART_IN_PROGRESS" r c2 in
      let c4 = sync_from_cr now "RESTART_FAILED" f c3 in
      let first = Shows-sync_from_cr now "PROGRESSING" "RESTART_FAILED" status message f c3 refl (
        Shows-sync_from_cr now "PROGRESSING" "RESTART_IN_PROGRESS" status message r c2 refl (
          Shows-sync_from_cr now "PROGRESSING" "AVAILABLE" status message a c1 refl
            (Shows-sync_self now "PROGRESSING" status message cs))) in
      let second = ShowsCondition-sync_other now "AVAILABLE" "RESTART_FAILED" a f c3 refl (
        ShowsCondition-sync_other now "AVAILABLE" "RESTART_IN_PROGRESS" a r c2 refl
          (ShowsCondition-sync_self now "AVAILABLE" a c1)) in
      let third =
        ShowsCondition-sync_other now "RESTART_IN_PROGRESS" "RESTART_FAILED" r f c3 refl
          (ShowsCondition-sync_self now "RESTART_IN_PROGRESS" r c2) in
      let fourth = ShowsCondition-sync_self now "RESTART_FAILED" f c3 in
      let ahead : List RecordCondition → List RecordCondition = λ ds.
        sync_from_cr later "RESTART_FAILED" f (sync_from_cr later "RESTART_IN_PROGRESS" r ds) in
      ap (λ ds. ahead (sync_from_cr later "AVAILABLE" a ds))
        (sync_condition-idle later "PROGRESSING" status message c4 first)
      ∙ ap ahead (sync_from_cr-idle later "AVAILABLE" a c4 second)
      ∙ ap (sync_from_cr later "RESTART_FAILED" f)
          (sync_from_cr-idle later "RESTART_IN_PROGRESS" r c4 third)
      ∙ sync_from_cr-idle later "RESTART_FAILED" f c4 fourth

sync_phase-idle :
    (p : ComputeInstancePhase) (s : ComputeInstanceState)
    → sync_phase p (sync_phase p s) ≡ sync_phase p s
unfolding sync_phase
sync_phase-idle ComputeInstancePhase.starting s = refl
sync_phase-idle ComputeInstancePhase.failed s = refl
sync_phase-idle ComputeInstancePhase.running s = refl
sync_phase-idle ComputeInstancePhase.deleting s = refl
sync_phase-idle ComputeInstancePhase.unset s = refl

sync_ip_address-idle :
    (o : Option String) (a : String) → sync_ip_address o (sync_ip_address o a) ≡ sync_ip_address o a
unfolding sync_ip_address
sync_ip_address-idle none a = refl
sync_ip_address-idle (some b) a = elim (Bool-cases (b == "")) [
  | inl empty ↦ rw empty refl
  | inr set ↦ rw set refl
]

sync_last_restarted_at-idle :
    (o a : Option ℕ)
    → sync_last_restarted_at o (sync_last_restarted_at o a) ≡ sync_last_restarted_at o a
unfolding sync_last_restarted_at
sync_last_restarted_at-idle none a = refl
sync_last_restarted_at-idle (some n) a = refl

-- Syncing the state of an object a second time, at any later time, changes nothing of the record, so
-- that the times of its conditions are those of their last change.
pub sync_state-idle :
    (now later : ℕ) (o : ComputeInstance) (status : RecordStatus)
    → sync_state later o (sync_state now o status) ≡ sync_state now o status
unfolding sync_state sync_conditions sync_progressing
sync_state-idle now later o status =
    let conditions =
      chain-idle (get_status_condition o available) (get_status_condition o restart_in_progress)
        (get_status_condition o restart_failed) now later (progressing_of o).0 (progressing_of o).1
        status.conditions in
    let phase = sync_phase-idle o.status.phase status.state in
    let address =
      sync_ip_address-idle (lookup floating_ip_annotation o.annotations) status.ip_address in
    let time = sync_last_restarted_at-idle o.status.last_restarted_at status.last_restarted_at in
    λ i. record {
      conditions = conditions i;
      state = phase i;
      ip_address = address i;
      last_restarted_at = time i;
    }

-- ===== src/Core/Coordinator/State.antt =====
-- The data of a coordinator lookup: route.rs, revocation.rs, state.rs, input.rs, effect.rs,
-- transition.rs and decision.rs of crates/kafka-driver-core/src/coordinator.
use Prim.Native.Nat.{max}
use kafka_driver.Base.{
  nat_eq, Bool, Option, List, [], ◌∷◌, true, ◌&&◌, if◌then◌else◌, ℕ, false, same_list, ◌==◌, leb,
}
use kafka_driver.Core.Identity.{
  BrokerId, OperationId, CoordinatorEpoch, CoordinatorKey, CoordinatorKind, EvidenceStamp,
  OutcomeStamp, Moment, is_after, group, transaction, share,
}
use kafka_driver.Core.Endpoint.{BrokerEndpoint, endpoint_eq}

pub record CoordinatorRoute : Type 0 where
  pub key : CoordinatorKey
  pub broker_id : BrokerId
  pub endpoint : BrokerEndpoint
  pub epoch : CoordinatorEpoch
  pub evidence : EvidenceStamp

abbrev same_kind : CoordinatorKind → CoordinatorKind → Bool
same_kind group group = true
same_kind transaction transaction = true
same_kind share share = true
same_kind _ _ = false

abbrev pub same_key : CoordinatorKey → CoordinatorKey → Bool
same_key a b = same_kind a.kind b.kind && same_list a.value b.value

abbrev pub is_same_target : CoordinatorRoute → CoordinatorRoute → Bool
is_same_target a b =
    same_key a.key b.key && a.broker_id == b.broker_id && endpoint_eq.same a.endpoint b.endpoint

-- The derived equality.
abbrev pub same_route : CoordinatorRoute → CoordinatorRoute → Bool
same_route a b = is_same_target a b && a.epoch == b.epoch && a.evidence == b.evidence

pub record CoordinatorRevocation : Type 0 where
  pub target : CoordinatorRoute
  pub required_after : OutcomeStamp

abbrev pub matches : CoordinatorRevocation → CoordinatorRoute → Bool
matches r route = is_same_target r.target route

-- The watermark after an observation, and whether the observation raised it.
abbrev pub observe : CoordinatorRevocation → OutcomeStamp → CoordinatorRevocation × Bool
observe r observed_at =
    if leb observed_at r.required_after
    then (r, false)
    else (record r { required_after = max r.required_after observed_at }, true)

abbrev pub accepts : CoordinatorRevocation → CoordinatorRoute → Bool
accepts r route = is_after route.evidence r.required_after

pub data CoordinatorFollowup : Type 0 where
  refresh revocation : CoordinatorFollowup

pub data CoordinatorState : Type 0 where
  unknown : (next : CoordinatorEpoch) → CoordinatorState
  discovering :
      (current : Option CoordinatorRoute)
      → OperationId
      → (target : CoordinatorEpoch) → Option CoordinatorFollowup
      → (retries : ℕ) → CoordinatorState
  retrying :
      (current : Option CoordinatorRoute)
      → OperationId
      → (target : CoordinatorEpoch) → Option CoordinatorFollowup
      → (retries : ℕ) → (at : Moment) → CoordinatorState
  ready : CoordinatorRoute → CoordinatorState

pub data CoordinatorInput : Type 0 where
  resolve_input refresh_input : OperationId → CoordinatorInput
  invalidate_input :
      CoordinatorRoute → (observed_at : OutcomeStamp) → OperationId → CoordinatorInput
  withdraw_input : CoordinatorRoute → OperationId → CoordinatorInput
  discovery_succeeded :
      OperationId
      → CoordinatorEpoch
      → BrokerId
      → BrokerEndpoint
      → EvidenceStamp
      → (followup_operation : OperationId) → CoordinatorInput
  discovery_failed :
      OperationId → CoordinatorEpoch → (followup_operation : OperationId) → CoordinatorInput
  discovery_rejected :
      OperationId
      → CoordinatorEpoch
      → (now : Moment) → (followup_operation : OperationId) → CoordinatorInput
  retry_elapsed_input :
      OperationId
      → CoordinatorEpoch
      → (now : Moment) → (retry_operation : OperationId) → CoordinatorInput

pub data CoordinatorEffect : Type 0 where
  find : OperationId → CoordinatorKey → CoordinatorEpoch → CoordinatorEffect
  wait_until : OperationId → CoordinatorEpoch → (at : Moment) → CoordinatorEffect
  epoch_exhausted : CoordinatorEffect

pub data CoordinatorDisposition : Type 0 where
  applied already_known coalesced refresh_queued ignored_stale : CoordinatorDisposition

pub record CoordinatorTransition : Type 0 where
  pub effects : List CoordinatorEffect
  pub disposition : CoordinatorDisposition

pub record CoordinatorMachine : Type 0 where
  pub key : CoordinatorKey
  pub state : CoordinatorState
  pub pending : Option CoordinatorRevocation

abbrev pub silent : CoordinatorDisposition → CoordinatorTransition
silent why = record { effects = []; disposition = why }

abbrev pub emits : CoordinatorEffect → CoordinatorTransition
emits effect = record { effects = effect ∷ []; disposition = applied }

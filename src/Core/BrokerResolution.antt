-- ===== src/Core/BrokerResolution.antt =====
-- The resolution of one advertised broker: crates/kafka-driver-core/src/broker_resolution.
pub mod Fencing
use kafka_driver.Base.{List, Option, ◌∷◌, none, [], if◌then◌else◌, some, ◌!=◌, ltb, ◌||◌, ◌==◌}
use kafka_driver.Core.Identity.{BrokerId, ConnectionEpoch, EffectId}
use kafka_driver.Core.Endpoint.{BrokerEndpoint}
use kafka_driver.Core.Resolution.{
  DnsRequest, DnsOutcome, DnsFailure, ResolvedAddressSet, found, failed,
}
use kafka_driver.Core.Directory.{BrokerRoute}

pub data BrokerResolutionState : Type 0 where
  dormant : BrokerResolutionState
  resolving : BrokerRoute → BrokerEndpoint → ConnectionEpoch → EffectId → BrokerResolutionState
  resolved : BrokerRoute → ConnectionEpoch → BrokerResolutionState
  gave_up : BrokerRoute → ConnectionEpoch → DnsFailure → BrokerResolutionState

pub data BrokerResolutionInput : Type 0 where
  start : BrokerRoute → BrokerEndpoint → ConnectionEpoch → EffectId → BrokerResolutionInput
  resolution_completed : DnsOutcome → BrokerResolutionInput

pub data BrokerResolutionEffect : Type 0 where
  resolve : DnsRequest → BrokerResolutionEffect
  report_resolved :
      BrokerRoute → ConnectionEpoch → BrokerEndpoint → ResolvedAddressSet → BrokerResolutionEffect
  report_failed : BrokerRoute → DnsFailure → BrokerResolutionEffect

pub data BrokerResolutionDisposition : Type 0 where
  applied ignored_stale ignored_busy rejected_broker : BrokerResolutionDisposition

pub record BrokerResolutionTransition : Type 0 where
  pub effects : List BrokerResolutionEffect
  pub disposition : BrokerResolutionDisposition

pub record BrokerResolutionMachine : Type 0 where
  pub broker_id : BrokerId
  pub state : BrokerResolutionState

unfoldable pub new : BrokerId → BrokerResolutionMachine
new broker_id = record { broker_id = broker_id; state = dormant }

abbrev pub current_identity : BrokerResolutionState → Option (BrokerRoute × ConnectionEpoch)
current_identity dormant = none
current_identity (resolving route _ epoch _) = some (route, epoch)
current_identity (resolved route epoch) = some (route, epoch)
current_identity (gave_up route epoch _) = some (route, epoch)

abbrev transition :
    List BrokerResolutionEffect → BrokerResolutionDisposition → BrokerResolutionTransition
transition es why = record { effects = es; disposition = why }

request :
    BrokerResolutionMachine
    → BrokerRoute
    → BrokerEndpoint
    → ConnectionEpoch
    → EffectId
    → BrokerResolutionMachine × BrokerResolutionTransition
request m route endpoint epoch effect_id = (
  record m { state = resolving route endpoint epoch effect_id },
  transition (resolve (record { epoch = epoch; effect_id = effect_id; endpoint = endpoint }) ∷ [])
      applied,
)

begin :
    BrokerResolutionMachine
    → BrokerRoute
    → BrokerEndpoint
    → ConnectionEpoch
    → EffectId
    → BrokerResolutionMachine × BrokerResolutionTransition
unfolding request
begin m route endpoint epoch effect_id =
    if route.broker_id != m.broker_id
    then (m, transition [] rejected_broker)
    else elim (current_identity m.state) [
      | none ↦ request m route endpoint epoch effect_id
      | some (current_route, current_epoch) ↦
          if ltb route.generation current_route.generation || ltb epoch current_epoch
          then (m, transition [] ignored_stale)
          else if epoch == current_epoch
          then (m, transition [] ignored_busy)
          else request m route endpoint epoch effect_id
    ]

complete :
    BrokerResolutionMachine → DnsOutcome → BrokerResolutionMachine × BrokerResolutionTransition
complete m outcome = elim m.state [
  | resolving route endpoint epoch effect_id ↦
      if outcome.epoch != epoch || outcome.effect_id != effect_id
      then (m, transition [] ignored_stale)
      else elim outcome.result [
        | found addresses ↦ (
          record m { state = resolved route epoch },
          transition (report_resolved route epoch endpoint addresses ∷ []) applied,
        )
        | failed failure ↦ (
          record m { state = gave_up route epoch failure },
          transition (report_failed route failure ∷ []) applied,
        )
      ]
  | _ ↦ (m, transition [] ignored_stale)
]

unfoldable pub apply :
    BrokerResolutionMachine
    → BrokerResolutionInput
    → BrokerResolutionMachine × BrokerResolutionTransition
unfolding begin complete
apply m (start route endpoint epoch effect_id) = begin m route endpoint epoch effect_id
apply m (resolution_completed outcome) = complete m outcome
